-- ===== src/Cgtop.antt =====
-- src/modules/customization/src/cgtop.c: the usage of the control groups.
pub mod Slashes
pub mod Paths
pub mod Lines
pub mod Usage
pub mod Walk
pub mod Main
mod Examples
use lepd.Base.{ℕ, zero, suc, Option, none, some, List, [], ◌∷◌}
use lepd.Base.CString.{splice}

-- What `malloc` answers for a size: the bytes of the block that may be accessed, or NULL.
abbrev pub Malloc : Type 0
Malloc = ℕ → Option (List ℕ)

-- `buf[i] = v`
abbrev pub put : ℕ → ℕ → List ℕ → Option (List ℕ)
put i v buf = splice i (v ∷ []) buf
