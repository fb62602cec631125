-- ===== src/Cgtop/Slashes.antt =====
-- `path_kill_slashes` of cgtop.c.
pub mod Emitted
pub mod Laid
pub mod Components
pub mod Lengths
pub mod Canonical
use lepd.Base.{
  ℕ, zero, suc, ◌+◌, ◌-◌, Option, none, some, List, [], ◌∷◌, ◌++◌, Bool, true, false, get_elem?,
  ◌==◌, ◌>>=◌, if◌then◌else◌, replicate, not,
}
use lepd.Base.CString.{c_string, strlen, splice}
use lepd.Cgtop.{Malloc, put}

-- The locals: the block `f`, the index `i` of the last byte written, and the count `x`.
pub record Kept : Type 0 where
  pub f : List ℕ
  pub i : ℕ
  pub x : ℕ

-- `i++; *(f+i) = c;`
unfoldable pub keep_byte : ℕ → Kept → Option Kept
keep_byte c s = put (suc s.i) c s.f >>= λ f'. some (record s { f = f'; i = suc s.i })

-- `*(path+1)`
abbrev pub following : List ℕ → ℕ
following [] = 0
following (c ∷ cs) = c

-- A slash at the end of the path.
unfoldable pub last_slash : ℕ → ℕ → Kept → Option Kept
unfolding keep_byte
last_slash c next s =
    if c == b'/'
    then (if next == 0 then (keep_byte 0 s >>= λ s'. some (record s' { x = suc s'.x })) else some s)
    else some s

-- A slash behind a slash that was kept, or before another slash, is counted.
unfoldable pub any_slash : ℕ → ℕ → Kept → Option Kept
unfolding keep_byte
any_slash c next s =
    if c == b'/'
    then (get_elem? s.f s.i >>= λ kept.
        if kept == b'/'
        then some (record s { x = suc s.x })
        else (if next == b'/' then some (record s { x = suc s.x }) else keep_byte c s))
    else some s

unfoldable pub no_slash : ℕ → Kept → Option Kept
unfolding keep_byte
no_slash c s = if c == b'/' then some s else keep_byte c s

-- The body of the loop, at a byte and the one behind it.
unfoldable pub kill_step : ℕ → ℕ → Kept → Option Kept
unfolding last_slash any_slash no_slash
kill_step c next s = last_slash c next s >>= any_slash c next >>= no_slash c

-- The loop over the path, up to its 0.
unfoldable pub kill_loop : List ℕ → Kept → Option Kept
unfolding kill_step
kill_loop [] s = some s
kill_loop (c ∷ cs) s = kill_step c (following cs) s >>= kill_loop cs

-- `while(*p) *p = 0;` at the index `y`.
unfoldable pub end_text : ℕ → List ℕ → Option (List ℕ)
end_text y f = get_elem? f y >>= λ b. if b == 0 then some f else put y 0 f

-- The block that is returned.
unfoldable pub path_kill_slashes : Malloc → List ℕ → Option (List ℕ)
unfolding kill_loop end_text
path_kill_slashes malloc path =
    let j : ℕ = strlen path in
    malloc j >>= λ block. splice 0 (replicate j 0) block >>= λ f.
    put 0 (following (c_string path)) f >>= λ f'.
    kill_loop (c_string path) (record { f = f'; i = 0; x = 0 }) >>= λ s. end_text (j + 1 - s.x) s.f
