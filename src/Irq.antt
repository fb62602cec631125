-- ===== src/Irq.antt =====
-- `irq_info_main` of src/modules/customization/src/irq_info.c: the interrupts of a second, from two
-- reads of /proc/stat. `scan` is what `strstr` and `sscanf` find behind a word in a text.
pub mod Rates
mod Examples
use lepd.Base.{
  ℕ, ◌+◌, ◌-◌, ◌/◌, ◌%◌, ◌^◌, ltb, Option, none, some, List, ◌++◌, String, if◌then◌else◌, ◌>>=◌,
  ◌==◌, drop, replicate, length,
}
use lepd.Base.Int.{ℤ, pos, negsuc}
use lepd.Base.Words.{minus_64}
use lepd.Base.CString.{c_string, strlen}

abbrev pub buff_size : ℕ
buff_size = 65535

-- `read` into the start of a buffer.
unfoldable pub read_into : List ℕ → List ℕ → List ℕ
read_into bytes buff = bytes ++ drop (length bytes) buff

-- The text of a buffer that `strstr` walks; without a 0 it walks out of the buffer, a fault.
unfoldable pub text_of : List ℕ → Option (List ℕ)
text_of buff = if strlen buff == length buff then none else some (c_string buff)

-- `llbuf` keeps its value where the word is not found.
abbrev pub keep : Option ℕ → ℕ → ℕ
keep none llbuf = llbuf
keep (some n) llbuf = n

-- Where `fprintf` finds the arguments of `%d` that were passed as `unsigned long long`: in a word of 64
-- bits each, or, on a 32-bit machine with the low word first, in two words each.
pub data Abi : Type 0 where
  lp64 ilp32 : Abi

-- The `int` of the low 32 bits.
unfoldable pub to_int : ℕ → ℤ
to_int n = let low = n % 2 ^ 32 in if ltb low (2 ^ 31) then pos low else negsuc (2 ^ 32 - 1 - low)

-- What two conversions `%d` print of two arguments of 64 bits.
unfoldable pub print_ints : Abi → ℕ → ℕ → ℤ × ℤ
unfolding to_int
print_ints lp64 a b = (to_int a, to_int b)
print_ints ilp32 a b = (to_int a, to_int (a / 2 ^ 32))

-- What is printed for irq and softirq.
unfoldable pub irq_info_main : Abi → (String → List ℕ → Option ℕ) → List ℕ → List ℕ → Option (ℤ × ℤ)
unfolding read_into text_of print_ints
irq_info_main abi scan first second =
    let buff = read_into first (replicate buff_size 0) in
    text_of buff >>= λ t.
    let irq = keep (scan "intr" t) 0 in
    let softirq = keep (scan "softirq" t) irq in
    text_of (read_into second buff) >>= λ t'.
    let irq' = keep (scan "intr" t') softirq in
    let softirq' = keep (scan "softirq" t') irq' in
    some (print_ints abi (minus_64 irq' irq) (minus_64 softirq' softirq))
