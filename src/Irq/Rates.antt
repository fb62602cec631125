-- ===== src/Irq/Rates.antt =====
-- What `irq_info_main` prints.
use lepd.Base.{
  ℕ, ◌-◌, ◌/◌, ◌%◌, ◌^◌, ltb, true, ◌≤◌, ◌<◌, ◌≡◌, refl, ◌∙◌, ap, Option, none, some, List, ◌++◌,
  String, ◌==◌, replicate, length, arith, length-append, length-replicate, drop-replicate,
  drop_past, false,
}
use lepd.Base.CString.{strlen, NonZero, c_string-append_zeros}
use lepd.Base.Words.{minus_64}
use lepd.Base.Int.{ℤ, pos}
use lepd.Irq.{
  Abi, lp64, ilp32, to_int, print_ints, buff_size, read_into, text_of, keep, irq_info_main,
}

-- A text shorter than the buffer, over zeros.
over_zeros :
    (n : ℕ) (bytes : List ℕ)
    → read_into bytes (replicate n 0) ≡ bytes ++ replicate (n - length bytes) 0
unfolding read_into
over_zeros n bytes = ap (λ (z : List ℕ). bytes ++ z) (drop-replicate {A = ℕ} n (length bytes) 0)

text_of_zeros :
    (bytes : List ℕ) (n : ℕ) → NonZero bytes → 0 < n → text_of (bytes ++ replicate n 0) ≡ some bytes
unfolding text_of
text_of_zeros bytes n h some_zeros =
    let text = c_string-append_zeros bytes n h in
    let size = length-append bytes (replicate n 0) in
    let zeros = length-replicate {A = ℕ} n 0 in
    let short : (strlen (bytes ++ replicate n 0) == length (bytes ++ replicate n 0)) ≡ false =
      ground (arith, ap length text) in
    rw short (ap some text)

-- The second text is read over the first one, which is not longer.
over_shorter :
    (n : ℕ) (first second : List ℕ)
    → length first ≤ length second
    → read_into second (first ++ replicate n 0)
      ≡ second ++ replicate (n - (length second - length first)) 0
unfolding read_into
over_shorter n first second h =
    ap (λ (z : List ℕ). second ++ z)
      (drop_past first (replicate n 0) (length second) (length second - length first) (omega arith)
        ∙ drop-replicate {A = ℕ} n (length second - length first) 0)

to_int-small : (n : ℕ) → n < 2 ^ 31 → to_int n ≡ pos n
unfolding to_int
to_int-small n small =
    let low : n % 2 ^ 32 ≡ n = omega arith in
    let positive : ltb n (2 ^ 31) ≡ true = ground arith in rw (low, positive) refl

module _ (abi : Abi) (scan : String → List ℕ → Option ℕ) (first second : List ℕ)
    (text : NonZero first) (text' : NonZero second) (longer : length first ≤ length second)
    (short : length second < buff_size) where
  reads : irq_info_main abi scan first second ≡ (
      let irq = keep (scan "intr" first) 0 in
      let softirq = keep (scan "softirq" first) irq in
      let irq' = keep (scan "intr" second) softirq in
      let softirq' = keep (scan "softirq" second) irq' in
      some (print_ints abi (minus_64 irq' irq) (minus_64 softirq' softirq)))
  unfolding irq_info_main
  reads =
      rw
        (
          over_zeros buff_size first,
          text_of_zeros first (buff_size - length first) text (omega arith),
          over_shorter (buff_size - length first) first second longer,
          text_of_zeros second (buff_size - length first - (length second - length first)) text'
              (omega arith),
        )
        refl

-- The increases of both counters on a machine of 64 bits; of 32 bits, the first and 0.
abbrev pub rates : Abi → ℕ → ℕ → ℤ × ℤ
rates lp64 irq softirq = (pos irq, pos softirq)
rates ilp32 irq softirq = (pos irq, pos 0)

print_ints-rates :
    (abi : Abi) (irq softirq : ℕ)
    → irq < 2 ^ 31
    → softirq < 2 ^ 31
    → print_ints abi irq softirq ≡ rates abi irq softirq
unfolding print_ints
print_ints-rates lp64 irq softirq small small' =
    rw (to_int-small irq small, to_int-small softirq small') refl
print_ints-rates ilp32 irq softirq small small' =
    let high : irq / 2 ^ 32 ≡ 0 = omega arith in
    rw (to_int-small irq small, high, to_int-small 0 (omega arith)) refl

-- If both texts are shorter than the buffer, the second not shorter than the first, both give both
-- counters, none falls, and each grows by less than 2^31, then a machine of 64 bits prints the
-- increase of both, but one of 32 bits, with the low word first, the increase of the interrupts and 0.
pub irq_info_main-eq :
    (abi : Abi) (scan : String → List ℕ → Option ℕ) (first second : List ℕ)
    (irq irq' softirq softirq' : ℕ)
    → NonZero first
    → NonZero second
    → length first ≤ length second
    → length second < buff_size
    → scan "intr" first ≡ some irq
    → scan "softirq" first ≡ some softirq
    → scan "intr" second ≡ some irq'
    → scan "softirq" second ≡ some softirq'
    → irq ≤ irq'
    → irq' < 2 ^ 64
    → softirq ≤ softirq'
    → softirq' < 2 ^ 64
    → irq' - irq < 2 ^ 31
    → softirq' - softirq < 2 ^ 31
    → irq_info_main abi scan first second ≡ some (rates abi (irq' - irq) (softirq' - softirq))
irq_info_main-eq abi scan first second irq irq' softirq softirq' text text' longer short a b c e le
      small le' small' few few' =
    let one : minus_64 irq' irq ≡ irq' - irq = omega arith in
    let two : minus_64 softirq' softirq ≡ softirq' - softirq = omega arith in
    reads abi scan first second text text' longer short
    ∙ rw (a, b, c, e, one, two) (ap some (print_ints-rates abi _ _ few few'))

-- If neither text gives the counter of softirq, as when the line lies behind the buffer, a machine of
-- 64 bits prints the interrupts for both.
pub irq_info_main_lost :
    (scan : String → List ℕ → Option ℕ) (first second : List ℕ) (irq irq' : ℕ)
    → NonZero first
    → NonZero second
    → length first ≤ length second
    → length second < buff_size
    → scan "intr" first ≡ some irq
    → scan "softirq" first ≡ none
    → scan "intr" second ≡ some irq'
    → scan "softirq" second ≡ none
    → irq_info_main lp64 scan first second
      ≡ some (to_int (minus_64 irq' irq), to_int (minus_64 irq' irq))
unfolding print_ints
irq_info_main_lost scan first second irq irq' text text' longer short a b c e =
    reads lp64 scan first second text text' longer short ∙ rw (a, b, c, e) refl
