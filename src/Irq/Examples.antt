-- ===== src/Irq/Examples.antt =====
-- Two reads of a small /proc/stat, whose counters are its first two bytes.
use text.Mathlib.Text.{◌==◌ as str_eq}
use lepd.Base.{
  ℕ, ◌-◌, ◌≡◌, refl, Option, some, List, [], ◌∷◌, String, if◌then◌else◌, get_elem?, arith,
}
use lepd.Irq.{ilp32, irq_info_main}
use lepd.Irq.Rates.{rates, irq_info_main-eq}

abbrev scan_byte : String → List ℕ → Option ℕ
scan_byte word text = get_elem? text (if str_eq word "intr" then 0 else 1)

irq_info_main-eq_example :
    irq_info_main ilp32 scan_byte (3 ∷ 5 ∷ []) (7 ∷ 6 ∷ 1 ∷ []) ≡ some (rates ilp32 (7 - 3) (6 - 5))
irq_info_main-eq_example =
    irq_info_main-eq ilp32 scan_byte (3 ∷ 5 ∷ []) (7 ∷ 6 ∷ 1 ∷ []) 3 7 5 6 (omega arith)
      (omega arith) (omega arith) (omega arith) refl refl refl refl (omega arith) (omega arith)
      (omega arith) (omega arith) (omega arith) (omega arith)
