-- ===== src/Base/Strcat.antt =====
-- `strcat` of the C library over byte buffers.
use Prim.Native.Nat.{ℕ, ◌+◌, ◌≤◌, ◌<◌}
use mathlib.Core.Path.{◌≡◌, ap, sym, ◌∙◌}
use mathlib.Core.Logic.{◌≢◌}
use mathlib.Core.List.{List, [], ◌∷◌, ◌++◌, append_assoc}
use mathlib.Core.Option.{Option, none, some}
use native.Mathlib.Omega.{arith}
use lepd.Base.Lists.{length, take, drop, length-append, length-take, length-drop, All-append}
use lepd.Base.CString.{
  c_string, strlen, splice, NonZero, c_string-NonZero, take-strlen, c_string_before,
}

-- It writes the text and a 0 behind the text of the buffer.
unfoldable pub strcat : List ℕ → List ℕ → Option (List ℕ)
unfolding splice
strcat buf s = splice (strlen buf) (s ++ 0 ∷ []) buf

-- With room for the text and a 0, `strcat` appends the text and keeps the size of the buffer.
pub strcat_lem :
    (b s : List ℕ)
    → NonZero s
    → strlen b + length s < length b
    → (b' : List ℕ) × (strcat b s ≡ some b')
      × (c_string b' ≡ c_string b ++ s)
      × (length b' ≡ length b)
unfolding strcat splice
strcat_lem b s h room =
    let end : ℕ = strlen b + length (s ++ 0 ∷ []) in
    let size = length-append s (0 ∷ []) in
    (
      take (strlen b) b ++ ((s ++ 0 ∷ []) ++ drop end b),
      ground (arith, size),
      ap (λ (xs : List ℕ). c_string (xs ++ ((s ++ 0 ∷ []) ++ drop end b))) (take-strlen b)
          ∙ ap c_string (
              ap (λ (ys : List ℕ). c_string b ++ ys) (append_assoc s (0 ∷ []) (drop end b))
              ∙ sym (append_assoc (c_string b) s (0 ∷ drop end b)))
          ∙ c_string_before (c_string b ++ s) (drop end b)
              (All-append (λ x. x ≢ 0) (c_string b) s (c_string-NonZero b) h),
      omega (
        arith,
        size,
        length-append (take (strlen b) b) ((s ++ 0 ∷ []) ++ drop end b),
        length-append (s ++ 0 ∷ []) (drop end b),
        length-take (strlen b) b,
        length-drop end b,
      ),
    )

-- Without that room, `strcat` writes past the buffer.
pub strcat_past : (b s : List ℕ) → length b ≤ strlen b + length s → strcat b s ≡ none
unfolding strcat splice
strcat_past b s h = ground (arith, length-append s (0 ∷ []))
