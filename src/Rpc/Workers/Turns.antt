-- ===== src/Rpc/Workers/Turns.antt =====
-- Whose turn it is: the connections that a round-robin over five workers gives to one of them.
use lepd.Base.{
  ℕ, zero, suc, ◌+◌, ◌%◌, ◌<◌, ◌≡◌, refl, ap, ◌≢◌, some, List, [], ◌∷◌, ◌++◌, arith, length,
  get_elem?, set, ◌==◌, if◌then◌else◌,
}

module _ {ℓ} {A : Type ℓ} where
  -- Of a list whose first element comes in turn `r`, what worker `k` of five gets.
  abbrev pub share : ℕ → ℕ → List A → List A
  share k r [] = []
  share k r (x ∷ xs) = let rest = share k (suc r) xs in if r % 5 == k then x ∷ rest else rest

  pub share_mine :
      (k r : ℕ) (xs : List A) (x : A)
      → (r + length xs) % 5 ≡ k
      → share k r (xs ++ x ∷ []) ≡ share k r xs ++ x ∷ []
  share_mine k r [] x e = let mine : r % 5 ≡ k = omega arith in ground (arith, mine)
  share_mine k r (y ∷ ys) x e = ground (arith, share_mine k (suc r) ys x (omega arith))

  pub share_other :
      (k r : ℕ) (xs : List A) (x : A)
      → (r + length xs) % 5 ≢ k
      → share k r (xs ++ x ∷ []) ≡ share k r xs
  share_other k r [] x e = let other : r % 5 ≢ k = omega arith in ground (arith, other)
  share_other k r (y ∷ ys) x e = ground (arith, share_other k (suc r) ys x (omega arith))

  pub get-set_same :
      (xs : List A) (i : ℕ) (v : A) → i < length xs → get_elem? (set xs i v) i ≡ some v
  get-set_same [] i v h = absurd (omega arith)
  get-set_same (x ∷ xs) zero v h = refl
  get-set_same (x ∷ xs) (suc i) v h = get-set_same xs i v (omega arith)

  pub get-set_other :
      (xs : List A) (i j : ℕ) (v : A) → i ≢ j → get_elem? (set xs i v) j ≡ get_elem? xs j
  get-set_other [] i j v h = refl
  get-set_other (x ∷ xs) zero zero v h = absurd (h refl)
  get-set_other (x ∷ xs) zero (suc j) v h = refl
  get-set_other (x ∷ xs) (suc i) zero v h = refl
  get-set_other (x ∷ xs) (suc i) (suc j) v h = get-set_other xs i j v (λ e. h (ap suc e))
