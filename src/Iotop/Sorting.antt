-- ===== src/Iotop/Sorting.antt =====
-- `sort_diff` puts the tasks in descending order, and loses none.
use mathlib.Core.List.{Perm}
use mathlib.Core.List.Perm
use lepd.Base.{
  ℕ, zero, suc, ◌≤◌, ◌≡◌, refl, Bool, true, false, some, List, [], ◌∷◌, length, All, arith,
  Bool-cases, inl, inr, reverse,
}
use lepd.Base.Doubles.{Doubles}
use lepd.Iotop.{
  XxxidStats, SortBy, sort_desc, sort_asc, exchange_pass, exchange_sort, found, sort_diff,
}

-- A strict test that orders all elements: of two, at most one is greater, and not being greater is
-- transitive.
pub record IsOrder {A : Type 0} (gt : A → A → Bool) : Type 0 where
  pub asym : (x y : A) → gt y x ≡ true → gt x y ≡ false
  pub trans : (x y z : A) → gt x y ≡ false → gt y z ≡ false → gt x z ≡ false

module _ {A : Type 0} (gt : A → A → Bool) where
  -- Nothing that comes later is greater.
  abbrev pub Descending : List A → Type 0
  Descending [] = Unit {0}
  Descending (x ∷ xs) = All (λ y. gt y x ≡ false) xs × Descending xs

  exchange_pass-Perm :
      (x : A) (ys : List A) → Perm ((exchange_pass gt x ys).0 ∷ (exchange_pass gt x ys).1) (x ∷ ys)
  unfolding exchange_pass
  exchange_pass-Perm x [] = Perm.refl _
  exchange_pass-Perm x (y ∷ ys) = elim (Bool-cases (gt y x)) [
    | inl e ↦ rw e (Perm.trans (Perm.swap _ _ _) (Perm.cons x (exchange_pass-Perm y ys)))
    | inr e ↦ rw e (
        Perm.trans (Perm.swap _ _ _)
          (Perm.trans (Perm.cons y (exchange_pass-Perm x ys)) (Perm.swap _ _ _)))
  ]

  exchange_pass-All :
      (P : A → Type 0) (x : A) (ys : List A)
      → P x
      → All P ys
      → P (exchange_pass gt x ys).0 × All P (exchange_pass gt x ys).1
  unfolding exchange_pass
  exchange_pass-All P x [] px ps = (px, tt)
  exchange_pass-All P x (y ∷ ys) px (py, ps) = elim (Bool-cases (gt y x)) [
    | inl e ↦ let (m, r) = exchange_pass-All P y ys py ps in rw e (m, (px, r))
    | inr e ↦ let (m, r) = exchange_pass-All P x ys px ps in rw e (m, (py, r))
  ]

  exchange_sort-All :
      (P : A → Type 0) (n : ℕ) (xs : List A) → All P xs → All P (exchange_sort gt n xs)
  unfolding exchange_sort
  exchange_sort-All P zero xs ps = ps
  exchange_sort-All P (suc n) [] ps = tt
  exchange_sort-All P (suc n) (x ∷ xs) (px, ps) =
      let (m, r) = exchange_pass-All P x xs px ps in
      (m, exchange_sort-All P n (exchange_pass gt x xs).1 r)

  length-exchange_pass : (x : A) (ys : List A) → length (exchange_pass gt x ys).1 ≡ length ys
  unfolding exchange_pass
  length-exchange_pass x [] = refl
  length-exchange_pass x (y ∷ ys) =
      ground (arith, length-exchange_pass x ys, length-exchange_pass y ys)

  pub exchange_sort-Perm : (n : ℕ) (xs : List A) → Perm (exchange_sort gt n xs) xs
  unfolding exchange_sort
  exchange_sort-Perm zero xs = Perm.refl xs
  exchange_sort-Perm (suc n) [] = Perm.refl []
  exchange_sort-Perm (suc n) (x ∷ xs) =
      Perm.trans (Perm.cons _ (exchange_sort-Perm n (exchange_pass gt x xs).1))
        (exchange_pass-Perm x xs)

  module _ (o : IsOrder gt) where
    -- What a pass leaves at its index is not less than what it began with, nor than what is behind.
    exchange_pass_greatest :
        (x : A) (ys : List A)
        → (gt x (exchange_pass gt x ys).0 ≡ false)
          × All (λ y. gt y (exchange_pass gt x ys).0 ≡ false) (exchange_pass gt x ys).1
    unfolding exchange_pass
    exchange_pass_greatest x [] = (irrefl, tt)
      where
        irrefl : gt x x ≡ false
        irrefl = elim (Bool-cases (gt x x)) [ inl e ↦ o.asym x x e | inr e ↦ e ]
    exchange_pass_greatest x (y ∷ ys) = elim (Bool-cases (gt y x)) [
      | inl e ↦
          let (top, rest) = exchange_pass_greatest y ys in
          let below = o.trans x y (exchange_pass gt y ys).0 (o.asym x y e) top in
          rw e (below, (below, rest))
      | inr e ↦
          let (top, rest) = exchange_pass_greatest x ys in
          rw e (top, (o.trans y x (exchange_pass gt x ys).0 e top, rest))
    ]

    pub exchange_sort-Descending :
        (n : ℕ) (xs : List A) → length xs ≤ n → Descending (exchange_sort gt n xs)
    unfolding exchange_sort
    exchange_sort-Descending zero [] h = tt
    exchange_sort-Descending zero (x ∷ xs) h = absurd (omega arith)
    exchange_sort-Descending (suc n) [] h = tt
    exchange_sort-Descending (suc n) (x ∷ xs) h = (
      exchange_sort-All _ n (exchange_pass gt x xs).1 (exchange_pass_greatest x xs).1,
      exchange_sort-Descending n (exchange_pass gt x xs).1
          (omega (arith, length-exchange_pass x xs)),
    )

-- Of a chain with tasks, `sort_diff` gives one with the same tasks in which none has a greater task
-- behind it, by the field that is chosen, if the comparison of that field is an order; ascending, it
-- is that chain in reverse.
pub sort_diff-Descending :
    (d : Doubles) (by : SortBy) (s : XxxidStats d) (ss : List (XxxidStats d))
    → IsOrder (found d by)
    → (sorted : List (XxxidStats d)) × (sort_diff d by sort_desc (s ∷ ss) ≡ some sorted)
      × (sort_diff d by sort_asc (s ∷ ss) ≡ some (reverse sorted))
      × Perm sorted (s ∷ ss)
      × Descending (found d by) sorted
unfolding sort_diff
sort_diff-Descending d by s ss o =
    let n : ℕ = length (s ∷ ss) in
    (
      exchange_sort (found d by) n (s ∷ ss),
      refl,
      refl,
      exchange_sort-Perm (found d by) n (s ∷ ss),
      exchange_sort-Descending (found d by) o n (s ∷ ss) (omega arith),
    )
