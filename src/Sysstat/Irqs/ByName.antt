-- ===== src/Sysstat/Irqs/ByName.antt =====
-- The rates of interrupts follow the names, wherever they stand in the samples.
use lepd.Base.{
  ℕ, zero, suc, ◌+◌, ◌*◌, ◌≤◌, ◌<◌, ◌≡◌, ◌≢◌, inl, inr, refl, ap, sym, ◌∙◌, Option, none, some,
  List, [], ◌∷◌, true, false, ◌==◌, >>=-eq-some, get_elem?, take, length, All, length-take, arith,
  Bool-cases,
}
use lepd.Base.CString.{same, same→eq}
use lepd.Base.Doubles.{Doubles}
use lepd.Sysstat.Irqs.{StatsIrqcpu}
use lepd.Sysstat.Irqs.Rows.{
  minus_32, find_name, rate, rate_against, rate_moved, irq_value, irq_values,
}

-- No two cells have the same name, but for the empty name of cells that are not used.
abbrev pub DistinctNames : List StatsIrqcpu → Type 0
DistinctNames qs =
    (i j : ℕ) (p q : StatsIrqcpu)
    → get_elem? qs i ≡ some p
    → get_elem? qs j ≡ some q
    → p.irq_name ≡ q.irq_name
    → p.irq_name ≢ []
    → i ≡ j

same_refl : (s : List ℕ) → same s s ≡ true
unfolding same
same_refl [] = refl
same_refl (c ∷ s) = ground (arith, same_refl s)

-- A search that meets the name gives a place where it stands.
find_name-some :
    (name : List ℕ) (qs : List StatsIrqcpu) (j : ℕ) (q : StatsIrqcpu)
    → get_elem? qs j ≡ some q
    → q.irq_name ≡ name
    → (i : ℕ) × ((p : StatsIrqcpu) × (find_name name qs ≡ some i)
        × (get_elem? qs i ≡ some p)
        × (p.irq_name ≡ name))
unfolding find_name
find_name-some name [] j q h e = absurd cc
find_name-some name (p ∷ qs) zero q h e =
    let is : p.irq_name ≡ name = ground arith in
    let here : same name p.irq_name ≡ true = rw is (same_refl name) in
    (0, (p, rw here refl, refl, is))
find_name-some name (p ∷ qs) (suc j) q h e = elim (Bool-cases (same name p.irq_name)) [
  | inl here ↦ (0, (p, rw here refl, refl, same→eq name p.irq_name here))
  | inr later ↦
      let (i, (p', found, at_i, is)) = find_name-some name qs j q h e in
      (suc i, (p', rw (later, found) refl, at_i, is))
]

get_elem?-take :
    (n j : ℕ) (qs : List StatsIrqcpu) → j < n → get_elem? (take n qs) j ≡ get_elem? qs j
get_elem?-take zero j qs h = absurd (omega arith)
get_elem?-take (suc n) j [] h = refl
get_elem?-take (suc n) zero (q ∷ qs) h = refl
get_elem?-take (suc n) (suc j) (q ∷ qs) h = get_elem?-take n j qs (omega arith)

get_elem?-some :
    (qs : List StatsIrqcpu) (i : ℕ) → i < length qs → (q : StatsIrqcpu) × (get_elem? qs i ≡ some q)
get_elem?-some [] i h = absurd (omega arith)
get_elem?-some (q ∷ qs) zero h = (q, refl)
get_elem?-some (q ∷ qs) (suc i) h = get_elem?-some qs i (omega arith)

find_name-lt :
    (name : List ℕ) (qs : List StatsIrqcpu) (i : ℕ) → find_name name qs ≡ some i → i < length qs
unfolding find_name
find_name-lt name [] i h = absurd cc
find_name-lt name (q ∷ qs) i h = elim (Bool-cases (same name q.irq_name)) [
  | inl here ↦ ground arith
  | inr later ↦
      let (k, at_k, e) = >>=-eq-some (find_name name qs) (λ k. some (suc k)) (rw later at h) in
      ground (arith, find_name-lt name qs k at_k)
]

-- The counter in a cell; 0 where there is no cell.
abbrev pub interrupt_of : Option StatsIrqcpu → ℕ
interrupt_of none = 0
interrupt_of (some p) = p.interrupt

module _ (d : Doubles) (hz interval ic_nr itv : ℕ) (prev curr : List StatsIrqcpu) where
  -- The counter of processor c for a name in the reference; 0 for a name that it does not have.
  abbrev pub counter_at : ℕ → Option ℕ → ℕ
  counter_at c none = 0
  counter_at c (some i) = interrupt_of (get_elem? prev (c * ic_nr + i))

  abbrev pub previous : ℕ → List ℕ → ℕ
  previous c name = counter_at c (find_name name (take ic_nr prev))

  -- The rates of the counters of processor c from place j on.
  abbrev pub rates : ℕ → ℕ → List (List ℕ) → List d.Double
  rates c j [] = []
  rates c j (name ∷ names) =
      rate d hz (minus_32 (interrupt_of (get_elem? curr (c * ic_nr + j))) (previous c name)) itv
      ∷ rates c (suc j) names

  module _ (c : ℕ) (some_time : interval ≢ 0) (distinct : DistinctNames (take ic_nr prev))
      (room : c * ic_nr + ic_nr ≤ length prev) (room' : c * ic_nr + ic_nr ≤ length curr) where
    abbrev ratio : StatsIrqcpu → ℕ → d.Double
    ratio p before = rate d hz (minus_32 p.interrupt before) itv

    against :
        (i : ℕ) (p : StatsIrqcpu)
        → i < ic_nr
        → rate_against d hz interval ic_nr itv prev curr c i p
          ≡ some (ratio p (counter_at c (some i)))
    unfolding rate_against
    against i p h =
        let (q, at_i) = get_elem?-some prev (c * ic_nr + i) (omega arith) in rw at_i refl

    moved :
        (p : StatsIrqcpu) (place : Option ℕ)
        → ((i : ℕ) → place ≡ some i → i < ic_nr)
        → rate_moved d hz interval ic_nr itv prev curr c p place
          ≡ some (ratio p (counter_at c place))
    unfolding rate_moved
    moved p none h = refl
    moved p (some i) h = against i p (h i refl)

    length-take_le : (n : ℕ) (qs : List StatsIrqcpu) → length (take n qs) ≤ n
    length-take_le n qs = omega (arith, length-take n qs)

    -- A value is the rate against the counter of the same name.
    value-previous :
        (j : ℕ) (name : List ℕ) (p : StatsIrqcpu)
        → j < ic_nr
        → name ≢ []
        → get_elem? curr (c * ic_nr + j) ≡ some p
        → irq_value d hz interval ic_nr itv prev curr c j name ≡ some (ratio p (previous c name))
    unfolding irq_value
    value-previous j name p h named at_p =
        let (q0, at_j) = get_elem?-some prev j (omega arith) in
        let timed : (interval == 0) ≡ false = ground arith in
        elim (Bool-cases (same name q0.irq_name)) [
          | inl here ↦
              let (i, (q, found, at_i, is)) =
                find_name-some name (take ic_nr prev) j q0 (get_elem?-take ic_nr j prev h ∙ at_j)
                  (same→eq name q0.irq_name here) in
              let where_it_is : i ≡ j =
                distinct i j q q0 at_i (get_elem?-take ic_nr j prev h ∙ at_j)
                  (is ∙ sym (same→eq name q0.irq_name here)) (λ empty. named (sym is ∙ empty)) in
              rw (at_j, at_p, timed, here)
                (against j p h
                  ∙ ap (λ (o : Option ℕ). some (ratio p (counter_at c o)))
                      (ap some (sym where_it_is) ∙ sym found))
          | inr gone ↦
              rw (at_j, at_p, timed, gone)
                (moved p (find_name name (take ic_nr prev)) λ i found.
                  omega
                    (arith, find_name-lt name (take ic_nr prev) i found, length-take_le ic_nr prev))
        ]

    -- In a row of interrupts each value is the rate of a counter against the counter that had the
    -- same name in the reference, wherever that stands, and against 0 if the name is new; from 2^32
    -- on the counters start again at 0. No name that is not empty stands twice in the reference, the arrays have the
    -- cells of the processor, and an interval was asked for.
    pub irq_values-rates :
        (j : ℕ) (names : List (List ℕ))
        → j + length names ≤ ic_nr
        → All (λ name. name ≢ []) names
        → irq_values d hz interval ic_nr itv prev curr c j names ≡ some (rates c j names)
    unfolding irq_values
    irq_values-rates j [] h named = refl
    irq_values-rates j (name ∷ names) h (first_named, named) =
        let (p, at_p) = get_elem?-some curr (c * ic_nr + j) (omega arith) in
        rw
          (
            value-previous j name p (omega arith) first_named at_p,
            irq_values-rates (suc j) names (omega arith) named,
            at_p,
          )
          refl
