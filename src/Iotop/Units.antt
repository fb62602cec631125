-- ===== src/Iotop/Units.antt =====
-- The unit that `humanize_val` chooses.
use lepd.Base.{
  ℕ, zero, suc, ◌+◌, ◌<◌, ◌≡◌, refl, ◌∙◌, ap, Bool, true, false, none, some, String, arith,
  get_elem?,
}
use lepd.Base.Doubles.{Doubles}
use lepd.Iotop.{Config, humanize_loop, humanize_val, prefix}

module _ (d : Doubles) where
  -- The value after `k` divisions by 1000.
  abbrev pub shrunk : ℕ → d.Double → d.Double
  shrunk zero value = value
  shrunk (suc k) value = shrunk k (d.over value (d.of_uint64 1000))

  -- The loop goes on after `k` divisions.
  abbrev pub Large : ℕ → d.Double → Type 0
  Large k value = d.above (shrunk k value) (d.of_uint64 10000) ≡ true

  abbrev pub Small : ℕ → d.Double → Type 0
  Small k value = d.above (shrunk k value) (d.of_uint64 10000) ≡ false

  loop_stops :
      (n p k : ℕ) (value : d.Double)
      → k < n
      → ((i : ℕ) → i < k → Large i value)
      → Small k value
      → humanize_loop d n p value ≡ (shrunk k value, p + k)
  unfolding humanize_loop
  loop_stops zero p k value h large small = absurd (omega arith)
  loop_stops (suc n) p zero value h large small =
      let same : p ≡ p + zero = omega arith in rw small (ap (λ (q : ℕ). (value, q)) same)
  loop_stops (suc n) p (suc k) value h large small =
      let same : suc p + k ≡ p + suc k = omega arith in
      rw (large 0 (omega arith)) (
        loop_stops n (suc p) k (d.over value (d.of_uint64 1000)) (omega arith)
          (λ i below. large (suc i) (omega arith)) small
        ∙ ap (λ (q : ℕ). (shrunk (suc k) value, q)) same)

  loop_ends :
      (n p : ℕ) (value : d.Double)
      → ((i : ℕ) → i < n → Large i value)
      → humanize_loop d n p value ≡ (shrunk n value, p + n)
  unfolding humanize_loop
  loop_ends zero p value large =
      let same : p ≡ p + zero = omega arith in ap (λ (q : ℕ). (value, q)) same
  loop_ends (suc n) p value large =
      let same : suc p + n ≡ p + suc n = omega arith in
      rw (large 0 (omega arith)) (
        loop_ends n (suc p) (d.over value (d.of_uint64 1000))
          (λ i below. large (suc i) (omega arith))
        ∙ ap (λ (q : ℕ). (shrunk (suc n) value, q)) same)

  -- If a value is above 10000 after each of the first `k` divisions but not after the next, for
  -- `k` below 5, `humanize_val` returns what `k` divisions leave, with the unit at `k`.
  pub humanize_val-eq :
      (g : Config) (value : d.Double) (k : ℕ) (unit : String)
      → k < 5
      → ((i : ℕ) → i < k → Large i value)
      → Small k value
      → get_elem? (prefix g.accumulated) k ≡ some unit
      → humanize_val d g value ≡ some (shrunk k value, unit)
  unfolding humanize_val
  humanize_val-eq g value k unit h large small at_k =
      let same : zero + k ≡ k = omega arith in
      rw (loop_stops 5 0 k value h large small, same, at_k) refl

  -- A value that is above 10000 after each of four divisions by 1000 takes its unit from behind the
  -- table of five.
  pub humanize_val_past :
      (g : Config) (value : d.Double)
      → ((i : ℕ) → i < 5 → Large i value)
      → humanize_val d g value ≡ none
  unfolding humanize_val
  humanize_val_past g value large = rw (loop_ends 5 0 value large, past g.accumulated) refl
    where
      past : (acc : Bool) → get_elem? (prefix acc) 5 ≡ none
      past true = refl
      past false = refl
