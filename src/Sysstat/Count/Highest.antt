-- ===== src/Sysstat/Count/Highest.antt =====
-- With `highest`, the count of the processors is one more than the highest number of a processor.
use lepd.Base.{
  ℕ, suc, ◌≤◌, ◌<◌, ◌≡◌, ◌⊎◌, inl, inr, refl, true, false, some, List, [], ◌∷◌, ltb, if◌then◌else◌,
  drop, arith, Bool-cases,
}
use lepd.Sysstat.Stat.{Sscanf}
use lepd.Sysstat.Count.{Entry, is_cpu, raised, count_entries, get_sys_cpu_nr}

module _ (numbers : Sscanf) where
  -- Every directory of a processor has its number.
  abbrev pub Numbered : List Entry → List ℕ → Type 0
  Numbered [] ns = ns ≡ []
  Numbered (e ∷ es) ns =
      ((is_cpu e ≡ false) × Numbered es ns)
      ⊎ ((n : ℕ) × (ms : List ℕ) × (is_cpu e ≡ true)
          × (numbers 1 (drop 3 e.d_name) ≡ n ∷ [])
          × (ns ≡ n ∷ ms)
          × Numbered es ms)

  -- The bound above all of a list that is reached by one of them, or 0 if there is none.
  abbrev pub highest_of : List ℕ → ℕ → ℕ
  highest_of [] next = next
  highest_of (n ∷ ns) next = highest_of ns (if ltb next (suc n) then suc n else next)

  count_entries-highest :
      (es : List Entry) (ns : List ℕ) (next : ℕ)
      → Numbered es ns
      → count_entries numbers true es next ≡ some (highest_of ns next)
  unfolding count_entries raised
  count_entries-highest [] ns next h = rw h refl
  count_entries-highest (e ∷ es) ns next (inl (off, h)) =
      rw off (count_entries-highest es ns next h)
  count_entries-highest (e ∷ es) ns next (inr (n, ms, on, is, e', h)) =
      rw (on, is, e') (count_entries-highest es ms (if ltb next (suc n) then suc n else next) h)

  -- `n` stands in the list.
  abbrev pub In : ℕ → List ℕ → Type 0
  In n [] = ⊥
  In n (m ∷ ms) = (n ≡ m) ⊎ In n ms

  highest_ge : (ns : List ℕ) (next : ℕ) → next ≤ highest_of ns next
  highest_ge [] next = omega arith
  highest_ge (n ∷ ns) next =
      ground (arith, highest_ge ns (if ltb next (suc n) then suc n else next))

  highest_above : (ns : List ℕ) (next m : ℕ) → In m ns → m < highest_of ns next
  highest_above [] next m h = elim h [ ]
  highest_above (n ∷ ns) next m (inl e) =
      ground (arith, highest_ge ns (if ltb next (suc n) then suc n else next))
  highest_above (n ∷ ns) next m (inr h) =
      highest_above ns (if ltb next (suc n) then suc n else next) m h

  highest_reached :
      (ns : List ℕ) (next : ℕ)
      → (highest_of ns next ≡ next) ⊎ ((m : ℕ) × In m ns × (highest_of ns next ≡ suc m))
  highest_reached [] next = inl refl
  highest_reached (n ∷ ns) next = elim (Bool-cases (ltb next (suc n))) [
    | inl more ↦ rw more (elim (highest_reached ns (suc n)) [
      | inl e ↦ inr (n, inl refl, e)
      | inr (m, i, e) ↦ inr (m, inr i, e)
    ])
    | inr less ↦
        rw less
          (elim (highest_reached ns next) [ inl e ↦ inl e | inr (m, i, e) ↦ inr (m, inr i, e) ])
  ]

  -- If every directory of a processor has a number, `get_sys_cpu_nr` of the highest number returns a
  -- number above each of these, which is 0 or one more than one of these.
  pub get_sys_cpu_nr-highest :
      (es : List Entry) (ns : List ℕ)
      → Numbered es ns
      → (k : ℕ) × (get_sys_cpu_nr numbers true (some es) ≡ some k)
        × ((m : ℕ) → In m ns → m < k)
        × ((k ≡ 0) ⊎ ((m : ℕ) × In m ns × (k ≡ suc m)))
  unfolding get_sys_cpu_nr
  get_sys_cpu_nr-highest es ns h =
      (highest_of ns 0, count_entries-highest es ns 0 h, highest_above ns 0, highest_reached ns 0)
