-- ===== src/Sysstat/Stat/Read.antt =====
-- What `read_stat_cpu` finds in /proc/stat: the counters of all and of each processor that is online.
use lepd.Base.{
  ℕ, zero, suc, ◌-◌, ◌≤◌, ◌<◌, ◌≡◌, refl, ap, ◌∙◌, true, false, Option, none, some, List, [], ◌∷◌,
  ◌==◌, ltb, if◌then◌else◌, ◌>>=◌, length, set, get_elem?, get_elem?-replicate, drop, replicate,
  arith, length-set, length-replicate, Bool-cases, inl, inr,
}
use lepd.Base.CString.{bytes, begins_with}
use lepd.Sysstat.Cpu.{StatsCpu, no_stats, jiffies}
use lepd.Sysstat.Stat.{
  Sample, Sscanf, of_fields, blank, store_all, store_cpu, read_line, read_lines, read_stat_cpu,
}

module _ (numbers : Sscanf) where
  -- The line of all processors, with its numbers.
  abbrev pub IsTotal : List ℕ → List ℕ → Type 0
  IsTotal line fields =
      (begins_with (bytes "cpu ") line ≡ true) × (numbers 10 (drop 5 line) ≡ fields)

  -- The line of one processor, with its number and its counters, or a line of something else.
  abbrev pub IsOther : List ℕ → Option (ℕ × List ℕ) → Type 0
  IsOther line (some (n, fields)) =
      (begins_with (bytes "cpu ") line ≡ false)
      × (begins_with (bytes "cpu") line ≡ true)
      × (numbers 11 (drop 3 line) ≡ n ∷ fields)
  IsOther line none =
      (begins_with (bytes "cpu ") line ≡ false) × (begins_with (bytes "cpu") line ≡ false)

  abbrev pub AreOther : List (List ℕ) → List (Option (ℕ × List ℕ)) → Type 0
  AreOther [] [] = Unit {0}
  AreOther [] (o ∷ os) = ⊥
  AreOther (line ∷ lines) [] = ⊥
  AreOther (line ∷ lines) (o ∷ os) = IsOther line o × AreOther lines os

  -- The counters of processor `i` by the last of its lines; those given if it has none.
  abbrev pub counters_of : ℕ → List (Option (ℕ × List ℕ)) → StatsCpu → StatsCpu
  counters_of i [] c = c
  counters_of i (none ∷ os) c = counters_of i os c
  counters_of i (some (n, fields) ∷ os) c =
      counters_of i os (if n == i then of_fields fields else c)

  stored : List (Option (ℕ × List ℕ)) → List StatsCpu → List StatsCpu
  stored [] cs = cs
  stored (none ∷ os) cs = stored os cs
  stored (some (n, fields) ∷ os) cs = stored os (set cs n (of_fields fields))

  length-stored :
      (os : List (Option (ℕ × List ℕ))) (cs : List StatsCpu) → length (stored os cs) ≡ length cs
  unfolding stored
  length-stored [] cs = refl
  length-stored (none ∷ os) cs = length-stored os cs
  length-stored (some (n, fields) ∷ os) cs =
      length-stored os (set cs n (of_fields fields)) ∙ length-set cs n (of_fields fields)

  get_elem?-set :
      (cs : List StatsCpu) (n i : ℕ) (v c : StatsCpu)
      → get_elem? cs i ≡ some c
      → get_elem? (set cs n v) i ≡ some (if n == i then v else c)
  get_elem?-set [] n i v c h = cc
  get_elem?-set (x ∷ cs) zero zero v c h = refl
  get_elem?-set (x ∷ cs) zero (suc i) v c h = ground arith
  get_elem?-set (x ∷ cs) (suc n) zero v c h = ground arith
  get_elem?-set (x ∷ cs) (suc n) (suc i) v c h = get_elem?-set cs n i v c h ∙ ground arith

  get_elem?-stored :
      (os : List (Option (ℕ × List ℕ))) (cs : List StatsCpu) (i : ℕ) (c : StatsCpu)
      → get_elem? cs i ≡ some c
      → get_elem? (stored os cs) i ≡ some (counters_of i os c)
  unfolding stored
  get_elem?-stored [] cs i c h = h
  get_elem?-stored (none ∷ os) cs i c h = get_elem?-stored os cs i c h
  get_elem?-stored (some (n, fields) ∷ os) cs i c h =
      get_elem?-stored os (set cs n (of_fields fields)) i (if n == i then of_fields fields else c)
        (get_elem?-set cs n i (of_fields fields) c h)

  set_past : (cs : List StatsCpu) (n : ℕ) (v : StatsCpu) → length cs ≤ n → set cs n v ≡ cs
  set_past [] n v h = refl
  set_past (x ∷ cs) zero v h = absurd (omega arith)
  set_past (x ∷ cs) (suc n) v h = ap (◌∷◌ x) (set_past cs n v (omega arith))

  store_cpu-set :
      (cpu_nr n : ℕ) (fields : List ℕ) (p : StatsCpu) (cs : List StatsCpu) (u : ℕ)
      → length cs ≡ cpu_nr
      → store_cpu (suc cpu_nr) (n ∷ fields) (record { cpus = p ∷ cs; uptime = u })
        ≡ some (record { cpus = p ∷ set cs n (of_fields fields); uptime = u })
  unfolding store_cpu
  store_cpu-set cpu_nr n fields p cs u e = elim (Bool-cases (ltb n (suc cpu_nr - 1))) [
    | inl room ↦ rw room refl
    | inr full ↦ rw (full, set_past cs n (of_fields fields) (ground arith)) refl
  ]

  read_lines-stored :
      (cpu_nr : ℕ) (lines : List (List ℕ)) (os : List (Option (ℕ × List ℕ))) (p : StatsCpu)
      (cs : List StatsCpu) (u : ℕ)
      → AreOther lines os
      → 0 < cpu_nr
      → length cs ≡ cpu_nr
      → read_lines numbers (suc cpu_nr) lines (record { cpus = p ∷ cs; uptime = u })
        ≡ some (record { cpus = p ∷ stored os cs; uptime = u })
  unfolding read_lines read_line stored
  read_lines-stored cpu_nr [] [] p cs u is some_cpu e = refl
  read_lines-stored cpu_nr [] (o ∷ os) p cs u is some_cpu e = elim is [ ]
  read_lines-stored cpu_nr (line ∷ lines) [] p cs u is some_cpu e = elim is [ ]
  read_lines-stored cpu_nr (line ∷ lines) (none ∷ os) p cs u ((a, b), rest) some_cpu e =
      rw (a, b) (read_lines-stored cpu_nr lines os p cs u rest some_cpu e)
  read_lines-stored cpu_nr (line ∷ lines) (some (n, fields) ∷ os) p cs u ((a, b, c), rest) some_cpu
        e =
      let many : ltb 1 (suc cpu_nr) ≡ true = ground arith in
      rw (a, b, many, c)
        (ap (λ (m : Option Sample). m >>= λ s'. read_lines numbers (suc cpu_nr) lines s')
            (store_cpu-set cpu_nr n fields p cs u e)
          ∙ read_lines-stored cpu_nr lines os p (set cs n (of_fields fields)) u rest some_cpu
              (length-set cs n (of_fields fields) ∙ e))

  -- With at least one processor, a file that starts with the line of all processors, behind which
  -- stand lines of one processor and lines of something else, gives the counters of all, their sum
  -- as the uptime, and for each processor below the number of processors the counters of its last
  -- line, or zeros if it has no line.
  pub read_stat_cpu-counters :
      (cpu_nr stale : ℕ) (line : List ℕ) (lines : List (List ℕ)) (fields : List ℕ)
      (os : List (Option (ℕ × List ℕ)))
      → 0 < cpu_nr
      → IsTotal line fields
      → AreOther lines os
      → (cs : List StatsCpu) × (read_stat_cpu numbers
            (suc cpu_nr)
            (some (line ∷ lines))
            (blank cpu_nr stale)
          ≡ some (record { cpus = of_fields fields ∷ cs; uptime = jiffies (of_fields fields) }))
        × (length cs ≡ cpu_nr)
        × ((i : ℕ) → i < cpu_nr → get_elem? cs i ≡ some (counters_of i os no_stats))
  unfolding read_stat_cpu read_lines read_line store_all blank
  read_stat_cpu-counters cpu_nr stale line lines fields os some_cpu (a, b) others =
      let zeros = replicate cpu_nr no_stats in
      (
        stored os zeros,
        rw (a, b)
            (read_lines-stored cpu_nr lines os (of_fields fields) zeros (jiffies (of_fields fields))
              others some_cpu (length-replicate cpu_nr no_stats)),
        length-stored os zeros ∙ length-replicate cpu_nr no_stats,
        λ i h. get_elem?-stored os zeros i no_stats (get_elem?-replicate cpu_nr i no_stats h),
      )
