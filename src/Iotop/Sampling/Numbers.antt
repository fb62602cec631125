-- ===== src/Iotop/Sampling/Numbers.antt =====
-- The numbers that `pidgen_next` gives, one at a time, from the directories of /proc.
use lepd.Base.{
  ℕ, ◌≡◌, ◌≢◌, ◌⊎◌, inl, inr, refl, ap, Bool, true, false, Option, none, some, List, [], ◌∷◌, ◌++◌,
  String, if◌then◌else◌, ◌==◌, All, arith, Bool-cases, Option-cases, subst,
}
use lepd.Iotop.Sampling.{Proc, Pidgen, next_pid, next_process, pidgen_next}

module _ {S : Type 0} (w : Proc S) where
  -- No name is the number 0: processes and tasks count from 1.
  abbrev pub Positive : List String → Type 0
  Positive = All (λ n. (w.strtol n).1 ≡ true → (w.strtol n).0 ≢ 0)

  -- The names that are numbers, in order.
  abbrev pub numbers : List String → List ℕ
  numbers [] = []
  numbers (n ∷ ns) = let rest = numbers ns in if (w.strtol n).1 then (w.strtol n).0 ∷ rest else rest

  abbrev pub task_numbers : Option (List String) → List ℕ
  task_numbers none = []
  task_numbers (some names) = numbers names

  -- The numbers of the processes, or of the tasks of each process, in order.
  abbrev pub ids : Bool → List String → List ℕ
  ids tasks [] = []
  ids tasks (n ∷ ns) =
      let rest = ids tasks ns in
      if (w.strtol n).1
      then (if tasks then task_numbers (w.task (w.strtol n).0) ++ rest else (w.strtol n).0 ∷ rest)
      else rest

  -- What is still to come.
  abbrev pub pending : Pidgen → List ℕ
  pending pg = task_numbers pg.task ++ ids pg.tasks pg.proc

  abbrev pub PositiveTask : Option (List String) → Type 0
  PositiveTask none = Unit {0}
  PositiveTask (some names) = Positive names

  pub record Numbered (pg : Pidgen) : Type 0 where
    pub at_proc : Positive pg.proc
    pub at_task : PositiveTask pg.task

  -- A read of a directory gives its next number, and 0 at the end.
  Reads : List String → Type 0
  Reads ns =
      ((numbers ns ≡ []) × ((next_pid w ns).0 ≡ 0))
      ⊎ ((numbers ns ≡ (next_pid w ns).0 ∷ numbers (next_pid w ns).1)
          × ((next_pid w ns).0 ≢ 0)
          × Positive (next_pid w ns).1)

  next_pid-Reads : (ns : List String) → Positive ns → Reads ns
  unfolding next_pid Reads
  next_pid-Reads [] h = inl (refl, refl)
  next_pid-Reads (n ∷ ns) (h, hs) = elim (Bool-cases (w.strtol n).1) [
    | inl e ↦ rw e (inr (refl, h e, hs))
    | inr e ↦ rw e (next_pid-Reads ns hs)
  ]

  -- A step gives the next of the numbers that are still to come, and 0 at the end.
  unfoldable pub Gives : List ℕ → ℕ × Pidgen → Type 0
  Gives all r = ((all ≡ []) × (r.0 ≡ 0)) ⊎ ((all ≡ r.0 ∷ pending r.1) × (r.0 ≢ 0) × Numbered r.1)

  module _ (positive : (pid : ℕ) → PositiveTask (w.task pid)) where
    enter :
        (tasks : Bool) (ns : List String) (names : List String) (rest : ℕ × Pidgen)
        → Positive ns
        → Positive names
        → Gives (ids tasks ns) rest
        → Gives (numbers names ++ ids tasks ns) (
            if (next_pid w names).0 == 0 then rest else (
              (next_pid w names).0,
              record { proc = ns; task = some (next_pid w names).1; tasks = tasks },
            ))
    unfolding Gives Reads
    enter tasks ns names rest h k g = elim (next_pid-Reads names k) [
      | inl (e, z) ↦
          let zero_id : ((next_pid w names).0 == 0) ≡ true = ground (arith, z) in rw (e, zero_id) g
      | inr (e, z, more) ↦
          let some_id : ((next_pid w names).0 == 0) ≡ false = ground (arith, z) in
          rw some_id (
            inr
              (ap (λ (l : List ℕ). l ++ ids tasks ns) e, z, record { at_proc = h; at_task = more }))
    ]

    next_process-Gives :
        (tasks : Bool) (ns : List String)
        → Positive ns
        → Gives (ids tasks ns) (next_process w tasks ns)
    unfolding next_process Gives
    next_process-Gives tasks [] h = inl (refl, refl)
    next_process-Gives true (n ∷ ns) (h, hs) = elim (Bool-cases (w.strtol n).1) [
      | inr e ↦ rw e (next_process-Gives true ns hs)
      | inl e ↦
          let counts : ((w.strtol n).0 == 0) ≡ false = ground (arith, h e) in
          rw (e, counts)
            (elim (Option-cases (w.task (w.strtol n).0)) [
              | inl closed ↦ rw closed (next_process-Gives true ns hs)
              | inr (names, opened) ↦ rw opened (
                  enter true ns names (next_process w true ns) hs
                    (subst PositiveTask opened (positive (w.strtol n).0))
                    (next_process-Gives true ns hs))
            ])
    ]
    next_process-Gives false (n ∷ ns) (h, hs) = elim (Bool-cases (w.strtol n).1) [
      | inr e ↦ rw e (next_process-Gives false ns hs)
      | inl e ↦
          let counts : ((w.strtol n).0 == 0) ≡ false = ground (arith, h e) in
          rw (e, counts) (inr (refl, h e, record { at_proc = hs; at_task = tt }))
    ]

    -- `pidgen_next` gives the numbers to come, one at a time, and then 0.
    pub pidgen_next-Gives : (pg : Pidgen) → Numbered pg → Gives (pending pg) (pidgen_next w pg)
    unfolding pidgen_next
    pidgen_next-Gives pg v = by_task pg.task v.at_task
      where
        by_task :
            (t : Option (List String))
            → PositiveTask t
            → Gives
                (task_numbers t ++ ids pg.tasks pg.proc)
                (pidgen_next w (record pg { task = t }))
        by_task none k = next_process-Gives pg.tasks pg.proc v.at_proc
        by_task (some names) k =
            enter pg.tasks pg.proc names (next_process w pg.tasks pg.proc) v.at_proc k
              (next_process-Gives pg.tasks pg.proc v.at_proc)
