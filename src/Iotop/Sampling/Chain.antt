-- ===== src/Iotop/Sampling/Chain.antt =====
-- The chain that `fetch_data` links.
use lepd.Base.{
  ℕ, zero, suc, ◌<◌, ◌≡◌, refl, ap, Bool, true, false, not, Option, none, some, List, [], ◌∷◌, ◌++◌,
  if◌then◌else◌, ◌==◌, length, arith, inl, inr,
}
use lepd.Base.Doubles.{Doubles}
use lepd.Iotop.{XxxidStats}
use lepd.Iotop.Sampling.{
  Proc, Pidgen, Params, pidgen_next, make_stats, filter1, linked, fetch_loop, fetch_data,
}
use lepd.Iotop.Sampling.Numbers.{
  Positive, PositiveTask, ids, pending, Numbered, Gives, pidgen_next-Gives,
}

module _ (d : Doubles) (w : Proc (XxxidStats d)) (p : Params) where
  -- A task before the others, unless there was no reply or it is filtered out.
  abbrev pub link : Option (XxxidStats d) → List (XxxidStats d) → List (XxxidStats d)
  link none rest = rest
  link (some s) rest = if filter1 d p s then rest else s ∷ rest

  -- The tasks of these numbers, in order.
  abbrev pub tasks_of : List ℕ → List (XxxidStats d)
  tasks_of [] = []
  tasks_of (i ∷ is) = link (make_stats d w i) (tasks_of is)

  linked-append : (i : ℕ) (is : List ℕ) → linked d w p i ++ tasks_of is ≡ tasks_of (i ∷ is)
  unfolding linked
  linked-append i is = by_reply (make_stats d w i) (tasks_of is)
    where
      by_filter :
          (out : Bool) (s : XxxidStats d) (rest : List (XxxidStats d))
          → (if out then [] else s ∷ []) ++ rest ≡ (if out then rest else s ∷ rest)
      by_filter true s rest = refl
      by_filter false s rest = refl

      by_reply :
          (o : Option (XxxidStats d)) (rest : List (XxxidStats d))
          → elim o [ none ↦ [] | some s ↦ if filter1 d p s then [] else s ∷ [] ] ++ rest
            ≡ link o rest
      by_reply none rest = refl
      by_reply (some s) rest = by_filter (filter1 d p s) s rest

  module _ (positive : (pid : ℕ) → PositiveTask w (w.task pid)) where
    fetch_loop-tasks_of :
        (fuel : ℕ) (pg : Pidgen)
        → Numbered w pg
        → length (pending w pg) < fuel
        → fetch_loop d w fuel p pg ≡ some (tasks_of (pending w pg))
    unfolding fetch_loop Gives
    fetch_loop-tasks_of zero pg v h = absurd (omega arith)
    fetch_loop-tasks_of (suc fuel) pg v h = elim (pidgen_next-Gives w positive pg v) [
      | inl (e, z) ↦
          let ends : ((pidgen_next w pg).0 == 0) ≡ true = ground (arith, z) in rw (ends, e) refl
      | inr (e, z, v') ↦
          let goes_on : ((pidgen_next w pg).0 == 0) ≡ false = ground (arith, z) in
          let rest =
            fetch_loop-tasks_of fuel (pidgen_next w pg).1 v' (omega (arith, ap length e)) in
          rw (goes_on, rest, e)
            (ap some (linked-append (pidgen_next w pg).0 (pending w (pidgen_next w pg).1)))
    ]

    -- With more fuel than there are numbers, `fetch_data` ends, with the tasks of all processes, or
    -- of all tasks of each process, in the order of the directories, but for those that gave no reply
    -- or are filtered out; if no directory has a name that is the number 0.
    pub fetch_data-eq :
        (fuel : ℕ) (processes : Bool)
        → Positive w w.proc
        → length (ids w (not processes) w.proc) < fuel
        → fetch_data d w fuel p processes ≡ some (tasks_of (ids w (not processes) w.proc))
    unfolding fetch_data
    fetch_data-eq fuel processes at_proc h =
        fetch_loop-tasks_of fuel (record { proc = w.proc; task = none; tasks = not processes })
          (record { at_proc = at_proc; at_task = tt }) h
