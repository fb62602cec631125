-- ===== src/Iotop/Diff.antt =====
-- What a difference of two samples counts.
use lepd.Base.{
  ℕ, ◌+◌, ◌-◌, ◌%◌, ◌^◌, ◌≤◌, ◌<◌, ◌≡◌, refl, none, some, List, [], ◌∷◌, arith, All, Option-cases,
  inl, inr, ◌⊎◌,
}
use lepd.Base.Doubles.{Doubles}
use lepd.Iotop.{Config, XxxidStats, rrv, xxx, findpid, new_task, task_diff, create_diff}

rrv_grew : (to from : ℕ) → from ≤ to → rrv to from + from ≡ to
unfolding rrv
rrv_grew to from h = ground arith

-- A 64-bit counter that did not fall differs by what was added to it. One that fell, as after 2^64, is
-- given the distance that it fell, less one, and not 2^64 less that distance.
pub rrv-eq :
    (to from : ℕ)
    → from < 2 ^ 64
    → (from ≤ to → rrv to from + from ≡ to) × (to < from → rrv to from + to + 1 ≡ from)
unfolding rrv
rrv-eq to from small = (rrv_grew to from, λ h. wrapped h)
  where
    wrapped : to < from → rrv to from + to + 1 ≡ from
    wrapped h =
        let e : (xxx - to + from) % 2 ^ 64 ≡ from - to - 1 = omega arith in ground (arith, e)

module _ (d : Doubles) where
  -- No counter of the task fell since the previous sample.
  pub record Grew (p c : XxxidStats d) : Type 0 where
    pub reads : p.read_bytes ≤ c.read_bytes
    pub writes : p.write_bytes ≤ c.write_bytes
    pub swapin : p.swapin_delay_total ≤ c.swapin_delay_total
    pub blkio : p.blkio_delay_total ≤ c.blkio_delay_total

  -- The entry counts what was added since the previous sample.
  pub record Adds (p c e : XxxidStats d) : Type 0 where
    pub same_task : e.tid ≡ c.tid
    pub reads : e.read_bytes + p.read_bytes ≡ c.read_bytes
    pub writes : e.write_bytes + p.write_bytes ≡ c.write_bytes
    pub swapin : e.swapin_delay_total + p.swapin_delay_total ≡ c.swapin_delay_total
    pub blkio : e.blkio_delay_total + p.blkio_delay_total ≡ c.blkio_delay_total

  -- The entry of a task that is new counts nothing.
  pub record Nothing (c e : XxxidStats d) : Type 0 where
    pub same_task : e.tid ≡ c.tid
    pub reads : e.read_bytes ≡ 0
    pub writes : e.write_bytes ≡ 0
    pub swapin : e.swapin_delay_total ≡ 0
    pub blkio : e.blkio_delay_total ≡ 0

  -- An entry for each task, in order.
  abbrev pub Accounts : List (XxxidStats d) → List (XxxidStats d) → List (XxxidStats d) → Type 0
  Accounts ps [] [] = Unit {0}
  Accounts ps [] (e ∷ es) = ⊥
  Accounts ps (c ∷ cs) [] = ⊥
  Accounts ps (c ∷ cs) (e ∷ es) =
      (((findpid d ps c.tid ≡ none) × Nothing c e)
        ⊎ ((p : XxxidStats d) × (findpid d ps c.tid ≡ some p) × Adds p c e))
      × Accounts ps cs es

  task_diff-Adds : (g : Config) (p c : XxxidStats d) → Grew p c → Adds p c (task_diff d g c p)
  unfolding task_diff
  task_diff-Adds g p c h = record {
    same_task = refl;
    reads = rrv_grew c.read_bytes p.read_bytes h.reads;
    writes = rrv_grew c.write_bytes p.write_bytes h.writes;
    swapin = rrv_grew c.swapin_delay_total p.swapin_delay_total h.swapin;
    blkio = rrv_grew c.blkio_delay_total p.blkio_delay_total h.blkio;
  }

  new_task-Nothing : (c : XxxidStats d) → Nothing c (new_task d c)
  unfolding new_task
  new_task-Nothing c = record {
    same_task = refl;
    reads = refl;
    writes = refl;
    swapin = refl;
    blkio = refl;
  }

  -- `create_diff` has one entry for each current task, in order: what was added to its four counters
  -- since the previous sample, if that has the task, and else zeros; provided that no counter fell.
  pub create_diff-Accounts :
      (g : Config) (cs ps : List (XxxidStats d))
      → All (λ c. (p : XxxidStats d) → findpid d ps c.tid ≡ some p → Grew p c) cs
      → Accounts ps cs (create_diff d g cs ps)
  unfolding create_diff
  create_diff-Accounts g [] ps h = tt
  create_diff-Accounts g (c ∷ cs) ps (grew, h) = elim (Option-cases (findpid d ps c.tid)) [
    | inl e ↦ rw e (inl (refl, new_task-Nothing c), create_diff-Accounts g cs ps h)
    | inr (p, e) ↦
        rw e (inr (p, refl, task_diff-Adds g p c (grew p e)), create_diff-Accounts g cs ps h)
  ]
