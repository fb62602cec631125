-- ===== src/Cgtop/Main/Listed.antt =====
-- `display` shows the groups that have processes, in the order in which they were inserted.
use mathlib.Core.List.{reverse-reverse}
use lepd.Base.{
  ◌≡◌, refl, List, [], ◌∷◌, ◌++◌, ◌==◌, if◌then◌else◌, map, reverse, ap, ◌∙◌, append-nil,
  Bool-cases, inl, inr,
}
use lepd.Base.Doubles.{Doubles}
use lepd.Cgtop.Usage.{Cgroup}
use lepd.Cgtop.Main.{Shown, row_of, show_from, display}

module _ (d : Doubles) where
  unfoldable pub busy : List (Cgroup d) → List (Cgroup d)
  busy [] = []
  busy (g ∷ gs) = let rest = busy gs in if g.tasks == 0 then rest else g ∷ rest

  abbrev pub shown : List (Cgroup d) → Shown d
  shown gs = record { on_stdout = map (λ g. (g.path, g.tasks)) gs; on_out_fp = map (row_of d) gs }

  show_from-shown : (gs : List (Cgroup d)) → show_from d gs ≡ shown (busy gs)
  unfolding show_from busy
  show_from-shown [] = refl
  show_from-shown (g ∷ gs) = elim (Bool-cases (g.tasks == 0)) [
    | inl idle ↦ rw idle (show_from-shown gs)
    | inr some_task ↦ rw (some_task, show_from-shown gs) refl
  ]

  -- Of groups that are inserted one by one `display` shows those that have a process, in the order of
  -- their insertion: the path and the number of processes on the standard output, and the other
  -- columns on the output of the command.
  pub display-shown : (gs : List (Cgroup d)) → display d (reverse gs ++ []) ≡ shown (busy gs)
  unfolding display
  display-shown gs =
      ap (λ (l : List (Cgroup d)). show_from d (reverse l)) (append-nil (reverse gs))
      ∙ ap (show_from d) (reverse-reverse gs)
      ∙ show_from-shown gs
