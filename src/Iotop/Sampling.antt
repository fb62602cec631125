-- ===== src/Iotop/Sampling.antt =====
-- A sample of the tasks: src/modules/iotop/src/xxxid_info.c (`make_stats`, `fetch_data`) over the
-- numbers that `pidgen` of src/modules/iotop/src/utils.c finds, and the filter and the loop of
-- src/modules/iotop/src/main.c. The directories of /proc, the replies of netlink and the command lines
-- are a record `Proc`, an argument.
pub mod Numbers
pub mod Chain
pub mod Loop
mod Examples
use lepd.Base.{
  ℕ, zero, suc, ◌+◌, ◌-◌, Bool, true, false, not, ◌&&◌, ◌||◌, Option, none, some, List, [], ◌∷◌,
  ◌++◌, String, if◌then◌else◌, ◌>>=◌, ◌==◌, ltb,
}
use lepd.Base.Int.{ℤ, pos, negsuc, eq_ℤ}
use lepd.Base.Doubles.{Doubles}
use lepd.Iotop.{Config, XxxidStats}

-- `strtol` gives the number at the start of a name, and whether the name ends behind it. A directory
-- that does not open is `none`; so is a reply that is an error, and a command line that is not read.
pub record Proc (S : Type 0) : Type 0 where
  pub strtol : String → ℕ × Bool
  pub proc : List String
  pub task : ℕ → Option (List String)
  pub nl_xxxid_info : ℕ → Option S
  pub read_cmdline2 : ℕ → Option String

-- The directories, from the next entry on, and whether the tasks are wanted.
pub record Pidgen : Type 0 where
  pub proc : List String
  pub task : Option (List String)
  pub tasks : Bool

module _ {S : Type 0} (w : Proc S) where
  -- The number in the next name that is one, and the entries behind it; 0 at the end.
  unfoldable pub next_pid : List String → ℕ × List String
  next_pid [] = (0, [])
  next_pid (n ∷ ns) =
      let rest = next_pid ns in if (w.strtol n).1 then ((w.strtol n).0, ns) else rest

  -- `pidgen_next` at /proc: a process whose tasks are wanted is entered, and left if it has none.
  unfoldable pub next_process : Bool → List String → ℕ × Pidgen
  unfolding next_pid
  next_process tasks [] = (0, record { proc = []; task = none; tasks = tasks })
  next_process tasks (n ∷ ns) =
      let rest = next_process tasks ns in
      let (pid, ends) = w.strtol n in
      if not ends
      then rest
      else (if (pid == 0) || not tasks
          then (pid, record { proc = ns; task = none; tasks = tasks })
          else elim (w.task pid) [
            | none ↦ rest
            | some names ↦
                let (tid, others) = next_pid names in
                if tid == 0
                then rest
                else (tid, record { proc = ns; task = some others; tasks = tasks })
          ])

  unfoldable pub pidgen_next : Pidgen → ℕ × Pidgen
  unfolding next_pid next_process
  pidgen_next pg = elim pg.task [
    | none ↦ next_process pg.tasks pg.proc
    | some names ↦
        let (tid, others) = next_pid names in
        if tid == 0 then next_process pg.tasks pg.proc else (tid, record pg { task = some others })
  ]

-- `params` as far as `filter1` reads it; -1 stands for all.
pub record Params : Type 0 where
  pub pid : ℤ
  pub user_id : ℤ

abbrev pub init_params : Params
init_params = record { pid = negsuc 0; user_id = negsuc 0 }

module _ (d : Doubles) where
  -- The task is left out.
  unfoldable pub filter1 : Params → XxxidStats d → Bool
  filter1 p s =
      (not (eq_ℤ p.user_id (negsuc 0)) && not (eq_ℤ s.euid p.user_id))
      || (not (eq_ℤ p.pid (negsuc 0)) && not (eq_ℤ s.tid p.pid))

  module _ (w : Proc (XxxidStats d)) where
    unfoldable pub make_stats : ℕ → Option (XxxidStats d)
    make_stats pid = w.nl_xxxid_info pid >>= λ s. some (record s {
      tid = pos pid;
      cmdline = elim (w.read_cmdline2 pid) [ none ↦ "<unknown>" | some c ↦ c ];
    })

    -- The tasks that the loop of `fetch_data` links behind the chain for one number.
    unfoldable pub linked : Params → ℕ → List (XxxidStats d)
    unfolding make_stats filter1
    linked p pid = elim (make_stats pid) [ none ↦ [] | some s ↦ if filter1 p s then [] else s ∷ [] ]

    -- The loop of `fetch_data`, on fuel.
    unfoldable pub fetch_loop : ℕ → Params → Pidgen → Option (List (XxxidStats d))
    unfolding pidgen_next linked
    fetch_loop zero p pg = none
    fetch_loop (suc fuel) p pg =
        let (pid, pg') = pidgen_next w pg in
        let rest = fetch_loop fuel p pg' in
        if pid == 0 then some [] else (rest >>= λ chain. some (linked p pid ++ chain))

    unfoldable pub fetch_data : ℕ → Params → Bool → Option (List (XxxidStats d))
    unfolding fetch_loop
    fetch_data fuel p processes =
        fetch_loop fuel p (record { proc = w.proc; task = none; tasks = not processes })
