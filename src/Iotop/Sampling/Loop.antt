-- ===== src/Iotop/Sampling/Loop.antt =====
-- The loop of `iotop_main`: a sample, a view of it against the one before, and a sleep, twice.
use lepd.Base.{
  ℕ, ◌-◌, ◌<◌, ◌≡◌, refl, Bool, true, false, Option, none, some, List, [], ◌∷◌, String,
  if◌then◌else◌, ◌>>=◌, ◌==◌, length,
}
use lepd.Base.Doubles.{Doubles}
use lepd.Iotop.{Config, XxxidStats}
use lepd.Iotop.View.{Display, Row, view_batch}
use lepd.Iotop.Sampling.{Proc, init_params, fetch_data}
use lepd.Iotop.Sampling.Numbers.{Positive, PositiveTask, ids}
use lepd.Iotop.Sampling.Chain.{tasks_of}

-- What `memset` and `init_params` leave: the loop of `parse_args` never runs.
abbrev pub init_config : Config
init_config = record { only = false; accumulated = false; kilobytes = false; delay = 1 }

abbrev pub init_iter : ℕ
init_iter = 2

-- The system at one round: what the sample finds, and what the view of it meets, and whether the
-- sleep behind it is cut short.
pub record Moment (S : Type 0) : Type 0 where
  pub found : Proc S
  pub display : Display
  pub cut_short : Bool

module _ (d : Doubles) where
  abbrev pub Printed : Type 0
  Printed = Option (((d.Double × String) × (d.Double × String)) × List (Row d))

  -- What the views of the rounds print; `none` is a fault, or a sample that ran out of fuel.
  unfoldable pub iotop_loop :
      ℕ → List (Moment (XxxidStats d)) → List (XxxidStats d) → ℕ → Option (List Printed)
  iotop_loop fuel [] ps iter = none
  iotop_loop fuel (m ∷ ms) ps iter = fetch_data d m.found fuel init_params false >>= λ cs.
      view_batch d m.display init_config cs ps iter >>= λ printed.
      if (iter - 1 == 0)
      then some (printed ∷ [])
      else (if m.cut_short
          then some (printed ∷ [])
          else iotop_loop fuel ms cs (iter - 1) >>= λ rest. some (printed ∷ rest))

  unfoldable pub iotop_main : ℕ → List (Moment (XxxidStats d)) → Option (List Printed)
  unfolding iotop_loop
  iotop_main fuel ms = iotop_loop fuel ms [] init_iter

  -- The tasks that a sample finds at a moment.
  abbrev pub sample : Moment (XxxidStats d) → List (XxxidStats d)
  sample m = tasks_of d m.found init_params (ids m.found true m.found.proc)

  -- No directory has a name that is the number 0, and the fuel is above the number of tasks.
  pub record Samples (fuel : ℕ) (m : Moment (XxxidStats d)) : Type 0 where
    pub at_proc : Positive m.found m.found.proc
    pub at_tasks : (pid : ℕ) → PositiveTask m.found (m.found.task pid)
    pub enough : length (ids m.found true m.found.proc) < fuel

  behind :
      (o : Option Printed)
      → ((o >>= λ printed. some (printed ∷ [])) >>= λ (rest : List Printed). some (none ∷ rest))
        ≡ (o >>= λ printed. some (none ∷ printed ∷ []))
  behind none = refl
  behind (some printed) = refl
