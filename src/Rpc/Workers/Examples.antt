-- ===== src/Rpc/Workers/Examples.antt =====
-- Connections that arrive between the callbacks of the workers.
use lepd.Base.{ℕ, zero, suc, refl, ◌≡◌, some, List, [], ◌∷◌, ◌++◌, ◌<◌, map, inl, inr, arith}
use lepd.Base.Int.{ℤ}
use lepd.Rpc.Workers.{Threads, NewConn, thread_init}
use lepd.Rpc.Workers.Settling.{Among, Settled, run_settles}
use lepd.Rpc.Workers.Rounds.{Event, arrive, wake, run, arrived, Runs, run-thread_init}

abbrev conn : ℕ → NewConn
conn fd = record { newfd = ℤ.pos fd; sz_addr = "10.0.0.1"; port = 4000; data_ptr = 1 }

abbrev events : List Event
events =
    arrive (conn 10)
    ∷ arrive (conn 11)
    ∷ wake 0
    ∷ arrive (conn 12)
    ∷ arrive (conn 13)
    ∷ arrive (conn 14)
    ∷ arrive (conn 15)
    ∷ wake 1
    ∷ wake 0
    ∷ arrive (conn 16)
    ∷ []

run-thread_init_example :
    (s : Threads) × (run 8 0 events thread_init ≡ some s) × Runs 0 s (arrived events)
run-thread_init_example =
    run-thread_init 8 0 events
      (tt, (tt, (omega arith, (tt, (tt, (tt, (tt, (omega arith, (omega arith, (tt, tt))))))))))
      (omega arith) (omega arith)

among : (k : ℕ) → k < 5 → Among k (4 ∷ 0 ∷ 3 ∷ 1 ∷ 2 ∷ [])
among zero h = inr (inl refl)
among (suc zero) h = inr (inr (inr (inl refl)))
among (suc (suc zero)) h = inr (inr (inr (inr (inl refl))))
among (suc (suc (suc zero))) h = inr (inr (inl refl))
among (suc (suc (suc (suc zero)))) h = inl refl
among (suc (suc (suc (suc (suc k))))) h = absurd (omega arith)

run_settles_example :
    (s : Threads) × (run 8 0 (events ++ map wake (4 ∷ 0 ∷ 3 ∷ 1 ∷ 2 ∷ [])) thread_init ≡ some s)
    × ((k : ℕ) → k < 5 → Settled 0 k s (arrived events))
run_settles_example =
    run_settles 8 0 events (4 ∷ 0 ∷ 3 ∷ 1 ∷ 2 ∷ [])
      (tt, (tt, (omega arith, (tt, (tt, (tt, (tt, (omega arith, (omega arith, (tt, tt))))))))))
      (omega arith) (omega arith)
      (omega arith, (omega arith, (omega arith, (omega arith, (omega arith, tt))))) among
