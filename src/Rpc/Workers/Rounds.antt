-- ===== src/Rpc/Workers/Rounds.antt =====
-- Runs of the main thread and the five workers: connections arrive and signalled workers call back,
-- in any order.
use lepd.Base.{
  ℕ, suc, ◌+◌, ◌%◌, ◌≤◌, ◌<◌, ◌≡◌, refl, sym, ◌∙◌, ap, Option, some, List, [], ◌∷◌, ◌++◌, All,
  arith, length, get_elem?, set, ◌>>=◌, subst, length-append, length-set, append_assoc, append-nil,
}
use lepd.Rpc.Workers.{
  WorkThread, Threads, NewConn, thread_init, int_max, hand_to, dispath_conn, async_cb,
}
use lepd.Rpc.Workers.Shares.{
  Serves, hand_to-Serves, other-Serves, async_cb-Serves, set_worker, five_workers,
}

pub data Event : Type 0 where
  arrive : NewConn → Event
  wake : ℕ → Event

unfoldable pub run : ℕ → ℕ → List Event → Threads → Option Threads
run fuel debug_level [] s = some s
run fuel debug_level (arrive n ∷ es) s = dispath_conn n s >>= run fuel debug_level es
run fuel debug_level (wake k ∷ es) s = get_elem? s.work_threads k >>= λ w.
    async_cb fuel debug_level w >>= λ w'.
    run fuel debug_level es (record s { work_threads = set s.work_threads k w' })

abbrev pub arrived : List Event → List NewConn
arrived [] = []
arrived (arrive n ∷ es) = n ∷ arrived es
arrived (wake k ∷ es) = arrived es

-- Only the five workers wake.
abbrev pub OfWorker : Event → Type 0
OfWorker (arrive n) = Unit {0}
OfWorker (wake k) = k < 5

pub record Runs (debug_level : ℕ) (s : Threads) (past : List NewConn) : Type 0 where
  pub counted : s.init_count ≡ 5
  pub size : length s.work_threads ≡ 5
  pub turn : s.round_robin ≡ length past
  pub worker :
      (k : ℕ)
      → k < 5
      → (w : WorkThread) × (get_elem? s.work_threads k ≡ some w) × Serves debug_level k w past

dispath_conn-eq :
    (s : Threads) (n : NewConn) (robin : ℕ) (w w' : WorkThread)
    → s.init_count ≡ 5
    → s.round_robin % 5 ≡ robin
    → get_elem? s.work_threads robin ≡ some w
    → hand_to n w ≡ some w'
    → s.round_robin < int_max
    → dispath_conn n s
      ≡ some
          (record s { work_threads = set s.work_threads robin w'; round_robin = suc s.round_robin })
unfolding dispath_conn
dispath_conn-eq s n robin w w' five turn here gives small =
    rw (five, turn, here, gives) (ground arith)

-- `dispath_conn` gives the connection to the worker whose turn it is, and to no other.
dispath_conn-Runs :
    (debug_level : ℕ) (s : Threads) (past : List NewConn) (n : NewConn)
    → Runs debug_level s past
    → length past < int_max
    → (s' : Threads) × (dispath_conn n s ≡ some s') × Runs debug_level s' (past ++ n ∷ [])
dispath_conn-Runs debug_level s past n v h =
    let (w, at_robin, serves) = v.worker (length past % 5) (omega arith) in
    let (w', gives, serves') = hand_to-Serves debug_level (length past % 5) w past n serves refl in
    (
      record s {
        work_threads = set s.work_threads (length past % 5) w';
        round_robin = suc s.round_robin;
      },
      dispath_conn-eq s n (length past % 5) w w' v.counted (ap (λ r. r % 5) v.turn) at_robin gives
          (omega (arith, v.turn)),
      record {
        counted = v.counted;
        size = length-set s.work_threads (length past % 5) w' ∙ v.size;
        turn = omega (arith, v.turn, length-append past (n ∷ []));
        worker =
            set_worker s.work_threads (length past % 5) w' (omega (arith, v.size)) serves'
              (λ k small other.
                let (x, at_k, old) = v.worker k small in
                (x, at_k, other-Serves debug_level k x past n old (λ e. other (sym e))));
      },
    )

-- A worker that calls back keeps its share.
pub wake-Runs :
    (debug_level fuel k : ℕ) (s : Threads) (past : List NewConn)
    → Runs debug_level s past
    → k < 5
    → length past < fuel
    → (w : WorkThread) × (w' : WorkThread) × (get_elem? s.work_threads k ≡ some w)
      × (async_cb fuel debug_level w ≡ some w')
      × Runs debug_level (record s { work_threads = set s.work_threads k w' }) past
wake-Runs debug_level fuel k s past v small h =
    let (w, at_k, serves) = v.worker k small in
    let (w', e, serves') = async_cb-Serves debug_level k fuel w past serves h in
    (
      w,
      w',
      at_k,
      e,
      record {
        counted = v.counted;
        size = length-set s.work_threads k w' ∙ v.size;
        turn = v.turn;
        worker =
            set_worker s.work_threads k w' (omega (arith, v.size)) serves'
              (λ j below other. v.worker j below);
      },
    )

length-arrived_one :
    (past : List NewConn) (n : NewConn) (ns : List NewConn)
    → length (past ++ n ∷ []) + length ns ≡ length past + suc (length ns)
length-arrived_one past n ns = omega (arith, length-append past (n ∷ []))

pub run-Runs :
    (fuel debug_level : ℕ) (es : List Event) (s : Threads) (past : List NewConn)
    → Runs debug_level s past
    → All OfWorker es
    → length past + length (arrived es) ≤ int_max
    → length past + length (arrived es) < fuel
    → (s' : Threads) × (run fuel debug_level es s ≡ some s')
      × Runs debug_level s' (past ++ arrived es)
unfolding run
run-Runs fuel debug_level [] s past v ok few enough =
    (s, refl, subst (Runs debug_level s) (sym (append-nil past)) v)
run-Runs fuel debug_level (arrive n ∷ es) s past v ok few enough =
    let (s', e, v') = dispath_conn-Runs debug_level s past n v (omega arith) in
    let one = length-arrived_one past n (arrived es) in
    let (s'', runs, ends) =
      run-Runs fuel debug_level es s' (past ++ n ∷ []) v' ok.1 (omega (arith, one))
        (omega (arith, one)) in
    (s'', rw e runs, subst (Runs debug_level s'') (append_assoc past (n ∷ []) (arrived es)) ends)
run-Runs fuel debug_level (wake k ∷ es) s past v ok few enough =
    let (w, w', at_k, e, v') = wake-Runs debug_level fuel k s past v ok.0 (omega arith) in
    let (s'', runs, ends) =
      run-Runs fuel debug_level es (record s { work_threads = set s.work_threads k w' }) past v'
        ok.1 few enough in
    (s'', rw (at_k, e) runs, ends)

-- From `thread_init` on, whatever the order of at most 2^31 - 1 hand-overs and of the callbacks of the
-- workers, no step meets a fault, and afterwards each worker watches every fifth connection, its
-- share by turn, in order of arrival and each once, but for those at the end that wait in its queue;
-- and a worker for which a connection waits has its signal pending.
pub run-thread_init :
    (fuel debug_level : ℕ) (es : List Event)
    → All OfWorker es
    → length (arrived es) ≤ int_max
    → length (arrived es) < fuel
    → (s : Threads) × (run fuel debug_level es thread_init ≡ some s)
      × Runs debug_level s (arrived es)
unfolding thread_init
run-thread_init fuel debug_level es ok few enough =
    run-Runs fuel debug_level es thread_init []
      (record { counted = refl; size = refl; turn = refl; worker = five_workers debug_level }) ok
      (omega arith) (omega arith)
