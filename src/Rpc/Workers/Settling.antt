-- ===== src/Rpc/Workers/Settling.antt =====
-- When every worker calls back after the last hand-over, no connection waits any more.
use mathlib.Core.Option.{some-injective}
use lepd.Base.{
  ℕ, ◌≤◌, ◌<◌, ◌≡◌, ◌⊎◌, inl, inr, refl, sym, ◌∙◌, some, List, [], ◌∷◌, ◌++◌, All, map, arith,
  length, get_elem?, set, ◌==◌, ◌>>=◌, subst, Bool-cases, Option-cases,
}
use lepd.Rpc.Workers.{WorkThread, Threads, NewConn, thread_init, int_max, dispath_conn, async_cb}
use lepd.Rpc.Workers.Worker.{Awaits, async_cb-Awaits, watched}
use lepd.Rpc.Workers.Turns.{share, get-set_same, get-set_other}
use lepd.Rpc.Workers.Shares.{Serves}
use lepd.Rpc.Workers.Rounds.{
  Event, arrive, wake, run, arrived, OfWorker, Runs, run-thread_init, wake-Runs,
}

abbrev pub Among : ℕ → List ℕ → Type 0
Among k [] = ⊥
Among k (j ∷ ks) = (k ≡ j) ⊎ Among k ks

-- The worker watches its whole share of the connections, and nothing waits in its queue.
pub record Watches (debug_level k : ℕ) (w : WorkThread) (past : List NewConn) : Type 0 where
  pub awaits : Awaits w []
  pub whole : w.watchers ≡ watched debug_level (share k 0 past)

abbrev pub Settled : ℕ → ℕ → Threads → List NewConn → Type 0
Settled debug_level k s past =
    (w : WorkThread) × (get_elem? s.work_threads k ≡ some w) × Watches debug_level k w past

callback-Watches :
    (debug_level k fuel : ℕ) (w w' : WorkThread) (past : List NewConn)
    → Serves debug_level k w past
    → length past < fuel
    → async_cb fuel debug_level w ≡ some w'
    → Watches debug_level k w' past
callback-Watches debug_level k fuel w w' past v h e =
    let (x, ex, awaits, seen, quiet) =
      async_cb-Awaits debug_level fuel v.waiting w v.awaits (omega (arith, v.few)) in
    let same : x ≡ w' = some-injective x w' (sym ex ∙ e) in
    subst (λ y. Watches debug_level k y past) same
      (record { awaits = awaits; whole = seen ∙ v.served })

-- The worker that calls back is settled, and a settled worker stays so.
after_wake :
    (fuel debug_level j : ℕ) (w w' : WorkThread) (s : Threads) (past : List NewConn)
    → Runs debug_level s past
    → j < 5
    → length past < fuel
    → get_elem? s.work_threads j ≡ some w
    → async_cb fuel debug_level w ≡ some w'
    → (k : ℕ) → (Settled debug_level k s past ⊎ (k ≡ j))
    → Settled debug_level k (record s { work_threads = set s.work_threads j w' }) past
after_wake fuel debug_level j w w' s past v small enough at_j e k h =
    let (x, at_x, serves) = v.worker j small in
    let same : x ≡ w = some-injective x w (sym at_x ∙ at_j) in
    let s1 : Threads = record s { work_threads = set s.work_threads j w' } in
    let here : Settled debug_level j s1 past = (
      w',
      get-set_same s.work_threads j w' (omega (arith, v.size)),
      callback-Watches debug_level j fuel w w' past
          (subst (λ y. Serves debug_level j y past) same serves) enough e,
    ) in
    let there : (k ≡ j) → Settled debug_level k s1 past =
      λ is. subst (λ i. Settled debug_level i s1 past) (sym is) here in
    elim h [
      | inr is ↦ there is
      | inl (y, at_y, watches) ↦ elim (Bool-cases (k == j)) [
        | inl is ↦ there (ground (arith, is))
        | inr other ↦
            (y, get-set_other s.work_threads j k w' (ground (arith, other)) ∙ at_y, watches)
      ]
    ]

-- A run of callbacks settles the workers that call back, and leaves the others settled.
settle :
    (fuel debug_level : ℕ) (ks : List ℕ) (s : Threads) (past : List NewConn)
    → Runs debug_level s past
    → All (λ k. k < 5) ks
    → length past < fuel
    → (s' : Threads) × (run fuel debug_level (map wake ks) s ≡ some s')
      × ((k : ℕ) → (Settled debug_level k s past ⊎ Among k ks) → Settled debug_level k s' past)
unfolding run
settle fuel debug_level [] s past v below enough = (s, refl, kept)
  where
    kept : (k : ℕ) → (Settled debug_level k s past ⊎ ⊥) → Settled debug_level k s past
    kept k (inl done) = done
    kept k (inr never) = absurd never
settle fuel debug_level (j ∷ ks) s past v below enough =
    let (w, w', at_j, e, v') = wake-Runs debug_level fuel j s past v below.0 enough in
    let s1 : Threads = record s { work_threads = set s.work_threads j w' } in
    let (s', runs, later) = settle fuel debug_level ks s1 past v' below.1 enough in
    let woken = after_wake fuel debug_level j w w' s past v below.0 enough at_j e in
    (
      s',
      rw (at_j, e) runs,
      λ k h. elim h [
        | inl done ↦ later k (inl (woken k (inl done)))
        | inr (inl is) ↦ later k (inl (woken k (inr is)))
        | inr (inr more) ↦ later k (inr more)
      ],
    )

run-append :
    (fuel debug_level : ℕ) (es ds : List Event) (s : Threads)
    → run fuel debug_level (es ++ ds) s ≡ (run fuel debug_level es s >>= run fuel debug_level ds)
unfolding run
run-append fuel debug_level [] ds s = refl
run-append fuel debug_level (arrive n ∷ es) ds s = elim (Option-cases (dispath_conn n s)) [
  | inl e ↦ rw e refl
  | inr (s', e) ↦ rw e (run-append fuel debug_level es ds s')
]
run-append fuel debug_level (wake k ∷ es) ds s = elim (Option-cases (get_elem? s.work_threads k)) [
  | inl e ↦ rw e refl
  | inr (w, e) ↦ elim (Option-cases (async_cb fuel debug_level w)) [
    | inl x ↦ rw (e, x) refl
    | inr (w', x) ↦
        rw (e, x)
          (run-append fuel debug_level es ds (record s { work_threads = set s.work_threads k w' }))
  ]
]

-- After any run from `thread_init` of at most 2^31 - 1 hand-overs and of callbacks, once each of the
-- five workers calls back, in any order, no connection waits: the run meets no fault, each worker's
-- queue is empty, and it watches its whole share of the connections in order of arrival.
pub run_settles :
    (fuel debug_level : ℕ) (es : List Event) (ks : List ℕ)
    → All OfWorker es
    → length (arrived es) ≤ int_max
    → length (arrived es) < fuel
    → All (λ k. k < 5) ks
    → ((k : ℕ) → k < 5 → Among k ks)
    → (s : Threads) × (run fuel debug_level (es ++ map wake ks) thread_init ≡ some s)
      × ((k : ℕ) → k < 5 → Settled debug_level k s (arrived es))
run_settles fuel debug_level es ks ok few enough below each =
    let (s, runs, v) = run-thread_init fuel debug_level es ok few enough in
    let (s', settles, all) = settle fuel debug_level ks s (arrived es) v below enough in
    (
      s',
      run-append fuel debug_level es (map wake ks) thread_init ∙ rw runs settles,
      λ k small. all k (inr (each k small)),
    )
