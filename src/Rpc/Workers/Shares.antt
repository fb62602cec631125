-- ===== src/Rpc/Workers/Shares.antt =====
-- A worker's share of the connections: what it watches and what waits in its queue.
use lepd.Base.{
  ℕ, zero, suc, ◌%◌, ◌≤◌, ◌<◌, ◌≡◌, refl, sym, ◌∙◌, ap, ◌≢◌, ◌⊎◌, inl, inr, true, some, List, [],
  ◌∷◌, ◌++◌, arith, length, get_elem?, set, ◌==◌, Bool-cases, subst, length-append, append_assoc,
  append-nil,
}
use lepd.Rpc.Connection.{new_connection}
use lepd.Rpc.Workers.{WorkThread, NewConn, thread_init, setup_thread, hand_to, async_cb}
use lepd.Rpc.Workers.Worker.{Awaits, setup_thread-Awaits, hand_to-Awaits, async_cb-Awaits, watched}
use lepd.Rpc.Workers.Turns.{share, share_mine, share_other, get-set_same, get-set_other}

-- What worker `k` has after the connections of `past`: it watches its share of them, but for those
-- that wait in its queue, and it is signalled if any waits.
pub record Serves (debug_level k : ℕ) (w : WorkThread) (past : List NewConn) : Type 0 where
  pub waiting : List NewConn
  pub awaits : Awaits w waiting
  pub served : w.watchers ++ watched debug_level waiting ≡ watched debug_level (share k 0 past)
  pub woken : (waiting ≡ []) ⊎ (w.signalled ≡ true)
  pub few : length waiting ≤ length past

watched-append :
    (debug_level : ℕ) (xs : List NewConn) (ys : List NewConn)
    → watched debug_level (xs ++ ys) ≡ watched debug_level xs ++ watched debug_level ys
watched-append debug_level [] ys = refl
watched-append debug_level (x ∷ xs) ys =
    ap (◌∷◌ (new_connection x.newfd debug_level)) (watched-append debug_level xs ys)

-- The worker whose turn it is gets the new connection.
pub hand_to-Serves :
    (debug_level k : ℕ) (w : WorkThread) (past : List NewConn) (n : NewConn)
    → Serves debug_level k w past
    → length past % 5 ≡ k
    → (w' : WorkThread) × (hand_to n w ≡ some w') × Serves debug_level k w' (past ++ n ∷ [])
hand_to-Serves debug_level k w past n v mine =
    let (w', e, awaits, signalled, same) = hand_to-Awaits n w v.waiting v.awaits in
    (
      w',
      e,
      record {
        waiting = v.waiting ++ n ∷ [];
        awaits = awaits;
        served =
            ap (λ xs. xs ++ watched debug_level (v.waiting ++ n ∷ [])) same
            ∙ ap (λ xs. w.watchers ++ xs) (watched-append debug_level v.waiting (n ∷ []))
            ∙ sym (
                append_assoc w.watchers (watched debug_level v.waiting)
                  (watched debug_level (n ∷ [])))
            ∙ ap (λ xs. xs ++ watched debug_level (n ∷ [])) v.served
            ∙ sym (watched-append debug_level (share k 0 past) (n ∷ []))
            ∙ ap (watched debug_level) (sym (share_mine k 0 past n (omega arith)));
        woken = inr signalled;
        few = omega (arith, v.few, length-append v.waiting (n ∷ []), length-append past (n ∷ []));
      },
    )

pub other-Serves :
    (debug_level k : ℕ) (w : WorkThread) (past : List NewConn) (n : NewConn)
    → Serves debug_level k w past
    → length past % 5 ≢ k
    → Serves debug_level k w (past ++ n ∷ [])
other-Serves debug_level k w past n v other = record {
  waiting = v.waiting;
  awaits = v.awaits;
  served =
      v.served
      ∙ ap (watched debug_level) (sym (share_other k 0 past n (λ e. other (omega (arith, e)))));
  woken = v.woken;
  few = omega (arith, v.few, length-append past (n ∷ []));
}

pub async_cb-Serves :
    (debug_level k fuel : ℕ) (w : WorkThread) (past : List NewConn)
    → Serves debug_level k w past
    → length past < fuel
    → (w' : WorkThread) × (async_cb fuel debug_level w ≡ some w') × Serves debug_level k w' past
async_cb-Serves debug_level k fuel w past v h =
    let (w', e, awaits, seen, quiet) =
      async_cb-Awaits debug_level fuel v.waiting w v.awaits (omega (arith, v.few)) in
    (
      w',
      e,
      record {
        waiting = [];
        awaits = awaits;
        served = append-nil w'.watchers ∙ seen ∙ v.served;
        woken = inl refl;
        few = omega arith;
      },
    )

-- After a write of worker `i`, each of the five has its property.
pub set_worker :
    {P : ℕ → WorkThread → Type 0} (ws : List WorkThread) (i : ℕ) (w : WorkThread)
    → i < length ws
    → P i w
    → ((k : ℕ) → k < 5 → k ≢ i → (x : WorkThread) × (get_elem? ws k ≡ some x) × P k x)
    → (k : ℕ) → k < 5
    → (x : WorkThread) × (get_elem? (set ws i w) k ≡ some x) × P k x
set_worker {P} ws i w inside new others k small = elim (Bool-cases (k == i)) [
  | inl e ↦
      let same : i ≡ k = ground (arith, e) in
      subst (λ j. (x : WorkThread) × (get_elem? (set ws i w) j ≡ some x) × P j x) same
        (w, get-set_same ws i w inside, new)
  | inr e ↦
      let (x, at_k, old) = others k small (ground (arith, e)) in
      (x, get-set_other ws i k w (ground (arith, e)) ∙ at_k, old)
]

pub five_workers :
    (debug_level k : ℕ)
    → k < 5
    → (w : WorkThread) × (get_elem? thread_init.work_threads k ≡ some w) × Serves debug_level k w []
unfolding thread_init setup_thread
five_workers debug_level k h = (setup_thread, each k h, starts)
  where
    each : (j : ℕ) → j < 5 → get_elem? thread_init.work_threads j ≡ some setup_thread
    each zero h = refl
    each (suc zero) h = refl
    each (suc (suc zero)) h = refl
    each (suc (suc (suc zero))) h = refl
    each (suc (suc (suc (suc zero)))) h = refl
    each (suc (suc (suc (suc (suc j))))) h = absurd (omega arith)

    starts : Serves debug_level k setup_thread []
    starts = record {
      waiting = [];
      awaits = setup_thread-Awaits;
      served = refl;
      woken = inl refl;
      few = omega arith;
    }
