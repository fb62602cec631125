-- ===== src/Rpc/Workers/Worker.antt =====
-- One worker, seen as the list of the connections that wait for it.
use lepd.Base.{
  ℕ, zero, suc, ◌≤◌, ◌<◌, ◌≡◌, refl, sym, ◌∙◌, ap, true, false, Option, none, some, List, [], ◌∷◌,
  ◌++◌, map, All, arith, length, ◌==◌, if◌then◌else◌, append_assoc, append-nil, subst,
}
use lepd.Rpc.Queue.{ConnQueueItem, ConnQueue, Heap, update, cq_push}
use lepd.Rpc.Queue.Segment.{Fresh, IsQueue, payload}
use lepd.Rpc.Queue.Laws.{cq_push-IsQueue, cq_pop_empty, cq_pop-IsQueue, cq_init-IsQueue}
use lepd.Rpc.Queue.Frames.{
  Agrees, IsQueue-Agrees, IsQueue-Fresh, Carries, Carries-Fresh, Carries-same, Carries-append,
}
use lepd.Rpc.Connection.{Connection, new_connection}
use lepd.Rpc.Workers.{WorkThread, NewConn, item_of, setup_thread, hand_to, drain, async_cb}

-- The worker's queue holds these connections, oldest first, and it is signalled if there are any.
pub record Awaits (w : WorkThread) (conns : List NewConn) : Type 0 where
  pub cells : List ℕ
  pub queued : IsQueue w.heap w.new_conn_queue cells
  pub carried : Carries w.heap cells (map item_of conns)
  pub unused : (a : ℕ) → w.next_cell ≤ a → w.heap a ≡ none

pub setup_thread-Awaits : Awaits setup_thread []
unfolding setup_thread
setup_thread-Awaits = record {
  cells = [];
  queued = cq_init-IsQueue _;
  carried = tt;
  unused = λ a h. refl;
}

Fresh-Agrees :
    (h : Heap) (a : ℕ) (c : ConnQueueItem) (xs : List ℕ) → Fresh a xs → Agrees h (update h a c) xs
Fresh-Agrees h a c [] f = tt
Fresh-Agrees h a c (x ∷ xs) f = (ground arith, Fresh-Agrees h a c xs f.1)

Agrees-payload :
    (h h' : Heap) (xs : List ℕ) → Agrees h h' xs → All (λ x. payload (h' x) ≡ payload (h x)) xs
Agrees-payload h h' [] a = tt
Agrees-payload h h' (x ∷ xs) a = (ap payload a.0, Agrees-payload h h' xs a.1)

everywhere : {P : ℕ → Type 0} (xs : List ℕ) → ((a : ℕ) → P a) → All P xs
everywhere [] f = tt
everywhere (x ∷ xs) f = (f x, everywhere xs f)

payload-none : (o : Option ConnQueueItem) → payload o ≡ none → o ≡ none
payload-none none e = refl
payload-none (some c) e = cc

-- The heap of a hand-over before and after the push: the new cell carries the new connection.
record Pushed (n : NewConn) (w : WorkThread) (xs : List ℕ) (conns : List NewConn) : Type 0 where
  result : ConnQueue × Heap
  pushes :
      cq_push w.new_conn_queue w.next_cell (update w.heap w.next_cell (item_of n)) ≡ some result
  queued : IsQueue result.1 result.0 (xs ++ w.next_cell ∷ [])
  carried : Carries result.1 (xs ++ w.next_cell ∷ []) (map item_of conns ++ item_of n ∷ [])
  unused : (a : ℕ) → suc w.next_cell ≤ a → result.1 a ≡ none

push-Awaits :
    (n : NewConn) (w : WorkThread) (conns : List NewConn) (v : Awaits w conns)
    → Pushed n w v.cells conns
push-Awaits n w conns v =
    let fresh : Fresh w.next_cell v.cells =
      Carries-Fresh w.heap v.cells (map item_of conns) w.next_cell
        (v.unused w.next_cell (omega arith)) v.carried in
    let h : Heap = update w.heap w.next_cell (item_of n) in
    let agrees : Agrees w.heap h v.cells =
      Fresh-Agrees w.heap w.next_cell (item_of n) v.cells fresh in
    let (r, e, q, same) =
      cq_push-IsQueue h w.new_conn_queue v.cells w.next_cell (item_of n)
        (IsQueue-Agrees w.heap h w.new_conn_queue v.cells agrees v.queued) (ground arith) fresh in
    let kept : Carries h v.cells (map item_of conns) =
      Carries-same w.heap h v.cells (map item_of conns) (Agrees-payload w.heap h v.cells agrees)
        v.carried in
    record {
      result = r;
      pushes = e;
      queued = q;
      carried =
          Carries-append r.1 v.cells (map item_of conns) w.next_cell (item_of n)
            (Carries-same h r.1 v.cells (map item_of conns) (everywhere v.cells same) kept)
            (same w.next_cell ∙ ground arith);
      unused = λ a above. payload-none (r.1 a) (same a ∙ ground (arith, v.unused a (omega arith)));
    }

map-append_one :
    (xs : List NewConn) (n : NewConn)
    → map item_of (xs ++ n ∷ []) ≡ map item_of xs ++ item_of n ∷ []
map-append_one [] n = refl
map-append_one (x ∷ xs) n = ap (◌∷◌ (item_of x)) (map-append_one xs n)

-- A new connection goes behind those that wait, and the worker is signalled.
pub hand_to-Awaits :
    (n : NewConn) (w : WorkThread) (conns : List NewConn)
    → Awaits w conns
    → (w' : WorkThread) × (hand_to n w ≡ some w')
      × Awaits w' (conns ++ n ∷ [])
      × (w'.signalled ≡ true)
      × (w'.watchers ≡ w.watchers)
unfolding hand_to
hand_to-Awaits n w conns v =
    let p = push-Awaits n w conns v in
    (
      record w {
        heap = p.result.1;
        next_cell = suc w.next_cell;
        new_conn_queue = p.result.0;
        signalled = true;
      },
      rw p.pushes refl,
      record {
        cells = v.cells ++ w.next_cell ∷ [];
        queued = p.queued;
        carried = rw (map-append_one conns n) p.carried;
        unused = p.unused;
      },
      refl,
      refl,
    )

-- What is left of a heap when the popped item is freed.
abbrev freed : Heap → ℕ → Heap
freed h a b = if b == a then none else h b

freed-Agrees : (h : Heap) (a : ℕ) (xs : List ℕ) → Fresh a xs → Agrees h (freed h a) xs
freed-Agrees h a [] f = tt
freed-Agrees h a (x ∷ xs) f = (ground arith, freed-Agrees h a xs f.1)

abbrev pub watched : ℕ → List NewConn → List Connection
watched debug_level conns = map (λ n. new_connection n.newfd debug_level) conns

-- The worker after one round of the loop.
abbrev served : ℕ → WorkThread → ℕ → ConnQueue → ConnQueueItem → WorkThread
served debug_level w a cq item = record w {
  heap = freed w.heap a;
  new_conn_queue = cq;
  watchers = w.watchers ++ new_connection item.sfd debug_level ∷ [];
}

-- One round of the loop takes the oldest connection.
record Took (debug_level fuel : ℕ) (n : NewConn) (ns : List NewConn) (w : WorkThread) : Type 0 where
  cell : ℕ
  left : ConnQueue
  item : ConnQueueItem
  goes_on :
      drain (suc fuel) debug_level w ≡ drain fuel debug_level (served debug_level w cell left item)
  same_fd : item.sfd ≡ n.newfd
  others : Awaits (served debug_level w cell left item) ns

payload-sfd :
    (o : Option ConnQueueItem) (i : ConnQueueItem)
    → payload o ≡ some i
    → (c : ConnQueueItem) × (o ≡ some c) × (c.sfd ≡ i.sfd)
payload-sfd none i e = cc
payload-sfd (some c) i e = (c, refl, ground (arith, e))

take_one :
    (debug_level fuel : ℕ) (n : NewConn) (ns : List NewConn) (w : WorkThread) (cells : List ℕ)
    → IsQueue w.heap w.new_conn_queue cells
    → Carries w.heap cells (map item_of (n ∷ ns))
    → ((a : ℕ) → w.next_cell ≤ a → w.heap a ≡ none)
    → Took debug_level fuel n ns w
unfolding drain
take_one debug_level fuel n ns w [] q k u = absurd k
take_one debug_level fuel n ns w (a ∷ cells) q (at_a, k) u =
    let (c, here, fd) = payload-sfd (w.heap a) (item_of n) at_a in
    let (cq, pops, q') = cq_pop-IsQueue w.heap w.new_conn_queue a cells q in
    let fresh : Fresh a cells = IsQueue-Fresh w.heap w.new_conn_queue a cells q in
    let agrees : Agrees w.heap (freed w.heap a) cells = freed-Agrees w.heap a cells fresh in
    record {
      cell = a;
      left = cq;
      item = c;
      goes_on = rw (pops, here) refl;
      same_fd = fd;
      others = record {
        cells = cells;
        queued = IsQueue-Agrees w.heap (freed w.heap a) cq cells agrees q';
        carried =
            Carries-same w.heap (freed w.heap a) cells (map item_of ns)
              (Agrees-payload w.heap (freed w.heap a) cells agrees) k;
        unused = λ b above. ground (arith, u b above);
      };
    }

Awaits-nil : (w : WorkThread) (v : Awaits w []) → v.cells ≡ []
Awaits-nil w v = none_carried v.cells v.carried
  where
    none_carried : (cells : List ℕ) → Carries w.heap cells [] → cells ≡ []
    none_carried [] k = refl
    none_carried (a ∷ cells) k = absurd k

-- With enough fuel the loop ends, with a watcher for each connection, in order, and an empty queue.
pub drain-Awaits :
    (debug_level fuel : ℕ) (conns : List NewConn) (w : WorkThread)
    → Awaits w conns
    → length conns < fuel
    → (w' : WorkThread) × (drain fuel debug_level w ≡ some w')
      × Awaits w' []
      × (w'.watchers ≡ w.watchers ++ watched debug_level conns)
      × (w'.signalled ≡ w.signalled)
unfolding drain
drain-Awaits debug_level zero conns w v h = absurd (omega arith)
drain-Awaits debug_level (suc fuel) [] w v h =
    let q : IsQueue w.heap w.new_conn_queue [] =
      subst (IsQueue w.heap w.new_conn_queue) (Awaits-nil w v) v.queued in
    let pops = cq_pop_empty w.heap w.new_conn_queue q in
    (w, rw pops refl, v, sym (append-nil w.watchers), refl)
drain-Awaits debug_level (suc fuel) (n ∷ ns) w v h =
    let t = take_one debug_level fuel n ns w v.cells v.queued v.carried v.unused in
    let (w', ends, empty, seen, kept) =
      drain-Awaits debug_level fuel ns (served debug_level w t.cell t.left t.item) t.others
        (omega arith) in
    (
      w',
      t.goes_on ∙ ends,
      empty,
      seen
          ∙ append_assoc w.watchers (new_connection t.item.sfd debug_level ∷ [])
              (watched debug_level ns)
          ∙ ap (λ fd. w.watchers ++ new_connection fd debug_level ∷ watched debug_level ns)
              t.same_fd,
      kept,
    )

-- The callback of a signalled worker takes every connection that waits.
pub async_cb-Awaits :
    (debug_level fuel : ℕ) (conns : List NewConn) (w : WorkThread)
    → Awaits w conns
    → length conns < fuel
    → (w' : WorkThread) × (async_cb fuel debug_level w ≡ some w')
      × Awaits w' []
      × (w'.watchers ≡ w.watchers ++ watched debug_level conns)
      × (w'.signalled ≡ false)
unfolding async_cb
async_cb-Awaits debug_level fuel conns w v h =
    drain-Awaits debug_level fuel conns (record w { signalled = false })
      (record { cells = v.cells; queued = v.queued; carried = v.carried; unused = v.unused }) h
