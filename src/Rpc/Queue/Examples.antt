-- ===== src/Rpc/Queue/Examples.antt =====
-- Runs of the connection queue, and its theorems at concrete queues.
use lepd.Base.{ℕ, Option, none, some, ◌≡◌, refl, inr, [], ◌∷◌, arith}
use lepd.Base.Int.{pos}
use lepd.Rpc.Queue.{ConnQueueItem, ConnQueue, Heap, update, cq_pop, cq_push}
use lepd.Rpc.Queue.Segment.{IsQueue, payload}
use lepd.Rpc.Queue.Laws.{cq_push-IsQueue, cq_pop-IsQueue}

abbrev item : ℕ → Option ℕ → ConnQueueItem
item fd next = record { sfd = pos fd; sz_addr = "10.0.0.1"; port = 80; next = next; data_ptr = 1 }

abbrev heap : Heap
heap = update (update (update (λ a. none) 5 (item 20 none)) 4 (item 21 none)) 6 (item 22 (some 4))

-- The queue 6, 4; cell 5 is allocated and not in it.
abbrev two : ConnQueue
two = record { head = some 6; tail = some 4 }

two-IsQueue : IsQueue heap two (6 ∷ 4 ∷ [])
two-IsQueue = inr (
  6 ∷ [],
  4,
  refl,
  record {
    last = item 21 none;
    front = (refl, (item 22 (some 4), refl, refl));
    tail_is = refl;
    at_last = refl;
    ends = refl;
    distinct = (tt, tt);
    fresh = (omega arith, tt);
  },
)

pop_two : cq_pop two heap ≡ some (some 6, record { head = some 4; tail = some 4 })
unfolding cq_pop
pop_two = refl

cq_push-IsQueue_example :
    (r : ConnQueue × Heap) × (cq_push two 5 heap ≡ some r)
    × IsQueue r.1 r.0 (6 ∷ 4 ∷ 5 ∷ [])
    × ((b : ℕ) → payload (r.1 b) ≡ payload (heap b))
cq_push-IsQueue_example =
    cq_push-IsQueue heap two (6 ∷ 4 ∷ []) 5 (item 20 none) two-IsQueue refl
      (omega arith, (omega arith, tt))

cq_pop-IsQueue_example :
    (cq' : ConnQueue) × (cq_pop two heap ≡ some (some 6, cq')) × IsQueue heap cq' (4 ∷ [])
cq_pop-IsQueue_example = cq_pop-IsQueue heap two 6 (4 ∷ []) two-IsQueue
