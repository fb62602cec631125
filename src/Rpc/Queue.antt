-- ===== src/Rpc/Queue.antt =====
-- The connection queue of src/jsonrpc-c.c: `conn_queue_item`, `conn_queue`, `cq_init`, `cq_pop` and
-- `cq_push`, over an explicit heap of items. Each call runs under the queue's lock, so it is one step.
pub mod Segment
pub mod Laws
pub mod Frames
mod Examples
use lepd.Base.Int.{ℤ}
use lepd.Base.{ℕ, Option, none, some, ◌==◌, ◌>>=◌, if◌then◌else◌, String}

-- `sfd` is the number that `accept` returned, -1 after an error; `data` points to the server.
pub record ConnQueueItem : Type 0 where
  pub sfd : ℤ
  pub sz_addr : String
  pub port : ℕ
  pub next : Option ℕ
  pub data_ptr : ℕ

pub record ConnQueue : Type 0 where
  pub head : Option ℕ
  pub tail : Option ℕ

-- A freed or unallocated cell holds `none`, and a fault is a result `none`.
abbrev pub Heap : Type 0
Heap = ℕ → Option ConnQueueItem

abbrev pub update : Heap → ℕ → ConnQueueItem → Heap
update h a c b = if b == a then some c else h b

-- `a->next = p`
unfoldable pub store_next : ℕ → Option ℕ → Heap → Option Heap
store_next a p h = do c ← h a; some (update h a (record c { next = p }))

unfoldable pub cq_init : ConnQueue
cq_init = record { head = none; tail = none }

-- The tail is reset when the last item leaves.
unfoldable pub cq_pop : ConnQueue → Heap → Option (Option ℕ × ConnQueue)
cq_pop cq h = elim cq.head [
  | none ↦ some (none, cq)
  | some item ↦ h item >>= λ c.
      some
        (some item, record { head = c.next; tail = elim c.next [ none ↦ none | some _ ↦ cq.tail ] })
]

-- `item->next = NULL` stands before the lock is taken: the item is not yet shared.
unfoldable pub cq_push : ConnQueue → ℕ → Heap → Option (ConnQueue × Heap)
unfolding store_next
cq_push cq item h = do
  h' ← store_next item none h
  elim cq.tail [
    | none ↦ some (record { head = some item; tail = some item }, h')
    | some t ↦ store_next t (some item) h' >>= λ h''.
        some (record { head = cq.head; tail = some item }, h'')
  ]
