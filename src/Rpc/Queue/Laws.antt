-- ===== src/Rpc/Queue/Laws.antt =====
-- `cq_push` and `cq_pop` refine a first-in first-out list of items.
use lepd.Base.{ℕ, Option, none, some, ◌≡◌, refl, ◌≢◌, inl, inr, List, [], ◌∷◌, ◌++◌, arith}
use lepd.Rpc.Queue.{ConnQueueItem, ConnQueue, Heap, update, cq_init, cq_pop, cq_push}
use lepd.Rpc.Queue.Segment.{
  Seg, Fresh, Seg-update, Seg-append, Distinct-append, Fresh-append, Holds, IsQueue, payload,
}

-- An empty queue is well formed.
pub cq_init-IsQueue : (h : Heap) → IsQueue h cq_init []
unfolding cq_init
cq_init-IsQueue h = inl (refl, refl, refl)

module _ (h : Heap) (cq : ConnQueue) (item : ℕ) (c : ConnQueueItem)
    (at_item : h item ≡ some c) where
  -- The first item of an empty queue becomes its head and its tail.
  push_empty :
      cq.tail ≡ none
      → (r : ConnQueue × Heap) × (cq_push cq item h ≡ some r)
        × IsQueue r.1 r.0 (item ∷ [])
        × ((b : ℕ) → payload (r.1 b) ≡ payload (h b))
  unfolding cq_push
  push_empty e = (
    (record { head = some item; tail = some item }, h'),
    ground arith,
    inr (
      [],
      item,
      refl,
      record {
        last = record c { next = none };
        front = refl;
        tail_is = refl;
        at_last = ground arith;
        ends = refl;
        distinct = tt;
        fresh = tt;
      },
    ),
    λ b. ground arith,
  )
    where
      h' : Heap
      h' = update h item (record c { next = none })

  module _ (xs : List ℕ) (l : ℕ) (v : Holds h cq xs l) (new : Fresh item xs)
      (other : l ≢ item) where
    cleared : Heap
    cleared = update h item (record c { next = none })

    linked : Heap
    linked = update cleared l (record v.last { next = some item })

    linked-front : Seg linked cq.head (xs ++ l ∷ []) (some item)
    unfolding linked cleared
    linked-front =
        Seg-append linked cq.head xs l (record v.last { next = some item })
          (Seg-update cleared cq.head xs (some l) l (record v.last { next = some item }) v.fresh
            (Seg-update h cq.head xs (some l) item (record c { next = none }) new v.front))
          (ground arith)

    -- Behind a last item the new one is linked in as the tail.
    push_behind :
        (r : ConnQueue × Heap) × (cq_push cq item h ≡ some r)
        × IsQueue r.1 r.0 ((xs ++ l ∷ []) ++ item ∷ [])
        × ((b : ℕ) → payload (r.1 b) ≡ payload (h b))
    unfolding cq_push linked cleared
    push_behind = (
      (record { head = cq.head; tail = some item }, linked),
      rw v.tail_is (ground (arith, v.at_last)),
      inr (
        xs ++ l ∷ [],
        item,
        refl,
        record {
          last = record c { next = none };
          front = linked-front;
          tail_is = refl;
          at_last = ground arith;
          ends = refl;
          distinct = Distinct-append xs l v.distinct v.fresh;
          fresh = Fresh-append item xs l new other;
        },
      ),
      λ b. ground (arith, v.at_last),
    )

pub Fresh_parts : (a : ℕ) (xs : List ℕ) (l : ℕ) → Fresh a (xs ++ l ∷ []) → Fresh a xs × (l ≢ a)
Fresh_parts a [] l f = (tt, f.0)
Fresh_parts a (b ∷ xs) l f = let rest = Fresh_parts a xs l f.1 in ((f.0, rest.0), rest.1)

-- On a well-formed queue, `cq_push` of an allocated item that is not in the queue meets no fault,
-- appends the item at the end, and changes no item but for its link.
pub cq_push-IsQueue :
    (h : Heap) (cq : ConnQueue) (xs : List ℕ) (item : ℕ) (c : ConnQueueItem)
    → IsQueue h cq xs
    → h item ≡ some c
    → Fresh item xs
    → (r : ConnQueue × Heap) × (cq_push cq item h ≡ some r)
      × IsQueue r.1 r.0 (xs ++ item ∷ [])
      × ((b : ℕ) → payload (r.1 b) ≡ payload (h b))
cq_push-IsQueue h cq ys item c (inl (e, _, t)) at_item f = rw e (push_empty h cq item c at_item t)
cq_push-IsQueue h cq ys item c (inr (xs, l, e, v)) at_item f =
    let (new, other) = Fresh_parts item xs l (rw e at f) in
    rw e (push_behind h cq item c at_item xs l v new other)

-- `cq_pop` of an empty queue returns no item and leaves the queue as it is.
pub cq_pop_empty : (h : Heap) (cq : ConnQueue) → IsQueue h cq [] → cq_pop cq h ≡ some (none, cq)
unfolding cq_pop
cq_pop_empty h cq (inl (_, e, _)) = rw e (ground arith)
cq_pop_empty h cq (inr ([], l, e, v)) = cc
cq_pop_empty h cq (inr (x ∷ xs, l, e, v)) = cc

Seg-starts :
    (h : Heap) (p : Option ℕ) (xs : List ℕ) (l : ℕ) → Seg h p xs (some l) → (b : ℕ) × (p ≡ some b)
Seg-starts h p [] l s = (l, s)
Seg-starts h p (x ∷ xs) l s = (x, s.0)

-- `cq_pop` of a queue with items meets no fault, returns the oldest and leaves the others in order.
pub cq_pop-IsQueue :
    (h : Heap) (cq : ConnQueue) (a : ℕ) (ys : List ℕ)
    → IsQueue h cq (a ∷ ys)
    → (cq' : ConnQueue) × (cq_pop cq h ≡ some (some a, cq')) × IsQueue h cq' ys
unfolding cq_pop
cq_pop-IsQueue h cq a ys (inl (e, _, _)) = cc
cq_pop-IsQueue h cq a ys (inr ([], l, e, v)) = (
  record { head = none; tail = none },
  ground (arith, v.front, v.at_last, v.ends),
  inl (ground arith, refl, refl),
)
cq_pop-IsQueue h cq a ys (inr (x ∷ xs, l, e, v)) =
    let (at_head, (c, at_x, rest)) = v.front in
    let (b, next_is) = Seg-starts h c.next xs l rest in
    (
      record { head = c.next; tail = cq.tail },
      ground (arith, at_head, at_x, next_is),
      inr (
        xs,
        l,
        ground arith,
        record {
          last = v.last;
          front = rest;
          tail_is = v.tail_is;
          at_last = v.at_last;
          ends = v.ends;
          distinct = v.distinct.1;
          fresh = v.fresh.1;
        },
      ),
    )
