-- ===== src/Rpc/Queue/Segment.antt =====
-- List segments on the heap of the connection queue, and when a queue holds a list of addresses.
use lepd.Base.{ℕ, Option, none, some, ◌≡◌, refl, ◌≢◌, ◌⊎◌, List, [], ◌∷◌, ◌++◌, All, arith, sym}
use lepd.Rpc.Queue.{ConnQueueItem, ConnQueue, Heap, update}

-- Following `next` from `p` passes the addresses of the list and arrives at `q`.
abbrev pub Seg : Heap → Option ℕ → List ℕ → Option ℕ → Type 0
Seg h p [] q = p ≡ q
Seg h p (a ∷ xs) q = (p ≡ some a) × ((c : ConnQueueItem) × (h a ≡ some c) × Seg h c.next xs q)

abbrev pub Fresh : ℕ → List ℕ → Type 0
Fresh a = All (λ b. b ≢ a)

abbrev pub Distinct : List ℕ → Type 0
Distinct [] = Unit {0}
Distinct (a ∷ xs) = Fresh a xs × Distinct xs

pub Seg-update :
    (h : Heap) (p : Option ℕ) (xs : List ℕ) (q : Option ℕ) (a : ℕ) (c : ConnQueueItem)
    → Fresh a xs
    → Seg h p xs q
    → Seg (update h a c) p xs q
Seg-update h p [] q a c f s = s
Seg-update h p (b ∷ xs) q a c f (e, (cb, at_b, s)) =
    (e, (cb, ground arith, Seg-update h cb.next xs q a c f.1 s))

pub Seg-append :
    (h : Heap) (p : Option ℕ) (xs : List ℕ) (l : ℕ) (c : ConnQueueItem)
    → Seg h p xs (some l)
    → h l ≡ some c
    → Seg h p (xs ++ l ∷ []) c.next
Seg-append h p [] l c s e = (s, (c, e, refl))
Seg-append h p (a ∷ xs) l c (ea, (ca, at_a, s)) e =
    (ea, (ca, at_a, Seg-append h ca.next xs l c s e))

pub Fresh-append : (a : ℕ) (xs : List ℕ) (l : ℕ) → Fresh a xs → l ≢ a → Fresh a (xs ++ l ∷ [])
Fresh-append a [] l f n = (n, tt)
Fresh-append a (b ∷ xs) l f n = (f.0, Fresh-append a xs l f.1 n)

pub Distinct-append : (xs : List ℕ) (l : ℕ) → Distinct xs → Fresh l xs → Distinct (xs ++ l ∷ [])
Distinct-append [] l d f = (tt, tt)
Distinct-append (a ∷ xs) l d f =
    (Fresh-append a xs l d.0 (λ e. f.0 (sym e)), Distinct-append xs l d.1 f.1)

-- A queue with a last item `l` behind the addresses `xs`.
pub record Holds (h : Heap) (cq : ConnQueue) (xs : List ℕ) (l : ℕ) : Type 0 where
  pub last : ConnQueueItem
  pub front : Seg h cq.head xs (some l)
  pub tail_is : cq.tail ≡ some l
  pub at_last : h l ≡ some last
  pub ends : last.next ≡ none
  pub distinct : Distinct xs
  pub fresh : Fresh l xs

-- The queue holds the addresses of the list, from the oldest to the newest.
abbrev pub IsQueue : Heap → ConnQueue → List ℕ → Type 0
IsQueue h cq ys =
    ((ys ≡ []) × (cq.head ≡ none) × (cq.tail ≡ none))
    ⊎ ((xs : List ℕ) × (l : ℕ) × (ys ≡ xs ++ l ∷ []) × Holds h cq xs l)

-- What an item carries, its link left out.
abbrev pub payload : Option ConnQueueItem → Option ConnQueueItem
payload none = none
payload (some c) = some (record c { next = none })
