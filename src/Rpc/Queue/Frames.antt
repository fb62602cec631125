-- ===== src/Rpc/Queue/Frames.antt =====
-- What a queue holds depends on the cells of its items only.
use lepd.Base.{
  ℕ, Option, none, some, ◌≡◌, sym, ◌∙◌, ap, inl, inr, List, [], ◌∷◌, ◌++◌, All, arith,
  All-append_left, All-append_right,
}
use lepd.Rpc.Queue.{ConnQueueItem, ConnQueue, Heap}
use lepd.Rpc.Queue.Segment.{Seg, Fresh, Fresh-append, IsQueue, payload}

abbrev pub Agrees : Heap → Heap → List ℕ → Type 0
Agrees h h' = All (λ x. h' x ≡ h x)

Seg-Agrees :
    (h h' : Heap) (p : Option ℕ) (xs : List ℕ) (q : Option ℕ)
    → Agrees h h' xs
    → Seg h p xs q
    → Seg h' p xs q
Seg-Agrees h h' p [] q a s = s
Seg-Agrees h h' p (x ∷ xs) q (same, a) (e, (c, at_x, s)) =
    (e, (c, same ∙ at_x, Seg-Agrees h h' c.next xs q a s))

pub IsQueue-Agrees :
    (h h' : Heap) (cq : ConnQueue) (ys : List ℕ)
    → Agrees h h' ys
    → IsQueue h cq ys
    → IsQueue h' cq ys
IsQueue-Agrees h h' cq ys a (inl v) = inl v
IsQueue-Agrees h h' cq ys a (inr (xs, l, e, v)) =
    let a' : Agrees h h' (xs ++ l ∷ []) = rw e at a in
    inr (
      xs,
      l,
      e,
      record {
        last = v.last;
        front =
            Seg-Agrees h h' cq.head xs (some l) (All-append_left (λ x. h' x ≡ h x) xs (l ∷ []) a')
              v.front;
        tail_is = v.tail_is;
        at_last = (All-append_right (λ x. h' x ≡ h x) xs (l ∷ []) a').0 ∙ v.at_last;
        ends = v.ends;
        distinct = v.distinct;
        fresh = v.fresh;
      },
    )

-- The first item is not queued twice.
pub IsQueue-Fresh :
    (h : Heap) (cq : ConnQueue) (a : ℕ) (ys : List ℕ) → IsQueue h cq (a ∷ ys) → Fresh a ys
IsQueue-Fresh h cq a ys (inl (e, _, _)) = cc
IsQueue-Fresh h cq a ys (inr ([], l, e, v)) = let empty : ys ≡ [] = ground arith in rw empty tt
IsQueue-Fresh h cq a ys (inr (x ∷ xs, l, e, v)) =
    let head : a ≡ x = ground arith in
    let tail : ys ≡ xs ++ l ∷ [] = ground arith in
    rw (head, tail) (Fresh-append x xs l v.distinct.0 (λ same. v.fresh.0 (sym same)))

-- The items that lie in the cells of a queue, their links left out.
abbrev pub Carries : Heap → List ℕ → List ConnQueueItem → Type 0
Carries h [] [] = Unit {0}
Carries h [] (i ∷ items) = ⊥
Carries h (x ∷ xs) [] = ⊥
Carries h (x ∷ xs) (i ∷ items) = (payload (h x) ≡ some i) × Carries h xs items

pub Carries-Fresh :
    (h : Heap) (xs : List ℕ) (items : List ConnQueueItem) (a : ℕ)
    → h a ≡ none
    → Carries h xs items
    → Fresh a xs
Carries-Fresh h [] items a free k = tt
Carries-Fresh h (x ∷ xs) (i ∷ items) a free (at_x, k) =
    ((λ e. cc (ap (λ y. payload (h y)) e, ap payload free)), Carries-Fresh h xs items a free k)
Carries-Fresh h (x ∷ xs) [] a free k = absurd k

pub Carries-same :
    (h h' : Heap) (xs : List ℕ) (items : List ConnQueueItem)
    → All (λ x. payload (h' x) ≡ payload (h x)) xs
    → Carries h xs items
    → Carries h' xs items
Carries-same h h' [] [] same k = tt
Carries-same h h' (x ∷ xs) (i ∷ items) (e, same) (at_x, k) =
    (e ∙ at_x, Carries-same h h' xs items same k)
Carries-same h h' [] (i ∷ items) same k = absurd k
Carries-same h h' (x ∷ xs) [] same k = absurd k

pub Carries-append :
    (h : Heap) (xs : List ℕ) (items : List ConnQueueItem) (a : ℕ) (i : ConnQueueItem)
    → Carries h xs items
    → payload (h a) ≡ some i
    → Carries h (xs ++ a ∷ []) (items ++ i ∷ [])
Carries-append h [] [] a i k e = (e, tt)
Carries-append h (x ∷ xs) (j ∷ items) a i (at_x, k) e = (at_x, Carries-append h xs items a i k e)
Carries-append h [] (j ∷ items) a i k e = absurd k
Carries-append h (x ∷ xs) [] a i k e = absurd k
