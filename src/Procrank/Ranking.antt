-- ===== src/Procrank/Ranking.antt =====
-- The order of the rows of procrank.
use mathlib.Core.List.{Perm}
use lepd.Base.{ℕ, zero, suc, ◌≤◌, ◌≡◌, Bool, true, false, List, [], ◌∷◌, All, arith}
use lepd.Base.Int.{ℤ, pos, negsuc}
use lepd.Procrank.Options.{SortField, Order, ascending, descending}
use lepd.Procrank.{ProcInfo, numcmp, field_of, times_order, compare_by}

abbrev pub negated : ℤ → ℤ
negated (pos zero) = pos zero
negated (pos (suc n)) = negsuc n
negated (negsuc n) = pos (suc n)

abbrev pub positive : ℤ → Bool
positive (pos zero) = false
positive (pos (suc n)) = true
positive (negsuc n) = false

-- What `qsort` asks of a comparison, and what it gives.
pub record IsComparison (cmp : ProcInfo → ProcInfo → ℤ) : Type 0 where
  pub opposite : (a b : ProcInfo) → cmp b a ≡ negated (cmp a b)
  pub trans :
      (a b c : ProcInfo)
      → positive (cmp a b) ≡ false
      → positive (cmp b c) ≡ false
      → positive (cmp a c) ≡ false

abbrev pub InOrder : (ProcInfo → ProcInfo → ℤ) → List ProcInfo → Type 0
InOrder cmp [] = Unit {0}
InOrder cmp (p ∷ ps) = All (λ q. positive (cmp p q) ≡ false) ps × InOrder cmp ps

abbrev pub Sorts : ((ProcInfo → ProcInfo → ℤ) → List ProcInfo → List ProcInfo) → Type 0
Sorts qsort =
    (cmp : ProcInfo → ProcInfo → ℤ) (ps : List ProcInfo)
    → IsComparison cmp
    → Perm (qsort cmp ps) ps × InOrder cmp (qsort cmp ps)

-- `order` turns the comparison of a field around.
abbrev pub Follows : SortField → Order → ProcInfo → ProcInfo → Type 0
Follows f ascending p q = field_of f p.usage ≤ field_of f q.usage
Follows f descending p q = field_of f q.usage ≤ field_of f p.usage

Follows-compare :
    (f : SortField) (o : Order) (p q : ProcInfo)
    → positive (compare_by f o p q) ≡ false
    → Follows f o p q
unfolding compare_by numcmp
Follows-compare f ascending p q h = ground (arith, h)
Follows-compare f descending p q h = ground (arith, h)

compare-Follows :
    (f : SortField) (o : Order) (p q : ProcInfo)
    → Follows f o p q
    → positive (compare_by f o p q) ≡ false
unfolding compare_by numcmp
compare-Follows f ascending p q h = ground arith
compare-Follows f descending p q h = ground arith

opposite_order :
    (o : Order) (a b : ℕ) → times_order o (numcmp b a) ≡ negated (times_order o (numcmp a b))
unfolding numcmp
opposite_order ascending a b = ground arith
opposite_order descending a b = ground arith

Follows-trans :
    (f : SortField) (o : Order) (p q r : ProcInfo)
    → Follows f o p q
    → Follows f o q r
    → Follows f o p r
Follows-trans f ascending p q r h k = omega (arith, h, k)
Follows-trans f descending p q r h k = omega (arith, h, k)

pub compare_by-IsComparison : (f : SortField) (o : Order) → IsComparison (compare_by f o)
unfolding compare_by
compare_by-IsComparison f o = record {
  opposite = λ a b. opposite_order o (field_of f a.usage) (field_of f b.usage);
  trans = λ a b c h k.
      compare-Follows f o a c
        (Follows-trans f o a b c (Follows-compare f o a b h) (Follows-compare f o b c k));
}

-- Each row is followed by those that the order puts behind it.
abbrev pub Ranked : SortField → Order → List ProcInfo → Type 0
Ranked f o [] = Unit {0}
Ranked f o (p ∷ ps) = All (λ q. Follows f o p q) ps × Ranked f o ps

behind-Follows :
    (f : SortField) (o : Order) (p : ProcInfo) (ps : List ProcInfo)
    → All (λ q. positive (compare_by f o p q) ≡ false) ps
    → All (λ q. Follows f o p q) ps
behind-Follows f o p [] h = tt
behind-Follows f o p (q ∷ ps) h = (Follows-compare f o p q h.0, behind-Follows f o p ps h.1)

pub InOrder-Ranked :
    (f : SortField) (o : Order) (ps : List ProcInfo) → InOrder (compare_by f o) ps → Ranked f o ps
InOrder-Ranked f o [] h = tt
InOrder-Ranked f o (p ∷ ps) h = (behind-Follows f o p ps h.0, InOrder-Ranked f o ps h.1)
