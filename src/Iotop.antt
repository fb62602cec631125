-- ===== src/Iotop.antt =====
-- The view of iotop, src/modules/iotop/src/views.c: what two samples of the counters of the tasks
-- differ by, the totals, the units, the order, and the rows of `view_batch`. The chain of
-- `xxxid_stats` is a list. Arithmetic on `double` is a record `Doubles`, an argument.
pub mod Diff
pub mod Sorting
pub mod Units
pub mod View
pub mod Sampling
pub mod Priority
mod Examples
use Prim.Native.String.{compare as compare_strings}
use Prim.Native.Nat.{Ordering}
use lepd.Base.{
  ℕ, zero, suc, ◌+◌, ◌-◌, ◌%◌, ◌^◌, Bool, true, false, not, ◌&&◌, ◌||◌, Option, none, some, List,
  [], ◌∷◌, String, if◌then◌else◌, ◌>>=◌, ltb, leb, length, get_elem?, map, reverse,
}
use lepd.Base.Doubles.{Doubles}
use lepd.Base.Int.{ℤ, ltb_ℤ, eq_ℤ}

-- `config.f` as far as the view reads it, and `params.delay`.
pub record Config : Type 0 where
  pub only : Bool
  pub accumulated : Bool
  pub kilobytes : Bool
  pub delay : ℕ

pub data SortBy : Type 0 where
  sort_by_pid sort_by_prio sort_by_user sort_by_read sort_by_write sort_by_swapin sort_by_io :
      SortBy
  sort_by_command sort_by_max : SortBy

pub data SortOrder : Type 0 where
  sort_desc sort_asc : SortOrder

-- `uint64_t xxx = ~0`
abbrev pub xxx : ℕ
xxx = 18446744073709551615

-- `RRV`, on 64-bit counters.
unfoldable pub rrv : ℕ → ℕ → ℕ
rrv to from = if ltb to from then (xxx - to + from) % 2 ^ 64 else to - from

-- One pass of the inner loop of `sort_diff` with `x` at index i: each later element that is found
-- greater changes places with the one that is there.
unfoldable pub exchange_pass : {A : Type 0} → (A → A → Bool) → A → List A → A × List A
exchange_pass gt x [] = (x, [])
exchange_pass gt x (y ∷ ys) =
    let (m, r) = exchange_pass gt y ys in
    let (m', r') = exchange_pass gt x ys in if gt y x then (m, x ∷ r) else (m', y ∷ r')

-- The outer loop, with its number of rounds.
unfoldable pub exchange_sort : {A : Type 0} → (A → A → Bool) → ℕ → List A → List A
unfolding exchange_pass
exchange_sort gt zero xs = xs
exchange_sort gt (suc n) [] = []
exchange_sort gt (suc n) (x ∷ xs) = let (m, r) = exchange_pass gt x xs in m ∷ exchange_sort gt n r

abbrev after : Ordering → Bool
after Ordering.gt = true
after _ = false

abbrev pub prefix : Bool → List String
prefix true = "B" ∷ "K" ∷ "M" ∷ "G" ∷ "T" ∷ []
prefix false = "B/s" ∷ "K/s" ∷ "M/s" ∷ "G/s" ∷ "T/s" ∷ []

module _ (d : Doubles) where
  pub record XxxidStats : Type 0 where
    pub tid : ℤ
    pub swapin_delay_total : ℕ
    pub blkio_delay_total : ℕ
    pub read_bytes : ℕ
    pub write_bytes : ℕ
    pub blkio_val : d.Double
    pub swapin_val : d.Double
    pub read_val : d.Double
    pub write_val : d.Double
    pub io_prio : ℤ
    pub euid : ℤ
    pub cmdline : String

  unfoldable pub findpid : List XxxidStats → ℤ → Option XxxidStats
  findpid [] tid = none
  findpid (s ∷ ss) tid = let rest = findpid ss tid in if eq_ℤ s.tid tid then some s else rest

  abbrev pub chainlen : List XxxidStats → ℕ
  chainlen = length

  -- The counters of a task that is new.
  unfoldable pub new_task : XxxidStats → XxxidStats
  new_task c = record c {
    read_bytes = 0;
    write_bytes = 0;
    swapin_delay_total = 0;
    blkio_delay_total = 0;
  }

  -- `x / pow_ten / params.delay * 100`
  abbrev percent : Config → ℕ → d.Double
  percent g total =
      d.times (d.over (d.over (d.of_uint64 total) (d.of_uint64 1000000000)) (d.of_uint64 g.delay))
        (d.of_uint64 100)

  abbrev rate : Config → ℕ → d.Double
  rate g bytes = d.over (d.of_uint64 bytes) (d.of_uint64 (if g.accumulated then 1 else g.delay))

  -- The difference of a task to its previous sample.
  unfoldable pub task_diff : Config → XxxidStats → XxxidStats → XxxidStats
  unfolding rrv
  task_diff g c p =
      let reads = rrv c.read_bytes p.read_bytes in
      let writes = rrv c.write_bytes p.write_bytes in
      let swapin = rrv c.swapin_delay_total p.swapin_delay_total in
      let blkio = rrv c.blkio_delay_total p.blkio_delay_total in
      record c {
        read_bytes = reads;
        write_bytes = writes;
        swapin_delay_total = swapin;
        blkio_delay_total = blkio;
        blkio_val = percent g blkio;
        swapin_val = percent g swapin;
        read_val = rate g reads;
        write_val = rate g writes;
      }

  -- The array of `create_diff`, linked in its order; it is NULL if there is no task.
  unfoldable pub create_diff : Config → List XxxidStats → List XxxidStats → List XxxidStats
  unfolding findpid new_task task_diff
  create_diff g [] ps = []
  create_diff g (c ∷ cs) ps =
      elim (findpid ps c.tid) [ none ↦ new_task c | some p ↦ task_diff g c p ] ∷ create_diff g cs ps

  abbrev sum : (XxxidStats → ℕ) → d.Double → List XxxidStats → d.Double
  sum f acc [] = acc
  sum f acc (s ∷ ss) = sum f (d.plus acc (d.of_uint64 (f s))) ss

  unfoldable pub calc_total : Config → List XxxidStats → d.Double × d.Double
  calc_total g diff =
      let read = sum (λ s. s.read_bytes) (d.of_uint64 0) diff in
      let write = sum (λ s. s.write_bytes) (d.of_uint64 0) diff in
      if g.accumulated
      then (read, write)
      else (d.over read (d.of_uint64 g.delay), d.over write (d.of_uint64 g.delay))

  -- The loop of `humanize_val`, with the rounds that `p < 5` leaves.
  unfoldable pub humanize_loop : ℕ → ℕ → d.Double → d.Double × ℕ
  humanize_loop zero p value = (value, p)
  humanize_loop (suc n) p value =
      let (value', p') = humanize_loop n (suc p) (d.over value (d.of_uint64 1000)) in
      if d.above value (d.of_uint64 10000) then (value', p') else (value, p)

  -- A unit past the end of the table is a fault.
  unfoldable pub humanize_val : Config → d.Double → Option (d.Double × String)
  unfolding humanize_loop
  humanize_val g value =
      let (value', p) = humanize_loop 5 0 value in
      get_elem? (prefix g.accumulated) p >>= λ unit. some (value', unit)

  -- `found`, with d[k] before d[i].
  unfoldable pub found : SortBy → XxxidStats → XxxidStats → Bool
  found sort_by_prio k i = ltb_ℤ i.io_prio k.io_prio
  found sort_by_command k i = after (compare_strings k.cmdline i.cmdline)
  found sort_by_pid k i = ltb_ℤ i.tid k.tid
  found sort_by_user k i = ltb_ℤ i.euid k.euid
  found sort_by_read k i = d.above k.read_val i.read_val
  found sort_by_write k i = d.above k.write_val i.write_val
  found sort_by_swapin k i = d.above k.swapin_val i.swapin_val
  found sort_by_io k i = d.above k.blkio_val i.blkio_val
  found sort_by_max k i = false

  -- An empty chain makes the last line write before the array: a fault.
  unfoldable pub sort_diff : SortBy → SortOrder → List XxxidStats → Option (List XxxidStats)
  unfolding exchange_sort found
  sort_diff by order [] = none
  sort_diff by sort_desc (s ∷ ss) = some (exchange_sort (found by) (chainlen (s ∷ ss)) (s ∷ ss))
  sort_diff by sort_asc (s ∷ ss) =
      some (reverse (exchange_sort (found by) (chainlen (s ∷ ss)) (s ∷ ss)))
