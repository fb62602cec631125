-- ===== src/Iotop/Priority.antt =====
-- The text of a priority, src/modules/iotop/src/ioprio.c: the class and a number, at most four
-- characters. The scheduler of a task and its nice value are arguments.
mod Examples
use lepd.Base.{
  ℕ, zero, suc, ◌+◌, ◌-◌, ◌*◌, ◌/◌, ◌%◌, ◌≤◌, ◌<◌, ◌≡◌, refl, ap, Bool, true, false, Option, none,
  some, List, [], ◌∷◌, ◌++◌, String, if◌then◌else◌, ◌>>=◌, leb, ltb, ◌==◌, get_elem?, take, arith,
}
use lepd.Base.CString.{bytes}
use lepd.Base.Int.{ℤ, pos, negsuc}

-- The policies of `sched_getscheduler` that the code tells apart.
pub data Policy : Type 0 where
  sched_fifo sched_rr sched_idle sched_other : Policy

abbrev pub str_ioprio_class : List String
str_ioprio_class = "-" ∷ "rt" ∷ "be" ∷ "id" ∷ []

abbrev pub ioprio_class_max : ℕ
ioprio_class_max = 4

-- `%2s`
abbrev pad_2 : List ℕ → List ℕ
pad_2 [] = b' ' ∷ b' ' ∷ []
pad_2 (c ∷ []) = b' ' ∷ c ∷ []
pad_2 (c ∷ e ∷ s) = c ∷ e ∷ s

abbrev digit : ℕ → ℕ
digit n = b'0' + n

-- `%1i` of a number below 1000: the callers give one below 256.
unfoldable pub decimal : ℕ → List ℕ
decimal n =
    if ltb n 10
    then digit n ∷ []
    else (if ltb n 100
        then digit (n / 10) ∷ digit (n % 10) ∷ []
        else digit (n / 100) ∷ digit (n / 10 % 10) ∷ digit (n % 10) ∷ [])

-- `snprintf` into the five bytes of `buf`.
unfoldable pub print_level : String → ℕ → List ℕ
unfolding decimal
print_level name n = take 4 (pad_2 (bytes name) ++ (b'/' ∷ decimal n))

abbrev pub corrupted : List ℕ
corrupted = bytes "xx/x"

-- `io_prio >> 13` of a negative number is negative: an index before the array, a fault.
unfoldable pub str_ioprio : ℤ → Option (List ℕ)
unfolding print_level
str_ioprio (negsuc n) = none
str_ioprio (pos n) =
    let io_class = n / 8192 in
    if leb ioprio_class_max io_class
    then some corrupted
    else get_elem? str_ioprio_class io_class >>= λ name. some (print_level name (n % 256))

-- The class of a task without one.
abbrev pub default_class : Policy → ℕ
default_class sched_fifo = 1
default_class sched_rr = 1
default_class sched_idle = 3
default_class sched_other = 2

-- `nice_20` is the nice value and 20, which is not negative.
unfoldable pub str_ioprio_ext : ℤ → Policy → ℕ → Option (List ℕ)
unfolding print_level
str_ioprio_ext (negsuc n) policy nice_20 = none
str_ioprio_ext (pos n) policy nice_20 =
    let io_class = n / 8192 in
    if leb ioprio_class_max io_class
    then some corrupted
    else (if io_class == 0
        then (get_elem? str_ioprio_class (default_class policy) >>= λ name.
            some (print_level name (nice_20 / 5)))
        else get_elem? str_ioprio_class io_class >>= λ name. some (print_level name (n % 256)))

-- The classes of `ioprio_set`.
pub data Class : Type 0 where
  realtime best_effort idle : Class

abbrev pub class_number : Class → ℕ
class_number realtime = 1
class_number best_effort = 2
class_number idle = 3

abbrev class_name : Class → List ℕ
class_name realtime = bytes "rt"
class_name best_effort = bytes "be"
class_name idle = bytes "id"

abbrev pub default_of : Policy → Class
default_of sched_fifo = realtime
default_of sched_rr = realtime
default_of sched_idle = idle
default_of sched_other = best_effort

abbrev first_digit : ℕ → ℕ
first_digit n = if ltb n 10 then n else (if ltb n 100 then n / 10 else n / 100)

-- The name of a class, a slash and the first digit of a level.
abbrev pub level_text : Class → ℕ → List ℕ
level_text c n = class_name c ++ (b'/' ∷ (b'0' + first_digit n) ∷ [])

take-decimal : (n : ℕ) → take 1 (decimal n) ≡ (b'0' + first_digit n) ∷ []
unfolding decimal
take-decimal n = ground arith

print_level-class :
    (c : Class) (n : ℕ)
    → (get_elem? str_ioprio_class (class_number c) >>= λ name. some (print_level name n))
      ≡ some (level_text c n)
unfolding print_level
print_level-class realtime n = ap (λ (t : List ℕ). some (b'r' ∷ b't' ∷ b'/' ∷ t)) (take-decimal n)
print_level-class best_effort n =
    ap (λ (t : List ℕ). some (b'b' ∷ b'e' ∷ b'/' ∷ t)) (take-decimal n)
print_level-class idle n = ap (λ (t : List ℕ). some (b'i' ∷ b'd' ∷ b'/' ∷ t)) (take-decimal n)

class_number-bounds : (c : Class) → (0 < class_number c) × (class_number c < 4)
class_number-bounds realtime = omega arith
class_number-bounds best_effort = omega arith
class_number-bounds idle = omega arith

default_class-default_of : (q : Policy) → default_class q ≡ class_number (default_of q)
default_class-default_of sched_fifo = refl
default_class-default_of sched_rr = refl
default_class-default_of sched_idle = refl
default_class-default_of sched_other = refl

-- For each of the three classes and each level below 256 that `ioprio_set` was given, `str_ioprio_ext`
-- and `str_ioprio` print the name of the class and the first digit of the level, which is the level
-- below 10; a task without a class gets that of its policy, with a level from 0 to 7 by its nice value
-- from -20 to 19; and -1, the error of `ioprio_get`, makes both read before the table of names.
pub str_ioprio_ext-eq :
    (c : Class) (level nice_20 : ℕ) (policy : Policy)
    → level < 256
    → nice_20 < 40
    → (str_ioprio_ext (pos (class_number c * 8192 + level)) policy nice_20
        ≡ some (level_text c level))
      × (str_ioprio (pos (class_number c * 8192 + level)) ≡ some (level_text c level))
      × (str_ioprio_ext (pos level) policy nice_20
          ≡ some (level_text (default_of policy) (nice_20 / 5)))
      × (nice_20 / 5 < 8)
      × (str_ioprio_ext (negsuc 0) policy nice_20 ≡ none)
      × (str_ioprio (negsuc 0) ≡ none)
unfolding str_ioprio_ext str_ioprio
str_ioprio_ext-eq c level nice_20 policy small nice =
    let (some_class, known) = class_number-bounds c in
    let class_is : (class_number c * 8192 + level) / 8192 ≡ class_number c = omega arith in
    let level_is : (class_number c * 8192 + level) % 256 ≡ level = omega arith in
    let no_class : level / 8192 ≡ 0 = omega arith in
    let valid : leb ioprio_class_max (class_number c) ≡ false = ground arith in
    let set : (class_number c == 0) ≡ false = ground arith in
    (
      rw (class_is, level_is, valid, set) (print_level-class c level),
      rw (class_is, level_is, valid) (print_level-class c level),
      rw (no_class, default_class-default_of policy)
          (print_level-class (default_of policy) (nice_20 / 5)),
      omega arith,
      refl,
      refl,
    )
