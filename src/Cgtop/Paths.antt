-- ===== src/Cgtop/Paths.antt =====
-- `strjoin`, `join_path` and the path of a child group of cgtop.c.
pub mod Joined
pub mod Groups
use lepd.Base.{
  ℕ, suc, ◌+◌, Option, none, some, List, [], ◌∷◌, ◌++◌, ◌>>=◌, if◌then◌else◌, ltb, replicate,
  length,
}
use lepd.Base.CString.{strlen, c_string, splice, bytes}
use lepd.Base.Strcat.{strcat}
use lepd.Cgtop.{Malloc, put}
use lepd.Cgtop.Slashes.{path_kill_slashes}

-- The sum of the lengths.
unfoldable pub total_length : List (List ℕ) → ℕ
total_length [] = 0
total_length (x ∷ xs) = strlen x + total_length xs

unfoldable pub strcat_all : List (List ℕ) → List ℕ → Option (List ℕ)
unfolding strcat
strcat_all [] r = some r
strcat_all (x ∷ xs) r = strcat r (c_string x) >>= strcat_all xs

-- `memset(r, 0, strlen(r))`, in a block that is not initialised: `strlen` reads up to a 0.
unfoldable pub clear_text : List ℕ → Option (List ℕ)
unfolding splice
clear_text r = if ltb (strlen r) (length r) then splice 0 (replicate (strlen r) 0) r else none

unfoldable pub fill : List (List ℕ) → List ℕ → Option (List ℕ)
unfolding strcat_all splice
fill [] r = put 0 0 r
fill (x ∷ xs) r = strcat_all (x ∷ xs) r

unfoldable pub join_into : List (List ℕ) → Option (List ℕ) → Option (Option (List ℕ))
unfolding clear_text fill
join_into xs none = some none
join_into xs (some r) = clear_text r >>= fill xs >>= λ r'. some (some r')

-- The arguments are those before the first NULL. The outer option is a fault, the inner one NULL.
unfoldable pub strjoin : Malloc → List (List ℕ) → Option (Option (List ℕ))
unfolding total_length join_into
strjoin malloc xs = join_into xs (malloc (total_length xs + 1))

abbrev pub cgroup_root : List ℕ
cgroup_root = bytes "/sys/fs/cgroup/"

unfoldable pub kill_joined : Malloc → Option (List ℕ) → Option (Option (List ℕ))
unfolding path_kill_slashes
kill_joined malloc none = some none
kill_joined malloc (some t) = path_kill_slashes malloc t >>= λ fs. some (some fs)

-- `none` inside is the answer -1.
unfoldable pub cg_get_path : Malloc → List ℕ → List ℕ → List ℕ → Option (Option (List ℕ))
unfolding strjoin kill_joined
cg_get_path malloc controller path suffix =
    strjoin malloc (cgroup_root ∷ controller ∷ (b'/' ∷ []) ∷ path ∷ (b'/' ∷ []) ∷ suffix ∷ [])
    >>= kill_joined malloc

-- The path of a child group, `fn` of `cg_read_subgroup`.
unfoldable pub child_path : Malloc → List ℕ → List ℕ → Option (List ℕ)
unfolding strjoin path_kill_slashes
child_path malloc path name =
    strjoin malloc (path ∷ (b'/' ∷ []) ∷ name ∷ []) >>= λ t. t >>= path_kill_slashes malloc
