-- ===== src/Cgtop/Paths/Groups.antt =====
-- The paths of the files of a group, and of its child groups.
use lepd.Base.{
  ℕ, suc, ◌+◌, ◌≤◌, ◌<◌, ◌≡◌, refl, none, some, List, [], ◌∷◌, ◌++◌, length, arith, ap, sym, subst,
  ◌∙◌, append_assoc, append-nil, length-append, ◌⊎◌, inl, inr, ltb, Bool-cases, Option-cases,
}
use lepd.Base.CString.{c_string, strlen, bytes, NonZero, strlen-le, c_string-NonZero}
use lepd.Cgtop.{Malloc}
use lepd.Cgtop.Slashes.{path_kill_slashes}
use lepd.Cgtop.Slashes.Emitted.{slash}
use lepd.Cgtop.Slashes.Components.{components, absolute, components-append}
use lepd.Cgtop.Slashes.Canonical.{needed, needed_most, needed_doubled, path_kill_slashes-absolute}
use lepd.Cgtop.Paths.{
  strjoin, join_into, total_length, cgroup_root, cg_get_path, kill_joined, child_path,
}
use lepd.Cgtop.Paths.Joined.{concat_texts, length-concat_texts, strjoin-texts, strjoin_past}

-- What `cg_get_path` joins.
abbrev pub parts : List ℕ → List ℕ → List ℕ → List (List ℕ)
parts controller path suffix =
    cgroup_root ∷ controller ∷ (b'/' ∷ []) ∷ path ∷ (b'/' ∷ []) ∷ suffix ∷ []

-- The components of the file `suffix` of a group, from the texts.
abbrev pub group_file : List ℕ → List ℕ → List ℕ → List (List ℕ)
group_file controller path suffix =
    bytes "sys"
    ∷ bytes "fs"
    ∷ bytes "cgroup"
    ∷ (components controller ++ (components path ++ components suffix))

abbrev root_text : List ℕ
root_text = bytes "/sys/fs/cgroup"

-- The text joined, written from its slashes.
joined_text :
    (controller path suffix : List ℕ)
    → concat_texts (parts controller path suffix)
      ≡ root_text
        ++ (slash ∷ (c_string controller ++ (slash ∷ (c_string path ++ (slash ∷ c_string suffix)))))
unfolding concat_texts c_string
joined_text controller path suffix =
    ap
      (λ s.
        root_text ++ (slash ∷ (c_string controller ++ (slash ∷ (c_string path ++ (slash ∷ s))))))
      (append-nil (c_string suffix))

components-parts :
    (controller path suffix : List ℕ)
    → components (concat_texts (parts controller path suffix))
      ≡ group_file (c_string controller) (c_string path) (c_string suffix)
unfolding components
components-parts controller path suffix =
    ap components (joined_text controller path suffix)
    ∙ components-append root_text
        (c_string controller ++ (slash ∷ (c_string path ++ (slash ∷ c_string suffix))))
    ∙ ap (λ cs. components root_text ++ cs)
        (components-append (c_string controller) (c_string path ++ (slash ∷ c_string suffix))
          ∙ ap (λ cs. components (c_string controller) ++ cs)
              (components-append (c_string path) (c_string suffix)))

-- The path of the group starts with a slash, so that the text has two slashes in a row.
doubled_text :
    (controller path suffix below : List ℕ)
    → c_string path ≡ slash ∷ below
    → (a : List ℕ) × (b : List ℕ) × (concat_texts (parts controller path suffix)
        ≡ slash ∷ (a ++ (slash ∷ (slash ∷ b))))
doubled_text controller path suffix below from_root =
    let a : List ℕ = bytes "sys/fs/cgroup" in
    let b : List ℕ = below ++ (slash ∷ c_string suffix) in
    (
      a ++ (slash ∷ c_string controller),
      b,
      joined_text controller path suffix
          ∙ ap
              (λ p.
                root_text
                ++ (slash ∷ (c_string controller ++ (slash ∷ (p ++ (slash ∷ c_string suffix))))))
              from_root
          ∙ ap (◌∷◌ slash) (sym (append_assoc a (slash ∷ c_string controller) (slash ∷ slash ∷ b))),
    )

less-or_equal : (m n : ℕ) → m ≤ n → (m < n) ⊎ (m ≡ n)
less-or_equal m n h = elim (Bool-cases (ltb m n)) [
  | inl less ↦ inl (ground arith)
  | inr not_less ↦ inr (ground arith)
]

-- A terminated text in its block.
abbrev pub Holds : List ℕ → List ℕ → Type 0
Holds block text = (c_string block ≡ text) × (strlen block < length block)

-- In blocks of the bytes that `malloc` is asked for, or more, `cg_get_path` gives the absolute path of
-- the components of the control groups' directory, the controller, the group and the file, terminated
-- in its block, if the first block, which is not initialised, holds a 0. If it holds none, `strlen`
-- reads past it: a fault. The path of the group starts with a slash.
pub cg_get_path-absolute :
    (malloc : Malloc) (controller path suffix below b1 b2 : List ℕ)
    → c_string path ≡ slash ∷ below
    → malloc (total_length (parts controller path suffix) + 1) ≡ some b1
    → malloc (total_length (parts controller path suffix)) ≡ some b2
    → total_length (parts controller path suffix) + 1 ≤ length b1
    → total_length (parts controller path suffix) ≤ length b2
    → (strlen b1 < length b1
        → (fs : List ℕ) × ((cg_get_path malloc controller path suffix ≡ some (some fs))
            × Holds fs
                (absolute (group_file (c_string controller) (c_string path) (c_string suffix)))))
      × (strlen b1 ≡ length b1 → cg_get_path malloc controller path suffix ≡ none)
unfolding cg_get_path kill_joined
cg_get_path-absolute malloc controller path suffix below b1 b2 from_root got1 got2 size1 size2 = (
  λ has.
      let (t, (joined, (text, _))) =
        strjoin-texts malloc cgroup_root (parts_behind) b1 got1 (size1, has) in
      let long : strlen t ≡ total_length (parts controller path suffix) =
        ap length text ∙ length-concat_texts (parts controller path suffix) in
      let (a, b, doubled) = doubled_text controller path suffix below from_root in
      let whole : c_string t ≡ slash ∷ (a ++ (slash ∷ (slash ∷ b))) = text ∙ doubled in
      let fits : needed (c_string t) ≤ strlen t =
        subst (λ w. needed w ≤ length w) (sym whole)
          (needed_doubled a b (subst NonZero whole (c_string-NonZero t))) in
      let enough : needed (c_string t) ≤ length b2 = omega (arith, fits, size2, long) in
      let (fs, (killed, (is, size))) =
        (path_kill_slashes-absolute malloc t (a ++ (slash ∷ (slash ∷ b))) b2 whole
            (ap malloc long ∙ got2) (omega (arith, size2, long))).0
          enough in
      (
        fs,
        (
          rw (joined, killed) refl,
          (
            is ∙ ap absolute (ap components text ∙ components-parts controller path suffix),
            omega (arith, ap length is, size, enough),
          ),
        ),
      ),
  λ full.
      rw (strjoin_past malloc (parts controller path suffix) b1 got1 (omega (arith, full))) refl,
)
  where
    parts_behind : List (List ℕ)
    parts_behind = controller ∷ (b'/' ∷ []) ∷ path ∷ (b'/' ∷ []) ∷ suffix ∷ []

-- The components of the path of a child group.
abbrev pub child_components : List ℕ → List ℕ → List (List ℕ)
child_components path name = components (c_string path) ++ components (c_string name)

abbrev pub child_text : List ℕ → List ℕ → List ℕ
child_text path name = c_string path ++ (slash ∷ c_string name)

-- What `cg_read_subgroup` joins.
abbrev pub child_parts : List ℕ → List ℕ → List (List ℕ)
child_parts path name = path ∷ (b'/' ∷ []) ∷ name ∷ []

child_parts-text :
    (path name : List ℕ) → concat_texts (child_parts path name) ≡ child_text path name
unfolding concat_texts c_string
child_parts-text path name = ap (λ s. c_string path ++ (slash ∷ s)) (append-nil (c_string name))

module _ (malloc : Malloc) (path name b1 : List ℕ)
    (got : malloc (total_length (child_parts path name) + 1) ≡ some b1)
    (size : total_length (child_parts path name) + 1 ≤ length b1) where
  child_joined :
      strlen b1 < length b1
      → (t : List ℕ) × ((child_path malloc path name ≡ path_kill_slashes malloc t)
          × (c_string t ≡ child_text path name))
  unfolding child_path
  child_joined has =
      let (t, (joined, (text, _))) =
        strjoin-texts malloc path ((b'/' ∷ []) ∷ name ∷ []) b1 got (size, has) in
      (t, (rw joined refl, text ∙ child_parts-text path name))

  child_past : strlen b1 ≡ length b1 → child_path malloc path name ≡ none
  unfolding child_path
  child_past full =
      rw (strjoin_past malloc (child_parts path name) b1 got (omega (arith, full))) refl

module _ (malloc : Malloc) (path name below b1 block : List ℕ)
    (from_root : c_string path ≡ slash ∷ below)
    (got : malloc (total_length (child_parts path name) + 1) ≡ some b1)
    (size : total_length (child_parts path name) + 1 ≤ length b1)
    (allocated : malloc (length (child_text path name)) ≡ some block)
    (large : length (child_text path name) ≤ length block) where
  -- The path where the second block has room for it, and the fault where it has not.
  child_killed :
      strlen b1 < length b1
      → (length (child_text path name) < length block
          → (f : List ℕ) × ((child_path malloc path name ≡ some f)
              × Holds f (absolute (child_components path name))))
        × (absolute (child_components path name) ≡ child_text path name
            → length block ≡ length (child_text path name)
            → child_path malloc path name ≡ none)
  child_killed has =
      let (t, (run, text)) = child_joined malloc path name b1 got size has in
      let tail : List ℕ = below ++ (slash ∷ c_string name) in
      let whole : c_string t ≡ slash ∷ tail =
        text ∙ ap (λ p. p ++ (slash ∷ c_string name)) from_root in
      let most : needed (c_string t) ≤ suc (strlen t) =
        subst (λ w. needed w ≤ suc (length w)) (sym whole)
          (needed_most tail (subst NonZero whole (c_string-NonZero t))
            (omega (arith, length-append below (slash ∷ c_string name)))) in
      let parted : components (c_string t) ≡ child_components path name =
        ap components text ∙ components-append (c_string path) (c_string name) in
      let (in_room, in_less) =
        path_kill_slashes-absolute malloc t tail block whole
          (ap malloc (ap length text) ∙ allocated) (omega (arith, large, ap length text)) in
      (
        λ room.
            let enough : needed (c_string t) ≤ length block =
              omega (arith, room, most, ap length text) in
            let (f, (killed, (is, size'))) = in_room enough in
            (
              f,
              (run ∙ killed, (is ∙ ap absolute parted, omega (arith, ap length is, size', enough))),
            ),
        λ canonical exact.
            run
            ∙ in_less (omega (arith, ap length (ap absolute parted), ap length canonical, exact)),
      )

  -- In blocks of the bytes that `malloc` is asked for, or more: if the first, which is not
  -- initialised, holds a 0 and the second has a byte more than is asked for, the path of a child group
  -- is the absolute path of the components of the group and the name. If the second has exactly the
  -- bytes asked for and the joined path has no slash to drop, `cg_read_subgroup` faults, and so it
  -- does if the first holds no 0. The path of the group starts with a slash.
  pub child_path-absolute :
      (strlen b1 < length b1
        → length (child_text path name) < length block
        → (f : List ℕ) × ((child_path malloc path name ≡ some f)
            × Holds f (absolute (child_components path name))))
      × (absolute (child_components path name) ≡ child_text path name
          → length block ≡ length (child_text path name)
          → child_path malloc path name ≡ none)
      × (strlen b1 ≡ length b1 → child_path malloc path name ≡ none)
  child_path-absolute = (
    λ has. (child_killed has).0,
    λ canonical exact. elim (less-or_equal (strlen b1) (length b1) (strlen-le b1)) [
      | inl has ↦ (child_killed has).1 canonical exact
      | inr full ↦ child_past malloc path name b1 got size full
    ],
    child_past malloc path name b1 got size,
  )

-- `malloc` gives exactly the bytes that it is asked for, or NULL.
abbrev pub Exact : Malloc → Type 0
Exact malloc = (n : ℕ) (block : List ℕ) → malloc n ≡ some block → length block ≡ n

-- Where there is no byte to spare, no path of a child group is made of one that is absolute already.
pub child_path-Exact :
    (malloc : Malloc) (path name below : List ℕ)
    → Exact malloc
    → c_string path ≡ slash ∷ below
    → absolute (child_components path name) ≡ child_text path name
    → child_path malloc path name ≡ none
unfolding child_path strjoin join_into path_kill_slashes
child_path-Exact malloc path name below exact from_root canonical =
    elim (Option-cases (malloc (total_length (child_parts path name) + 1))) [
      | inl e ↦ rw e refl
      | inr (b1, got) ↦
          let size = exact (total_length (child_parts path name) + 1) b1 got in
          elim (Option-cases (malloc (length (child_text path name)))) [
            | inl e ↦ elim (less-or_equal (strlen b1) (length b1) (strlen-le b1)) [
              | inl has ↦
                  let (t, (run, text)) =
                    child_joined malloc path name b1 got (omega (arith, size)) has in
                  let none_given : malloc (strlen t) ≡ none = ap malloc (ap length text) ∙ e in
                  run ∙ rw none_given refl
              | inr full ↦ child_past malloc path name b1 got (omega (arith, size)) full
            ]
            | inr (block, allocated) ↦
                let size' = exact (length (child_text path name)) block allocated in
                (child_path-absolute malloc path name below b1 block from_root got
                    (omega (arith, size)) allocated (omega (arith, size'))).1
                  canonical size'
          ]
    ]
