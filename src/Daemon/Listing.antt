-- ===== src/Daemon/Listing.antt =====
-- `list_all` of src/server.c over the table of procedures, and what it answers.
use lepd.Base.{
  ℕ, zero, suc, ◌+◌, ◌<◌, ◌≡◌, refl, sym, ◌∙◌, ap, Option, none, some, List, [], ◌∷◌, ◌++◌, map,
  String, ◌>>=◌, replicate, length, arith, append_assoc, append-nil, length-append,
  length-replicate, All,
}
use lepd.Base.CString.{c_string, NonZero, bytes, c_string_before}
use lepd.Rpc.Procedures.{Procedure, Table}
use lepd.Rpc.Procedures.Search.{cells, IsTable}
unfoldable use lepd.Base.Strcat.{strcat}
use lepd.Base.Strcat.{strcat_lem}
use lepd.Daemon.{endstring, proc_buff_size, cmd_buff_size}
use lepd.Daemon.EndMark.{endstring-NonZero}

pub data Handler : Type 0 where
  say_hello list_all read_proc_handler run_builtin_handler : Handler
  perf_report_handler perf_script_handler : Handler

-- The loop of `list_all` over the cells of the table; a cell without a name is a NULL text.
unfoldable pub append_names :
    ℕ → List (Option (Procedure Handler String)) → List ℕ → Option (List ℕ)
unfolding strcat
append_names zero ps buf = some buf
append_names (suc n) [] buf = none
append_names (suc n) (none ∷ ps) buf = none
append_names (suc n) (some p ∷ ps) buf =
    strcat buf (bytes p.name) >>= λ b. strcat b (b' ' ∷ []) >>= append_names n ps

-- Only the first half of the buffer is zeroed: the rest holds what the stack held.
unfoldable pub list_all_text : Table Handler String → List ℕ → Option (List ℕ)
unfolding append_names strcat
list_all_text t stack =
    append_names t.procedure_count (cells t) (replicate proc_buff_size 0 ++ stack) >>= λ b.
    strcat b endstring >>= λ b'. some (c_string b')

-- What the loop adds to the text: each name with a space behind it.
abbrev pub listed : List (Procedure Handler String) → List ℕ
listed [] = []
listed (p ∷ ps) = bytes p.name ++ (b' ' ∷ listed ps)

-- The text behind two calls of `strcat` and the rest of the loop.
listed_text :
    (start one two all name rest : List ℕ)
    → one ≡ start ++ name
    → two ≡ one ++ b' ' ∷ []
    → all ≡ two ++ rest
    → all ≡ start ++ (name ++ (b' ' ∷ rest))
listed_text start one two all name rest e1 e2 e3 =
    e3
    ∙ ap (λ (t : List ℕ). t ++ rest) (e2 ∙ ap (λ (t : List ℕ). t ++ b' ' ∷ []) e1)
    ∙ append_assoc (start ++ name) (b' ' ∷ []) rest
    ∙ append_assoc start name (b' ' ∷ rest)

append_names-listed :
    (ps : List (Procedure Handler String)) (b : List ℕ)
    → All (λ p. NonZero (bytes p.name)) ps
    → length (c_string b) + length (listed ps) < length b
    → (b' : List ℕ) × (append_names (length ps) (map some ps) b ≡ some b')
      × (c_string b' ≡ c_string b ++ listed ps)
      × (length b' ≡ length b)
unfolding append_names
append_names-listed [] b h room = (b, refl, sym (append-nil (c_string b)), refl)
append_names-listed (p ∷ ps) b h room =
    let more = length-append (bytes p.name) (b' ' ∷ listed ps) in
    let (b1, e1, text1, size1) = strcat_lem b (bytes p.name) h.0 (omega arith) in
    let long1 = ap length text1 ∙ length-append (c_string b) (bytes p.name) in
    let (b2, e2, text2, size2) = strcat_lem b1 (b' ' ∷ []) (omega arith) (omega arith) in
    let long2 = ap length text2 ∙ length-append (c_string b1) (b' ' ∷ []) in
    let (b3, e3, text3, size3) = append_names-listed ps b2 h.1 (omega arith) in
    (
      b3,
      rw (e1, e2) e3,
      listed_text (c_string b) (c_string b1) (c_string b2) (c_string b3) (bytes p.name) (listed ps)
          text1 text2 text3,
      omega arith,
    )

listed_from :
    (ps : List (Procedure Handler String)) (start : List ℕ)
    → All (λ p. NonZero (bytes p.name)) ps
    → c_string start ≡ []
    → length start ≡ cmd_buff_size
    → length (listed ps) < 16371
    → (b : List ℕ) × (b' : List ℕ) × (append_names (length ps) (map some ps) start ≡ some b)
      × (strcat b endstring ≡ some b')
      × (c_string b' ≡ listed ps ++ endstring)
listed_from ps start names empty size short =
    let (b, e, text, same) = append_names-listed ps start names (omega (arith, ap length empty)) in
    let text' : c_string b ≡ listed ps = rw empty at text in
    let (b', e', all, _) =
      strcat_lem b endstring endstring-NonZero (omega (arith, ap length text')) in
    (b, b', e, e', rw text' at all)

-- `list_all` answers the names of the table, in order of registration, a space behind each, and the
-- end mark, whatever the stack held, if the names with their spaces are shorter than 16371 bytes and
-- no name holds a 0.
pub list_all_text-listed :
    (t : Table Handler String) (ps : List (Procedure Handler String)) (stack : List ℕ)
    → IsTable t ps
    → All (λ p. NonZero (bytes p.name)) ps
    → length stack + proc_buff_size ≡ cmd_buff_size
    → length (listed ps) < 16371
    → list_all_text t stack ≡ some (listed ps ++ endstring)
unfolding list_all_text
list_all_text-listed t ps stack v names size short =
    let (b, b', e, e', text) =
      listed_from ps (replicate proc_buff_size 0 ++ stack) names
        (c_string_before [] (replicate 8191 0 ++ stack) tt)
        (omega (
          arith,
          length-append (replicate {A = ℕ} proc_buff_size 0) stack,
          length-replicate {A = ℕ} proc_buff_size 0,
        ))
        short in
    rw (v.counted, v.written, e, e') (ap some text)
