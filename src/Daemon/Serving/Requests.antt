-- ===== src/Daemon/Serving/Requests.antt =====
-- What a client reads when it asks the server that `main` of src/server.c sets up.
use lepd.Base.{
  ℕ, ◌≤◌, ◌≡◌, ◌≢◌, refl, ◌∙◌, ap, subst, true, false, Option, none, some, List, [], ◌∷◌, ◌++◌, map,
  String, length, take,
}
use lepd.Base.CString.{c_string}
use lepd.Rpc.Json.{CJson, ObjectLaws}
use lepd.Rpc.Procedures.{Procedure, Table, no_procedures}
use lepd.Rpc.Procedures.Search.{IsTable, last_named}
use lepd.Base.Int.{pos}
use lepd.Rpc.Request.{Context, is_zero, eval_request}
use lepd.Rpc.Request.Replies.{IsResultReply}
use lepd.Rpc.Request.Dispatch.{IsRequest, reply_id, one_reply, called, eval_request_result}
use lepd.Daemon.{
  Lock, Builtin, World, LockEvent, acquires, releases, returned, endstring, read_limit,
}
use lepd.Daemon.Answers.{replied}
use lepd.Daemon.Listing.{Handler, run_builtin_handler}
use lepd.Daemon.Registered.{
  registrations, register_all, main-IsTable, target, Answers, commands-Answers,
}
use lepd.Daemon.Serving.{Journal, run_registered, c_function, c_procedure, c_table}
use lepd.Daemon.Serving.Lookup.{
  c_of, c_option, c_table-IsTable, last_named-map, last_named-All, CommandOf, commands-All,
}

-- `main` with memory leaves this table.
abbrev pub SetUp : Table Handler String → Type 0
SetUp t = register_all (record { array = true; string = true }) registrations no_procedures ≡ some t

SetUp-IsTable : (t : Table Handler String) → SetUp t → IsTable t registrations
SetUp-IsTable t run =
    let (t', run', v) = main-IsTable in
    let same : t' ≡ t = cc in subst (λ s. IsTable s registrations) same v

-- These locks were taken and given back, and no handler has stopped.
abbrev pub journal : List LockEvent → Journal
journal events = record { events = events; stopped = false }

-- The item of the text that a handler returned.
abbrev text_item : {N : Type 0} → (List ℕ → N) → Option (List ℕ) → Option N
text_item create_text none = none
text_item create_text (some text) = some (create_text text)

module _ (w : World) (stack : List ℕ) (j : CJson) (create_text : List ℕ → j.Node)
    (laws : ObjectLaws j) (t : Table Handler String) (set_up : SetUp t) (root : j.Node)
    (past : List LockEvent) where
  abbrev calls : Procedure Handler String → Option j.Node × Context × Journal
  calls p = called j Journal (c_procedure w t stack j create_text p) root (journal past)

  -- What a call of a handler that returns leaves.
  calls_returned :
      (p : Procedure Handler String) (r : Option (List ℕ))
      → (run_registered w t stack p.function p.data_ptr).outcome ≡ returned r
      → calls p ≡ (
        text_item create_text r,
        record { data_ptr = p.data_ptr; error_code = pos 0; error_message = none },
        journal (past ++ (run_registered w t stack p.function p.data_ptr).trace),
      )
  unfolding c_procedure c_function
  calls_returned p none back = rw back refl
  calls_returned p (some text) back = rw back refl

  -- A valid request for a method that `main` registers, whose handler returns, is answered by one
  -- reply: what the handler returned under the request's id, or no result if it returned NULL; the
  -- locks of the handler follow those before.
  pub request_returned :
      (m : String) (p : Procedure Handler String) (r : Option (List ℕ))
      → IsRequest j Journal root m
      → last_named registrations m ≡ some p
      → (run_registered w t stack p.function p.data_ptr).outcome ≡ returned r
      → (n : j.Node) × (eval_request j Journal
            (c_table w t stack j create_text t)
            root
            (journal past)
          ≡ some (
              one_reply j Journal
                (pos 0)
                n
                (journal (past ++ (run_registered w t stack p.function p.data_ptr).trace))))
        × IsResultReply j n (text_item create_text r) (reply_id j Journal root)
  request_returned m p r q found back =
      let call = calls_returned p r back in
      let fine : is_zero (calls p).1.error_code ≡ true = ap (λ c. is_zero c.1.error_code) call in
      let (n, run, reply) =
        eval_request_result j Journal (c_table w t stack j create_text t)
          (map (c_of w t stack j create_text) registrations)
          (c_table-IsTable w t stack j create_text t registrations (SetUp-IsTable t set_up)) root
          (journal past) laws m (c_procedure w t stack j create_text p) q
          (last_named-map w t stack j create_text registrations m
            ∙ ap (c_option w t stack j create_text) found)
          fine in
      (
        n,
        run ∙ ap (λ c. some (one_reply j Journal (pos 0) n c.2)) call,
        subst (λ c. IsResultReply j n c.0 (reply_id j Journal root)) call reply,
      )

  module _ (piped : w.pipe ≡ true)
      (writes : (f : Builtin) (argv : List String) → length (w.applet f argv).0 ≢ 0)
      (fits : (f : Builtin) (argv : List String) → length (w.applet f argv).0 ≤ w.capacity) where
    -- A valid request for a method that `main` registers with `run_builtin_cmd` goes to an applet, and
    -- is answered by one reply under the request's id: the text of the first 16370 bytes that the
    -- applet writes, with the end mark. The applet's lock is taken and given back. The world has a
    -- pipe, and every applet writes something, and no more than the pipe holds.
    pub request_command :
        (m d : String) (p : Procedure Handler String)
        → IsRequest j Journal root m
        → last_named registrations m ≡ some p
        → p.function ≡ run_builtin_handler
        → p.data_ptr ≡ some d
        → (l : Lock) × (f : Builtin) × (argv : List String) × (n : j.Node) × (target d
            ≡ some (l, f, argv))
          × (eval_request j Journal (c_table w t stack j create_text t) root (journal past)
              ≡ some
                  (one_reply j Journal (pos 0) n (journal (past ++ acquires l ∷ releases l ∷ []))))
          × IsResultReply j n
              (some (create_text (c_string (take read_limit (w.applet f argv).0) ++ endstring)))
              (reply_id j Journal root)
    unfolding run_registered
    request_command m d p q found runs line =
        let commands_answer =
          commands-All (Answers w) registrations (commands-Answers w piped writes fits) in
        let (l, f, argv, goes, e) =
          last_named-All (CommandOf (Answers w)) registrations m p commands_answer found d runs
            line in
        let handled : run_registered w t stack p.function p.data_ptr
            ≡ replied l (take read_limit (w.applet f argv).0) =
          rw (runs, line, run_registered) e in
        let (n, run, reply) =
          request_returned m p (some (c_string (take read_limit (w.applet f argv).0) ++ endstring))
            q found (ap (λ h. h.outcome) handled) in
        (
          l,
          f,
          argv,
          n,
          goes,
          run ∙ ap (λ h. some (one_reply j Journal (pos 0) n (journal (past ++ h.trace)))) handled,
          reply,
        )
