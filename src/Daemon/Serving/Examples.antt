-- ===== src/Daemon/Serving/Examples.antt =====
-- Requests to the server in a small world.
use lepd.Base.{ℕ, ◌≡◌, refl, true, none, some, List, [], ◌∷◌, ◌++◌, String, length, take, arith}
use lepd.Base.CString.{c_string}
use lepd.Base.Int.{pos}
use lepd.Rpc.Sample.{Doc, request, sample_json, sample_laws}
use lepd.Rpc.Procedures.{Table}
use lepd.Rpc.Procedures.Search.{last_named}
use lepd.Rpc.Reply.{method_of, params_allowed, id_allowed}
use lepd.Rpc.Request.{eval_request}
use lepd.Rpc.Request.Replies.{IsResultReply}
use lepd.Rpc.Request.Dispatch.{IsRequest, one_reply}
use lepd.Daemon.{Lock, Builtin, World, acquires, releases, endstring, read_limit}
use lepd.Daemon.Listing.{Handler, say_hello, run_builtin_handler}
use lepd.Daemon.Registered.{main-IsTable, target}
use lepd.Daemon.Serving.{Journal, hello_text, run_registered, c_table}
use lepd.Daemon.Serving.Requests.{SetUp, journal, request_returned, request_command}

abbrev small : World
small = record {
  file = λ path. none;
  pipe = true;
  capacity = 65536;
  applet = λ f argv. (b'a' ∷ b'b' ∷ [], true);
  popen = λ before command. none;
}

-- The small JSON library has no text of bytes; an item of the length stands for it.
abbrev item : List ℕ → Doc
item t = Doc.number (pos (length t))

abbrev server : Table Handler String
server = main-IsTable.0

asked : (m : String) → IsRequest sample_json Journal (request m) m
unfolding method_of params_allowed id_allowed
asked m = record { method = refl; params = refl; id = refl }

-- `main` with memory.
server-SetUp : SetUp server
server-SetUp = main-IsTable.1

request_returned_example :
    (n : Doc) × (eval_request sample_json Journal
        (c_table small server [] sample_json item server)
        (request "SayHello")
        (journal [])
      ≡ some (one_reply sample_json Journal (pos 0) n (journal [])))
    × IsResultReply sample_json n (some (item hello_text)) none
unfolding last_named run_registered
request_returned_example =
    request_returned small [] sample_json item sample_laws server server-SetUp (request "SayHello")
      [] "SayHello" (record { name = "SayHello"; function = say_hello; data_ptr = none })
      (some hello_text) (asked "SayHello") refl refl

request_command_example :
    (l : Lock) × (f : Builtin) × (argv : List String) × (n : Doc) × (target "df -h"
      ≡ some (l, f, argv))
    × (eval_request sample_json Journal
          (c_table small server [] sample_json item server)
          (request "GetCmdDf")
          (journal [])
        ≡ some (one_reply sample_json Journal (pos 0) n (journal (acquires l ∷ releases l ∷ []))))
    × IsResultReply sample_json n
        (some (item (c_string (take read_limit (small.applet f argv).0) ++ endstring)))
        none
unfolding last_named
request_command_example =
    request_command small [] sample_json item sample_laws server server-SetUp (request "GetCmdDf")
      [] refl (λ f argv. omega arith) (λ f argv. omega arith) "GetCmdDf" "df -h"
      (record { name = "GetCmdDf"; function = run_builtin_handler; data_ptr = some "df -h" })
      (asked "GetCmdDf") refl refl refl
