-- ===== src/Rpc/Workers.antt =====
-- The threads of src/jsonrpc-c.c: `accept_callback2` and `dispath_conn` on the main thread, which
-- hand connections to the worker threads in turn, and `async_cb` of a worker, which makes a watched
-- connection of each item in its queue. A result `none` is a fault, or a loop that ran out of fuel.
pub mod Worker
pub mod Turns
pub mod Shares
pub mod Rounds
pub mod Settling
pub mod Accepts
mod Examples
use lepd.Base.{
  ℕ, zero, suc, ◌+◌, ◌%◌, ◌^◌, Bool, true, false, Option, none, some, List, [], ◌∷◌, ◌++◌, String,
  if◌then◌else◌, ◌==◌, ◌>>=◌, ltb, get_elem?, set,
}
use lepd.Base.Int.{ℤ, negsuc}
use lepd.Rpc.Queue.{ConnQueueItem, ConnQueue, Heap, update, cq_init, cq_pop, cq_push}
use lepd.Rpc.Connection.{Connection, new_connection}

-- A worker with its queue and the connections that its loop watches. `signalled` is the async watcher,
-- pending or not. The items of the queue lie in a heap of the worker's own, whose cells from
-- `next_cell` on were never allocated: `calloc` returns one that is not in use.
pub record WorkThread : Type 0 where
  pub heap : Heap
  pub next_cell : ℕ
  pub new_conn_queue : ConnQueue
  pub signalled : Bool
  pub watchers : List Connection

pub record Threads : Type 0 where
  pub work_threads : List WorkThread
  pub init_count : ℕ
  pub round_robin : ℕ

unfoldable pub setup_thread : WorkThread
unfolding cq_init
setup_thread = record {
  heap = λ a. none;
  next_cell = 0;
  new_conn_queue = cq_init;
  signalled = false;
  watchers = [];
}

abbrev repeat : ℕ → WorkThread → List WorkThread
repeat zero w = []
repeat (suc n) w = w ∷ repeat n w

-- `thread_init` returns when each of the five workers has counted itself.
unfoldable pub thread_init : Threads
unfolding setup_thread
thread_init = record { work_threads = repeat 5 setup_thread; init_count = 5; round_robin = 0 }

-- What the main thread knows of a new connection.
pub record NewConn : Type 0 where
  pub newfd : ℤ
  pub sz_addr : String
  pub port : ℕ
  pub data_ptr : ℕ

abbrev pub item_of : NewConn → ConnQueueItem
item_of n = record {
  sfd = n.newfd;
  sz_addr = n.sz_addr;
  port = n.port;
  next = none;
  data_ptr = n.data_ptr;
}

-- The item is allocated, filled and pushed, and the worker is signalled.
unfoldable pub hand_to : NewConn → WorkThread → Option WorkThread
hand_to n w =
    cq_push w.new_conn_queue w.next_cell (update w.heap w.next_cell (item_of n)) >>= λ (cq, h).
    some (record w { heap = h; next_cell = suc w.next_cell; new_conn_queue = cq; signalled = true })

-- `round_robin` is an `int`: its increment past 2^31 - 1 is undefined. So is a remainder by 0.
abbrev pub int_max : ℕ
int_max = 2147483647

unfoldable pub dispath_conn : NewConn → Threads → Option Threads
unfolding hand_to
dispath_conn n s =
    if s.init_count == 0
    then none
    else (let robin = s.round_robin % s.init_count in
        get_elem? s.work_threads robin >>= λ w. hand_to n w >>= λ w'.
        if ltb s.round_robin int_max
        then some (record s {
          work_threads = set s.work_threads robin w';
          round_robin = suc s.round_robin;
        })
        else none)

-- What `accept` returned: a descriptor with the peer's address, an error that passes, or another.
pub data Accept : Type 0 where
  accepted : ℕ → String → ℕ → Accept
  again : Accept
  failed : Accept

-- The loop of `accept_callback2` over the results of `accept`: the descriptor is -1 after an error
-- that does not pass, and the address is then what `sin` held before.
unfoldable pub accept_conn : List Accept → String → ℕ → ℕ → Option NewConn
accept_conn [] addr port server = none
accept_conn (again ∷ rs) addr port server = accept_conn rs addr port server
accept_conn (accepted fd addr' port' ∷ rs) addr port server =
    some (record { newfd = ℤ.pos fd; sz_addr = addr'; port = port'; data_ptr = server })
accept_conn (failed ∷ rs) addr port server =
    some (record { newfd = negsuc 0; sz_addr = addr; port = port; data_ptr = server })

unfoldable pub accept_callback2 : List Accept → String → ℕ → ℕ → Threads → Option Threads
unfolding accept_conn dispath_conn
accept_callback2 rs addr port server s = accept_conn rs addr port server >>= λ n. dispath_conn n s

-- The loop of `async_cb`: it ends when the queue is empty.
unfoldable pub drain : ℕ → ℕ → WorkThread → Option WorkThread
drain zero debug_level w = none
drain (suc fuel) debug_level w = cq_pop w.new_conn_queue w.heap >>= λ (popped, cq). elim popped [
  | none ↦ some (record w { new_conn_queue = cq })
  | some a ↦ w.heap a >>= λ item. drain fuel debug_level (record w {
    heap = λ b. if b == a then none else w.heap b;
    new_conn_queue = cq;
    watchers = w.watchers ++ new_connection item.sfd debug_level ∷ [];
  })
]

-- libev clears the pending signal, then calls back.
unfoldable pub async_cb : ℕ → ℕ → WorkThread → Option WorkThread
unfolding drain
async_cb fuel debug_level w = drain fuel debug_level (record w { signalled = false })
