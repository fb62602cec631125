-- ===== src/Lib.antt =====
-- The Linux Easy Profiling daemon: a JSON-RPC server (src/jsonrpc-c.c, include/jsonrpc-c.h) and the
-- procedures that it serves (src/server.c), with six of its applets
-- (src/modules/iotop, src/modules/procrank, irq_info and cgtop in src/modules/customization, and mpstat
-- and cpuinfo in src/modules/sysstat-lite).
--
-- The main thread accepts connections and hands each to one of five worker threads, by a queue of the
-- worker and a libev signal. A worker watches its connections: when bytes arrive, `connection_cb`
-- appends them to the connection's buffer, parses one JSON value, evaluates it if it is an object, and
-- discards its text. A request is evaluated by a search of the procedure table for its method and a
-- call of the procedure. The daemon's procedures read a file of /proc, run a built-in applet over a
-- pipe, or run a command through the shell, each under the lock of its command, and append an end
-- mark to what they answer.
--
-- Base: the shared names, lists over the native numbers, C strings and buffers, signed integers.
-- Rpc.Queue: `conn_queue` with `cq_init`, `cq_push` and `cq_pop`, over a heap of items.
-- Rpc.Procedures: the table of `jrpc_server` with `jrpc_register_procedure`,
--   `jrpc_deregister_procedure`, `jrpc_server_destroy`, and the search of `invoke_procedure`.
-- Rpc.Json: cJSON as a record of operations, with the laws that proofs assume of it; Rpc.Sample is a
--   small library of that kind for the tests.
-- Rpc.Reply, Rpc.Request: `send_response`, `send_error`, `send_result`, `invoke_procedure`,
--   `eval_request`.
-- Rpc.Connection: `jrpc_connection` and `connection_cb`.
-- Rpc.Workers: `thread_init`, `dispath_conn`, `accept_callback2` and `async_cb`.
-- Daemon: `lookup_func`, `read_proc`, `run_builtin_cmd`, `run_cmd`, the perf handlers, `list_all`, and
--   the registrations of `main`. Daemon.Serving: the handlers as the functions that `invoke_procedure`
--   calls.
-- Iotop: src/modules/iotop/src/views.c, the difference of two samples of the tasks' counters, its
--   order, and the rows of `view_batch`; `double` is a record of operations.
-- Iotop.Sampling: `pidgen_next` of src/modules/iotop/src/utils.c, `fetch_data` of xxxid_info.c beside
--   it, the filter and the loop of main.c. Iotop.Priority: ioprio.c.
-- Irq: `irq_info_main` of src/modules/customization/src/irq_info.c.
-- Cgtop: src/modules/customization/src/cgtop.c. Cgtop.Slashes: `path_kill_slashes`; Cgtop.Paths:
--   `strjoin`, `cg_get_path` and the paths of `cg_read_subgroup`; Cgtop.Lines: `strstrip`, `first_word`,
--   `read_one_line_file` and the lines of blkio.io_service_bytes; Cgtop.Usage: the counts of a group;
--   Cgtop.Walk: `process`, `refresh_one`, `cg_read_subgroup` and `refresh`; Cgtop.Main: `display` and `cgtop_main`.
-- Procrank: src/modules/procrank/src/procrank.c; `qsort` and libpagemap are arguments.
--   Procrank.MemInfo: `print_mem_info`, with `atoll` as an argument.
-- Sysstat: src/modules/sysstat-lite/src, the usage of the processors. Sysstat.Cpu: the counters of a
--   processor, the intervals and percentages of common.c; Sysstat.Stat: `read_stat_cpu` of rd_stats.c;
--   Sysstat.Mpstat: mpstat.c, the rows in plain format, `write_stats_core` and `rw_mpstat_loop`;
--   Sysstat.Irqs: the reading and the tables of interrupts of mpstat.c, which stand beside that loop;
--   Sysstat.Count: the count of processors of count.c; Sysstat.Cpuinfo: cpuinfo.c. `sscanf` is an argument.
--
-- How state and operations correspond: a struct is a record; a pointer that may be NULL is an Option,
-- or an address in a heap where aliasing matters; the data
-- pointers of procedures carry the set of those that `free` accepts; a buffer is a list of bytes of its allocated size. A
-- function that can fault (a write outside a buffer, a NULL dereference) returns an Option, or an
-- outcome of its own in Daemon. The allocator, `read`, `accept`, `pipe`, `popen` and the applets are
-- arguments.
--
-- Bounds: three loops run on fuel. For `drain`, the loop of `async_cb`, any fuel above the number of
-- waiting connections is enough; for the loop of `fetch_data`, any above the number of tasks; for
-- that of `print_mem_info`, any above the length of the text.
-- `refresh_one` recurses on 4 less its depth, as many levels as it visits. `round_robin` is an `int`
-- whose overflow is a fault. Buffer sizes are those of the source.
--
-- Not modelled: sockets and the start of the server, libev's own loop, the sends' partial writes, and
-- memory that is only freed; of iotop, the netlink messages and the command lines; of
-- procrank, a failing `fdopen`, the usage, and libpagemap, a copy of another project's library; of
-- mpstat, the rounds of its loop behind a `pause`, the interrupts there, the JSON format and most
-- options; of the worker threads, failures to allocate; iostat, and the forks of procps and BusyBox.
-- A hand-over and a worker's callback are each one step: a queue's mutex makes its operations atomic.
-- The applets under src/modules are arguments of Daemon. cJSON is a copy of another project's library.
pub mod Base
pub mod Rpc
pub mod Daemon
pub mod Iotop
pub mod Irq
pub mod Cgtop
pub mod Procrank
pub mod Sysstat
