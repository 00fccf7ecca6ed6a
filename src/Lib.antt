-- ===== src/Lib.antt =====
-- easyipc is a daemon that connects processes on one machine, with a library for the processes.
-- A process joins the daemon under a name, registers the messages that it takes and the API
-- functions that it offers, sends messages to whoever has registered for them, and calls
-- functions of other processes, whose answers come back through the daemon. This library models
-- the daemon, the client library, the lists that both are built on, the log, the configuration
-- file, the plugins and the console programs.
--
-- Base, with Base.Tests, Base.Lists, Base.Text, Base.Int and Base.Scan: shared names, Boolean
-- tests, lists, C strings as lists of bytes, C's signed integers as unbounded ones, and the
-- numbers that `atoi` and `sscanf` read.
--
-- Memory: a heap of list nodes and allocated blocks. A command faults where C has no defined
-- behaviour: at `NULL`, at a freed node, at a second `free`.
--
-- Dlist: src/dlist.c and exp_inc/dlist.h, function by function (`create` is `dlist_create`,
-- `add` is `dlist_add` and so on), on that heap. Its children tell the operations on the list
-- that memory holds: Chain, Walk, Splice, Cut, Insert, Erase, Life, Create. The other components
-- keep their lists as sequences, which is what these results allow.
--
-- Time: `timespec_diff`, `timespec_sum` and `timeraddMS` of include/easyipc_daemon.h.
--
-- Wire: the packets of include/easyipc_daemon.h and exp_inc/easyipc_base.h, and the effects of
-- the daemon: datagrams and log records.
--
-- Registry: the table `mlist` of src/easyipc_daemon.c and the functions that change it,
-- `ipcd_register_api` to `ipcd_exit`. Unique, Names, Join and Rejoin hold what is shown of them.
--
-- Daemon: the state of src/easyipc_daemon.c with its queues. Probe has the threads that
-- distribute calls and messages, Sweep the two clock threads, Analysis `ipcd_analysis_core`, one
-- handler for each kind of packet, Order the threads as steps of one system, and Start `main`.
-- Queues, Routing, Timeouts, Answers, Order.Numbers, Order.Handlers and Order.Invariant hold
-- what is shown of them.
--
-- Client: src/easyipc_support.c. The handle is the record `Client`; Handlers has the
-- registrations, Receive the switch over received packets and the functions that run the
-- application's, Calls `ipc_call_api` and, in Calls.Returned, its way to the provider and back,
-- Create `ipc_creat`, Pull the pulls of the probing threads, Dispatch what a message runs,
-- Unregister what a withdrawal drops.
--
-- Log: the log of src/easyipc_debug.c, with Format for the text of a record, Ring for its ring,
-- File for the log file and Written for what that holds.
--
-- Config: the reader of src/easyipc_conf_support.c, from the bytes of a file to the value of a
-- name, with Values for its lines and Files for whole files; Settings has the settings of the
-- daemon and the library.
--
-- Plugin: src/easyipc_plugin.c, with what the messages set off. Parse reads the JSON tree of a
-- file, Load has the files, Clean takes them away, View prints them. Registered, Triggered,
-- Parsed, Masked, Load.Again and Clean.Cleaned hold what is shown of them.
--
-- Misc: what src/easyipc_misc.c prints of the log, with Listing for the table of processes and
-- Selected for the choice of records; Agree compares it with the console's own reader, Logged
-- and Kept follow a record from its format through the ring to what is shown. Broadcast sends
-- what the daemon prints to the console programs.
--
-- Control: `ipcctl_analysis_core`, the daemon's answers to the console.
--
-- Console: the programs of src/easyipc_console.c, with Params for the parameters of a message.
-- Encoded, Decoded, Queried and Printed follow them through the daemon.
--
-- Tests: concrete data.
--
-- The parts meet in the packets. A client's operation returns the packets that it sends; the
-- daemon's `analysis_core` takes a packet and the state and returns the new state with its
-- datagrams, whose content is what the client's `recv_analysis` takes. A call enters the
-- client's waiting list under its own id and the daemon's queues under a magic number; the
-- provider returns both numbers with its result.
--
-- Walks over a list in memory run on fuel. The results ask for more fuel than the list has
-- entries, and show that the walk then ends. Loops over sequences are structural, or run on the
-- length that the code reads before the loop.
--
-- A lock is held in each round of a thread, so a round is one step. A semaphore is a number, and
-- a pull at 0 waits. Where the code's behaviour is not defined, the outcome says so
-- (`join_undefined`, `fault`, `runs_null`). The texts of log records are constructors of `Note`
-- with their arguments. `malloc` outside src/dlist.c gives memory, since the code ends the
-- process otherwise. Integers that only count, ports and pids are natural numbers that do not
-- overflow; a call's remaining time is signed. Sizes of structures, the configured packet limit,
-- the clock and the functions of the application are parameters.
--
-- Not modelled: src/cjson.c is a copy of the cJSON library, and what src/easyipc_plugin.c reads
-- of a tree is the parameter `Cjson`; src/easyipc_backtrace.c handles signals; sockets, threads,
-- terminal and files are the operating system's, and `getopt` gives options as values. A
-- negative size of the log, for which nothing is kept, is not modelled.
pub mod Base
pub mod Memory
pub mod Dlist
pub mod Time
pub mod Wire
pub mod Registry
pub mod Daemon
pub mod Client
pub mod Log
pub mod Config
pub mod Plugin
pub mod Misc
pub mod Control
pub mod Console
pub mod Tests
