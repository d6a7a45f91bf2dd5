-- ===== src/Lib.antt =====
-- A model of the parts of the workflow library in workflow-step-by-step/src that decide something
-- by themselves: the HTTP message parser, the queue of a series of tasks, the URI parser, the
-- string utilities, the communication scheduler, the poller, parallel tasks, the queues of the executor, the addresses of
-- an upstream, the LRU cache and the DNS cache over it.
--
-- The files. Each component is a module, and what is proved of it stands in the modules below it.
--   Ctype, Cstring: the C functions that the program calls (isdigit, strcmp, strcasecmp, atoi,
--     strtol and others), as their standard documents them in the C locale on 64-bit Linux. A C
--     string is the list of its bytes before the NUL.
--   HttpParser: protocol/http_parser.h and http_parser.c. HttpParser.antt has the struct and the
--     setters; Header the header lines and the cursor; StartLine, Field and Message the parsing of
--     the header (__parse_start_line, __parse_header_name, __parse_header_value,
--     __match_message_header, __parse_message_header); Chunk the chunked body; Append
--     http_parser_append_message, which calls Message and Chunk, and http_parser_get_body.
--   Series: factory/Workflow.h and Workflow.cc, the class SeriesWork. Its array, its indices and
--     its flags are the fields of a record; Series.Spec describes it as a sequence without an end,
--     and Series.Deque is the interface between the two.
--   Uri: util/URIParser.h and URIParser.cc. Uri.antt has the life cycle of ParsedURI, Uri.Parse
--     the parser, Uri.Query the query functions. Uri.Parse.Classes and
--     Uri.Parse.Printed describe URIs without the parser, and Uri.Parse.Outcome and
--     Uri.Parse.RoundTrip compare it with them. Uri.Parse uses Strings.Codec for the host, and
--     Uri.Query uses Strings.Split.
--   Strings: util/StringUtil.cc. Codec has the URL coding, Split the splitting and start_with,
--     Strip the stripping.
--   TargetHeap, Scheduler: kernel/CommScheduler.h and CommScheduler.cc. TargetHeap is the heap of a
--     CommSchedGroup, over any order of its targets (heap_adjust, heapify, heap_insert,
--     heap_remove); TargetHeap.Keeps, Insert and Remove say what the scheduler needs of it.
--     Scheduler is the group with its targets (acquire, release, add, remove, request); its order
--     is that of the loads, and changes with them. Scheduler.Steps lets threads take turns.
--   Poller: kernel/poller.h and poller.c. Poller.antt has the state, the lists and the tree of nodes
--     that wait, and the timer; Poller.Calls the calls of poller.h, Poller.Events the steps of the
--     thread, Poller.Life the begin, and Poller.Queue the result queue. Poller.Order is
--     about sequences in the order of deadlines, Kept and Safe have the invariant and what keeps it,
--     Steps lets the calls and the thread take turns, and Expire, Time and Handed are about timeouts,
--     the timer and deletion. The thread has of the handlers of events the steps from
--     __poller_remove_node on, for a node that waits or was removed; what __poller_handle_read and
--     __poller_handle_listen read and append before is left out, and so is poller_stop, whose
--     pthread_join never returns.
--   Parallel: kernel/SubTask.h and SubTask.cc. Parallel.antt has subtask_done and the dispatch of a
--     ParallelTask; Parallel.Running lets threads take turns with them, Countdown is about the
--     count of a parallel task, and Ends about its end.
--   Executor: kernel/Executor.h and Executor.cc, one ExecQueue with what the thread pool has of it.
--     Executor.Orderly lets calls, threads and cancelations take turns; Executor.Drain runs the
--     tasks of the pool.
--   Upstream: manager/UpstreamManager.cc, the classes Upstream, UpstreamGroup and UpstreamAddress.
--     Upstream.Healthy is the invariant; Upstream.Breakers, Checks, Members
--     and Leaving are about the operations and the invariant, Upstream.Steps lets the operations
--     follow each other, Upstream.Recovery is about the end of a breaker, Upstream.Choice about
--     get_one, Upstream.Select has the choice by consistent hash, and Upstream.Get has get.
--   Lru: util/LRUCache.h, over any keys and values.
--   Dns: manager/DNSCache.h and DNSCache.cc, a client of Lru whose values carry two times.
--   Prelude: the names, tests and lemmas on lists that all modules share.
--   Tests: runs on concrete inputs.
--
-- How the code is modelled. An operation is a function from the state to the result and the next
-- state. Loops over bytes recur on the bytes. The loops of the parser that go from state to state
-- have fuel, the length of the message and one, and return `none` if it runs out; every round but
-- the last reads a byte, so it never does. The other fuels are the number of elements that a loop
-- can visit: the size of a ring for its copy, its size and two for the deletion of its tasks, the
-- length of the list of unused handles for evictions, an index of the heap for the way up and its
-- size and one for the way down, the length of the tree of timeouts for those that have expired. A wait for a condition variable is a list of wakes, each with the
-- value that the wait returns and what other threads have done to the state. The doubling of the
-- message buffer has the number of bytes needed as its fuel. A size_t is a number below 2^64, an
-- int of the upstream one below 2^32, and their subtraction wraps round; the other lengths stay
-- far below that. The outcome of an allocation is an argument, or, where there are several, in a
-- list in the state, `memory`. A mutex makes a step of what is done while it is held. An address,
-- of a task, a target, a session, an UpstreamAddress or a cache handle, is a number, and the
-- fields of what stands there are functions of it or a store.
--
-- Not modelled: sockets, the Communicator, threads and system calls (the rest of kernel/), the factories
-- and the other managers, the context pointers, the destructors that only free memory, and the
-- iteration order of a std::map. Cells of a fresh array that the code never reads are 0.
mod Prelude
pub mod Ctype
pub mod Cstring
pub mod Strings
pub mod Series
pub mod HttpParser
pub mod Uri
pub mod TargetHeap
pub mod Scheduler
pub mod Poller
pub mod Parallel
pub mod Executor
pub mod Upstream
pub mod Lru
pub mod Dns
mod Tests
