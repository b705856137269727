-- ===== src/Lib.antt =====
-- vPerfGenerator: the load generator agent, generator-agent/. It runs workloads on thread pools. A
-- workload is a sequence of steps that a server (or a file of steps) provides; each step is a
-- number of requests to do in one quantum of the pool.
--
-- The parts of the agent and the files that model them; paths are from the repository's root.
-- - generator-agent/lib/libtscommon/src/tstime.c, rounding of times: TsTime.
-- - generator-agent/lib/libtscommon/src/hashmap.c, intrusive hash maps: HashMap, with
--   hash_map_init, hash_map_insert, hash_map_find, hash_map_remove and hash_map_walk on heads and
--   links in a memory. HashMap/Buckets says when the chains hold a table.
-- - generator-agent/lib/libtscommon/src/syncqueue.c, queues between threads: SyncQueue, with
--   squeue_init, squeue_push, squeue_pop and squeue_destroy; SyncQueue/Wakeup is a step relation
--   for a queue and the consumers that wait for it.
-- - generator-agent/lib/libtscommon/include/list.h, doubly linked circular lists: CircularList,
--   with the functions on nodes; CircularList/Ring says when the links hold a list.
-- - generator-agent/lib/libtscommon/src/mempool.c and its header, the agent's own memory:
--   MemPool/FreeTree is the search tree of the free fragments of a heap page
--   (mp_heap_btree_insert, mp_heap_btree_delete, mp_heap_btree_find_delete), MemPool/HeapPage the
--   pages of the heap (mp_heap_alloc, mp_heap_free, mp_heap_page_defrag), MemPool/Bitmap the
--   bitmaps (mp_bitmap_alloc, mp_bitmap_alloc_cells, mp_bitmap_free, mp_bitmap_free_cells),
--   MemPool/Frags the allocator of page fragments (mp_frag_alloc, mp_frag_free,
--   mp_frag_get_descr), MemPool/Slab the caches (mp_cache_init_impl, mp_cache_alloc_array,
--   mp_cache_free_array), MemPool/Malloc the calls over them (mp_malloc, mp_get_size, mp_realloc,
--   mp_free). MemPool/HeapPage/Tiled and MemPool/Frags/Alloc say when a page and a segment are
--   sound.
-- - generator-agent/lib/libtscommon/src/tsinit.c, the start and the end of the subsystems: TsInit
--   (ts_init, ts_finish).
-- - generator-agent/lib/libtscommon/src/pathutil.c and its header, joining and splitting paths:
--   PathUtil (path_join_array, path_join, path_split, path_split_next, path_basename,
--   path_dirname).
-- - generator-agent/lib/libtsload/src/wlparam.c, parameters from JSON into memory: WlParam. The
--   functions keep their names; the two switches are proc_type and default_type.
-- - generator-agent/lib/libtsload/src/workload.c, workloads: Workload (wl_create, wl_provide_step,
--   wl_advance_step), Workload/Start (wl_is_started), Workload/Notify (wl_notify),
--   Workload/Requests (wl_create_request, wl_run_request). Workload/Backlog is the specification
--   of the step queue.
-- - generator-agent/lib/libtsload/src/threadpool.c, thread pools: ThreadPool (tp_create,
--   tp_attach, tp_detach), ThreadPool/Distribute (distribute_requests), ThreadPool/HandOut
--   (tp_distribute_requests).
-- - generator-agent/lib/libtsload/src/worker.c: Quantum is one iteration of control_thread (turn
--   is the body of its loop over the step array), Worker what worker_thread does each time it is
--   woken.
-- - generator-agent/cmd/run-tsload/src/steps.c, the steps of a workload from a file: Steps
--   (step_parse_line, step_get_step).
-- - generator-agent/cmd/run-tsload/src/load.c, the counters of an experiment: RunTsload
--   (load_provide_step, do_workload_status, do_error_msg, the rounds of configure_all_wls).
-- - generator-agent/lib/libtsload/src/tsload.c, the calls of the library: TsLoad, and
--   TsLoad/Configure for tsload_configure_workload with json_workload_proc and wl_config_thread,
--   TsLoad/Configure/Calls for any sequence of the calls.
-- - generator-agent/lib/libtsagent/src/client.c and agent.c, the messages between the agent and
--   its server: Client (clnt_create_msg, clnt_send, clnt_process_response, clnt_invoke in three
--   steps, clnt_on_disconnect), Client/Handlers and Client/Invoked with what comes in during an
--   invocation, Client/Dispatch (agent_process_command), Client/Command (clnt_process_msg,
--   clnt_process_command, clnt_add_response), Client/Receive (clnt_recv_parse).
-- Common holds what they share: Boolean tests, lists, integers, strings, binary digits and memory.
--
-- How they interact: the calls of tsload.c find workloads and pools by name, make and change them,
-- and fill the step queue of a workload; when its configuration has succeeded, wl_config_thread
-- attaches it to its pool. The control thread of the pool takes one step of each workload that
-- has started in every quantum, hands its requests to the workers, and detaches a workload that
-- has no step left. Workers run their requests. Notifications and finished requests go through
-- the queues of syncqueue.c. The agent gets commands from the server and calls a method for
-- each; it invokes commands of the server and waits for the response.
--
-- The model. State is passed on explicitly; a part of a function that runs with a mutex held is
-- one step. Numbers are natural numbers, or ℤ of Common/Int where the source's go below zero;
-- times, step ids and counts do not reach the bounds of their C types, and conversions that wrap
-- are written out (to_size). Objects in a hash map or a queue are addresses in a memory of
-- links; where workloads and pools are only looked up they are told apart by their names, which
-- are shorter than WLNAMELEN and TPNAMELEN. In MemPool/Bitmap a cell that an allocation holds as
-- busy is written by that allocation only, and others act in the sleep between its rounds; a
-- page of the heap is one step under its mutex. Option results are none where the source fails
-- an assertion, follows NULL, or where the fuel of a loop runs out; each file says which.
--
-- Fuel: the walks along a chain of a hash map need one step for each object and one more; the loop
-- of distribute_requests needs one round for each extra request, thus fewer than there are
-- threads, as long as rand returns no 0; squeue_destroy needs one step for each element and one
-- more; mp_bitmap_find_region has 32 rounds, as each advances by one item at least;
-- clnt_recv_parse has a round for each byte, as each message takes one at least. What happens
-- with the fuel that is said to be enough is part of the results.
--
-- Parameters: rand, RAND_MAX and the value of a shift that C leaves undefined (Libc, and beyond in
-- MemPool/Bitmap); what a buffer holds where path_join_array reads outside its text (stale);
-- libjson, the type double and the bytes of values (Platform); what a method of the agent
-- responds (Agent); whether the defragmentation of a heap page gets its array (array in
-- MemPool); clock readings; what the load modules return; when a worker is interrupted.
--
-- Not modelled: in the control thread, that it wakes and interrupts its workers; in MemPool, a
-- thread that waits for the page that another allocates; the codes that json_workload_proc and
-- its helpers tell; allocation failures outside MemPool, logging, threads and their platform
-- layers, loading of modules, the sockets and the receiving and connecting threads of the
-- network client, the programs under generator-agent/cmd but for the steps files and the
-- counters of run-tsload, the load modules under generator-agent/mod,
-- generator-agent/lib/libhostinfo, the copy of libjson, and the server. Formatting of state as
-- JSON is left out throughout.
pub mod Common
pub mod TsTime
pub mod HashMap
pub mod SyncQueue
pub mod CircularList
pub mod MemPool
pub mod TsInit
pub mod PathUtil
pub mod WlParam
pub mod Workload
pub mod ThreadPool
pub mod Quantum
pub mod Worker
pub mod TsLoad
pub mod Client
pub mod Steps
pub mod RunTsload
