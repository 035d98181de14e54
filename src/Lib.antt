-- ===== src/Lib.antt =====
-- TCEngine, a data-oriented game engine with fiber based jobs: the parts that keep its memory, its
-- jobs and its files in order, modelled from the C sources. Paths are from the repository's root.
--
-- The engine is a set of C modules. At the bottom stand the allocators and data structures of
-- src/datastructures: tables of objects with ids (resource.c), pools of objects of one size
-- (pool.c), a bounded queue without locks (lfqueue.h), intrusive lists (list.h). The scheduler of
-- src/fiber.c keeps its jobs in such a queue, and its channels hand data between fibers; src/vfs.c
-- gives the loaders of src/load.c and src/graphics their files, and finds them by paths.
--
--   Base    what the others share: tests on numbers, lists over the native numbers, masks.
--   Math    src/include/private/math.h: powers of two, logarithms and alignment, which the allocators
--           use. Smear follows the lines `x |= x >> 1` and so on.
--   Sync    Sync/LfQueue: lf_queue_init, lf_queue_put and lf_queue_get of
--           src/datastructures/lfqueue.h. A call is a thread with a program counter (PutPc, GetPc);
--           put_step and get_step do one access to shared memory each, and System.Step lets any
--           thread take one. Two lemma modules (Invariant, Threads) carry the results of Fifo.
--           Sync/LfLifo: the lock-free stack of src/datastructures/lflifo.h in the same way.
--           Sync/Channel: channels of src/fiber.c, a ring with two queues of waiting fibers. A function
--           is one section under the channel's lock; Ring says what a channel holds, Fifo compares
--           it with a queue, Sections and Wakeups follow the fibers that wait and that are ready.
--           The queues are lists of fibers here; Data/Slist has the functions they stand on.
--           Sync/Future: the futures of src/fiber.c, counter_wakeup and counter_add_to_waiting as
--           threads. System has the interleavings; Invariant, Moves, Wakes, Reads, Waits and Counts
--           follow one waiting fiber.
--           Sync/Jobs: tc_run_jobs, job_finish, tc_timer_start and timer_cb of src/fiber.c. The job
--           queue is taken by its contract, which refuses an item when the queue is full.
--           Sync/Fibers: worker_loop, tc_fiber_ready, tc_fiber_yield, tc_fiber_resume and fiber_loop of
--           src/fiber.c, as steps of the workers. Places says where a fiber can be, Steps goes through
--           the steps, Apart has what follows, Race what a call of tc_fiber_ready too early does.
--   Memory  Memory/Pool: mempool_create, mempool_alloc and mempool_clear of src/datastructures/pool.c.
--           Memory/Resource: res_create, res_alloc, res_free and res_get of
--           src/datastructures/resource.c. Addresses are numbers; the allocator a table stands on
--           is a parameter that says which addresses it returns.
--           Memory/Temp: tc_temp_init and temp_realloc of src/include/private/memory.h.
--           Memory/Buddy: the levels, block numbers and buddies of src/datastructures/buddy.c, and in
--           Blocks buddy_create, buddy_alloc_block and buddy_free_block. Tree gives the blocks as a
--           tree, Flips and Halves what changes in it, Splits, Merges and Frees follow the two functions,
--           Create the loop of buddy_create, Ranges, History and Disjoint the blocks of a user.
--   Data    Data/List and Data/Slist: the doubly linked lists, and the singly linked ones with and
--           without a tail, of src/datastructures/list.h, on a heap of links. Chain has the lemmas
--           on linking, Operations and Fifo compare the functions with sequences of nodes, and Runs
--           whole histories of calls.
--   Registry  src/module.c: the slots that the loop of _get_module finds (Probes, Map), and the
--           implementations of an interface as a collection. The slot that _get_module means is a
--           number here; in the source it is lost with the address of a local variable, so what the
--           calls then do to a slot is not followed. The hash of the vendored stb_ds.h is a parameter.
--   Vfs     Vfs/Path: fs_parent_path, fs_path_ext, fs_path_filename and fs_path_join of src/vfs.c.
--           The separator of the system is a parameter.
--           Vfs/Mstream: fs_open_mstream, mstream_read and mstream_write of src/vfs.c; what
--           tc_realloc adds to a buffer is a parameter.
--           Vfs/Zip: force_open_zip, fs_open_zip, fs_close_zip, init_zip_fs and exit_zip_fs of src/vfs.c, and
--           in Entry zstream_open, zstream_flush and zstream_close with all error paths, split at the
--           reading of the entry. minizip, the system streams and the allocator are the record
--           Library, over a state of their own. tc_free at NULL allocates, as in src/memory.c. Balance has the counts of each function, Runs those
--           of whole histories, Answers how the results of minizip are read.
--   Graphics  Graphics/Reflection: create_pipelinereflection of src/graphics/graphics.c with the comparisons
--           it uses. Resources and Distinct follow the table of resources, Among and Variables the
--           variables.
--
-- Integers. uint32_t and size_t wrap as in C: `% 2 ^ 32` and `% 2 ^ 64` stand where the source
-- computes. The positions and sequence numbers of the queue wrap at 2^64; a run of fewer than 2^62
-- steps cannot take them round, and the theorems about runs say so. The tag of the lock-free stack
-- has 16 bits, and fewer than 2^16 changes do not take it round.
--
-- Fuel. The loop of fs_path_join runs on the number of bytes of the component; each round takes a
-- byte at least. All other loops are recursion on a list or a number.
--
-- Errors. A function that returns NULL or reads what it must not gives none, or 0 where it
-- returns an address. An assertion (TC_ASSERT) gives none, is a hypothesis of the theorems that need it, or is left
-- out. Arrays on the stack that overrun are an outcome of their own.
--
-- Not modelled: the destroy functions, which only give memory back; the memory order arguments of
-- the atomic operations (every access is sequentially consistent); the calls of the system, libuv,
-- fcontext, the window system and Vulkan; and so far bitvec.h, arena.c, region.c, the caches
-- of buddy.c, the slab allocator of memory.h, the start and end of the worker threads of fiber.c, load.c,
-- the rest of graphics, and the file streams of vfs.c.
pub mod Base
pub mod Data
pub mod Graphics
pub mod Math
pub mod Memory
pub mod Registry
pub mod Sync
pub mod Vfs
