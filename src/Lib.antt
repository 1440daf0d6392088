-- ===== src/Lib.antt =====
-- Models and proofs for the programs of this repository.
--
-- Lab1/decomment_past.c, a comment remover: Decomment.antt has the DFA (`start_step`, `handle_quote` and
-- so on are the cases of its `switch`), `run` the loop of `main` over the characters of the input and
-- `decomment` the whole of `main`, with its output, its error message and its exit status. The children
-- of Decomment/Segments compare it with a grammar of source text.
--
-- 202110421_assign5/rwlock.c, a reader-writer lock: RwLock.antt has the state of a lock, RwLock/Ring.antt
-- the helper functions over the ring of tickets, RwLock/Ops.antt the entry points. A call that may wait
-- is split into its start and one round of its loop, since the mutex is given back exactly where a round
-- waits; RwLock/System.antt interleaves such steps of n threads. The ring's size is a parameter, since
-- its header is not in the repository. The loops over the ring have one round for each ticket that has
-- been given out, and end by their tests before or with the last. Spurious wake-ups are steps like any
-- other, and a broadcast has no state.
--
-- 202110421_assign5/hashtable.c, the table that uses those locks: HashTable/Strings.antt has C strings and
-- the hash, HashTable/Chain.antt one bucket, HashTable/Ops.antt the entry points over the interface of
-- HashTable/Locks.antt, which HashTable/Rw.antt fills with rwlock.c. HashTable/Spec.antt has the
-- operations on maps that the entry points implement.
--
-- Lab2/202110421_assign2/dirtree.c, a directory lister. The filter of option -f: Dirtree/Pattern.antt has
-- `find_close` and `validate_pattern`, Dirtree/Match.antt `submatch` and `match`. A pointer into a string
-- is the text from there on. Each loop and recursion over a pattern has as much fuel as the pattern is
-- long, and the loop over `(group)*` one round more than the text is long; a result `none` would mean that
-- this is too little. Dirtree/Language.antt has the patterns as a language, without reference to the code.
-- The walk: Dirtree/Sys.antt is the interface to `opendir`, `readdir`, `lstat`, `realloc`, `qsort` and the
-- names of users and groups. Directories do not change while the program runs, and a directory is read as a
-- list of entries that ends, with or without an error. Dirtree/Entries.antt has `get_next`,
-- `dirent_compare`, `make_child_path` and the loop that reads a directory, Dirtree/Walk.antt
-- `subtree_has_match` and `process_dir`, Dirtree/Run.antt the loop of `main` over the directories. The
-- world that they change is the summary of the directory, the bytes on stdout and the messages on stderr,
-- where the texts of `perror` are symbols. Memory that runs out ends the program by `panic`. The recursion
-- has a unit of fuel for each level that -d allows. Dirtree/Walk/Forest.antt has what is to be shown as a
-- tree, without state or output, and Dirtree/Walk/Every.antt the same without the limit on the length of a
-- path. Dirtree/Print.antt has the output functions, Dirtree/Name.antt the name column,
-- Dirtree/Summary.antt the totals of a directory, with the wrap-around of their counters, and
-- Dirtree/Options.antt the options, with `atoi` as a parameter; the texts of their error messages, and the
-- usage text, are left out.
--
-- 202110421_assign5/server.c, the server: Server.antt has the loop of `handle_client` for one client, in
-- rounds that end at the tests of `g_shutdown` and at the calls of `recv` and `send`; a signal may come
-- between any two. The store `ctx`, which all worker threads share, is changed by this client alone: what
-- other threads do to it meanwhile is outside the model. `skvs_serve`, whose library is not in the
-- repository, is a parameter, and so is BUF_SIZE. The loop that accepts clients, and `main`, which sets up
-- sockets and threads, are not modelled.
--
-- Lab3/src/chunk.c and Lab3/src/heapmgr1.c, a heap manager: HeapManager.antt has the memory and the global
-- variables, HeapManager/Chunk.antt and HeapManager/Validity.antt the functions of chunk.c and
-- `check_heap_validity`, HeapManager/FreeList.antt the free list, splitting and joining, and
-- HeapManager/Alloc.antt `heapmgr_malloc` and `heapmgr_free`. Addresses count units of 16 bytes, so that
-- all are aligned; a unit has the words of a header or a footer, in the same bytes. Assertions are compiled
-- out, as by NDEBUG in the builds of Lab3/Makefile other than those named -dbg. `check_heap_validity`
-- exists in the -dbg builds alone, whose assertions call it; it is modelled on its own, and the calls are
-- not. `sbrk` grants or refuses by an argument and gives the units behind the last ones; a failure of
-- `sbrk(0)` is left out. The loop over the free list runs on fuel, of which one for each node is enough,
-- and those of `check_heap_validity` need one for each block and each node. Spans have no bound, so that a
-- block of 2^31 units is outside the model. HeapManager/Links.antt and HeapManager/Nodes.antt have the free
-- list as a doubly linked list in memory. HeapManager/Blocks.antt has a heap as the list of its blocks,
-- which the other proofs are about.
--
-- Lab3/src/heapmgr2.c, a second manager, with the free blocks in bins:
-- HeapManager/Bins.antt has its operations over the same memory, under the same conditions; its scan runs
-- over the ten bins and, in each, on fuel for the blocks. Its `check_heap_validity`, which is for
-- assertions only, is not modelled, and neither are the older copies of the managers.
--
-- Counters and tickets of type `int` are numbers without a bound: a lock that gives out 2^31 tickets, or
-- a text of 2^31 lines, is outside the model, and so are 2^64 entries in one bucket. Pointers to a lock
-- or a table are never NULL; keys and values may be. In the lock, the table and
-- the server, `errno`, traces and `sleep` are left out.
pub mod Base
pub mod Decomment
pub mod RwLock
pub mod HashTable
pub mod Dirtree
pub mod HeapManager
pub mod Server
pub mod Tests
