-- ===== src/Lib.antt =====
-- CommonTool: data structures and utilities in C. The parts stand beside each other: the counter
-- works under the spin lock, the heap and the red-black tree take a comparison function from
-- their caller and memory from the C library or from the pool.
--
-- Which file models which part:
-- - Base: results of calls (`Run`), arrays as lists, Boolean tests, results of comparisons, and
--   what moving entries about does to the multiset of them.
-- - Lock: trunk/src/tl_lock.c and trunk/include/tl_atomic.h, one step for each atomic access of a
--   thread (`on_round` for tl_lock_on and tl_lock_tryon, `off_round` for tl_lock_off).
-- - Count: trunk/src/tl_count.c (`add`, `sub`, `inc`, `dec` for the functions tl_count_*).
-- - Heap: trunk/src/tl_heap.c; Heap.antt has hp_down, hp_up, tl_heap_adjust, tl_heap_down and
--   tl_heap_up over an array, Heap/Content.antt the object `tl_heap_t` and its methods.
-- - Rbtree: trunk/src/tl_rbtree.c; a node and its father pointers are a subtree and its path.
--   Rbtree/Locate.antt has locateKey and tl_rbtree_query, Rbtree/Insert.antt tl_rbtree_insert with
--   i_adjust, Rbtree/Erase.antt tl_rbtree_erase with d_adjust and succeed, Rbtree/Cursor.antt the
--   cursors, Rbtree/Check.antt tl_rbtree_check.
-- - Queue: trunk/src/tl_queue.c; the chain of arrays from `h` to `t` is a list, which holds the
--   queue's entries in order.
-- - Sort: trunk/src/tl_sort.c; Sort.antt has the searches and sorts over entries, Sort/Swap.antt
--   `swap` on the bytes of two entries.
-- - Pool: trunk/src/tl_pool.c. Pool.antt has the state, the size classes and the rings of unused
--   tags, Pool/Free.antt tl_pool_free with tl_pool_tag_free, Pool/Alloc.antt tl_pool_alloc with
--   tl_pool_tag_alloc, Pool/Calls.antt tl_pool_init, tl_pool_destroy, tl_pool_calloc,
--   tl_pool_realloc and tl_pool_static. A block is the list of its tags in the order of their
--   addresses, a ring the list of the addresses of its tags. What holds between the calls is
--   `IsPool` of Pool/Invariant.antt.
-- - Profile: trunk/src/tl_profile.c over Rbtree; the entries from `lastI` and those up to `lastE` are
--   two lists, an item is an index. The names are keys of any type with a comparison for strcmp,
--   and the clocks are arguments.
-- - Btree: trunk/src/tl_btree2.c. Btree.antt has the nodes with their arrays, the path of parents and
--   the shifts, Btree/Locate.antt tb_locate_key and tl_btree_query, Btree/Insert.antt tl_btree_insert
--   with insert_1 to insert_3, Btree/Erase.antt tl_btree_erase with erase_1 to erase_4,
--   Btree/Cursor.antt the cursors. A node knows its height in its type; what holds between the
--   calls is `IsBtree` of Btree/Invariant.antt, over the list of the entries in order of
--   Btree/Contents.antt. Rbtree/Ascending.antt has such lists for both trees.
-- - Samples: a concrete comparison function for the tests.
--
-- State is passed explicitly. A read or write outside an array, through NULL, or a failed assertion
-- is `fault`. Loops that are not structural take fuel, `out_of_fuel` when it ends: the entries that
-- count plus one for hp_down, the index plus one for hp_up; each round of hp_down at least
-- doubles its index and each round of hp_up at least halves it. tl_bsearch has the
-- number of entries plus one, of which each round takes one at least.
--
-- Ints: tl_bsearch has its indices in ints, which up to 2^30 entries do not overflow; beyond, an
-- overflow is `fault`. `IsBtree` therefore bounds `m_fork` by 2^30. tl_pool_size2idx reads the low 32
-- bits of a size for its class; `IsPool` bounds the blocks by 2^32.
--
-- Parameters: the comparison function, with the laws `IsOrder` of Base/Int.antt, for tl_i_sort also
-- `IsUnit`, since it asks for the result 1; `exchange` in Sort.antt, what `swap` leaves of two
-- entries; and `realloc` with the laws `IsRealloc` of Heap/Content.antt. `malloc` is a Boolean
-- argument that says whether it succeeds, in Btree one for each height at which a node is made, with
-- `zeroes` for what it holds at first. `sys` in Pool is tl_memalign, an address for each size or
-- NULL, and `Fresh` says that memory it hands out is apart from all blocks of the pool.
--
-- Not modelled: giving memory back (tl_heap_destroy, tl_rbtree_destroy, tl_queue_destroy,
-- tl_profile_destroy, the free list of nodes), the entries of the heap as bytes, the overflow of a
-- count times an entry size, what the pool's blocks hold for the callers, the pool's functions under
-- TL_POOL_DEBUG_ON and its builds with mmap or a mutex, names as strings, and signed clocks that
-- overflow. Of tl_btree2.c, tl_btree_check, tl_btree_destroy, the printing functions and memory given back
-- are left out; the B+ tree of trunk/src/tl_btree.c is not modelled.
pub mod Base
pub mod Btree
pub mod Count
pub mod Heap
pub mod Lock
pub mod Pool
pub mod Profile
pub mod Queue
pub mod Rbtree
pub mod Samples
pub mod Sort
