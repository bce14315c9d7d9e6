-- ===== src/Lib.antt =====
-- memkit is a library of containers for embedded programs: cores in include/memkit/detail keep the
-- state and do the work, and the typed containers of include/memkit/containers and the C interface of
-- src/c_api pass their calls on to them. This development models cores, and says what they promise to
-- the wrappers above.
--
-- Ring is the ring buffer core (include/memkit/detail/ring_buffer_core.hpp), on which the deque, the
-- queue and the ring are built. A buffer is the record Ring with the fields of the class; its storage
-- is a list of elements, read with `get!` and written with `set`, so that an index stands for the
-- byte offset `index * elem_size`. Ring has initialisation and growth (relinearize, ensure_room,
-- reserve), Ring/Ops the operations on elements, Ring/Bulk clear, foreach and the contiguous spans.
-- An out-pointer is an Option, none for a null one, and the result says what it holds afterwards.
-- Destructors have no effect that the buffer can see: the field `destroyed` lists the elements that
-- they were called on, in order. A full buffer that overwrites drops its front element, the oldest, in
-- `push_back`, and its back element, the newest, in `push_front`, although include/ring.h and the
-- references in docs say that a push drops the oldest. Ring/Grow/Room says what growth leaves by the
-- allocator's answer. Ring/Inv has the invariant and the contents, and the modules below
-- Ring/Ops and Ring/Bulk compare the operations with the bounded deque of Deque.
--
-- Element is include/memkit/detail/element_policy.hpp: the typed policy and the runtime policy are the
-- two constructors of one type of kinds, since a buffer is instantiated with one of them. A type that
-- is trivially copyable is moved by a copy. Growth is grow_capacity of
-- include/memkit/detail/growable_storage.hpp. Its loop runs on as much fuel as the
-- required capacity: each round doubles a capacity of at least 1, so that the test or the guard ends
-- it before the fuel does.
--
-- SpscQueue is include/memkit/detail/spsc_queue_core.hpp. Its atomic counters run freely and wrap in a
-- `size_t`; the calls are taken one after the other. That `mask_ + 1` is a power of two, as `init` tests,
-- is part of its invariant, which makes `i & mask_` a remainder. The loop of clear runs on one round
-- more than the queue has elements, which is enough: the last one finds it empty.
--
-- FlatMap is include/memkit/detail/flat_map_core.hpp. Its comparison is the user's, and the `int` that
-- it returns is its sign. The binary search runs on as much fuel as the map has entries, since each
-- round makes the interval shorter.
--
-- HashMap is include/memkit/detail/hashmap_map_core.hpp: HashMap/Open has the strategy of open addressing,
-- HashMap/Chaining that of chained buckets, and HashMap/Ops what chooses between them. A slot of the open
-- table is a record of its state, key and value, so that the layout in bytes is left out; a bucket is
-- the list of the keys and values of its nodes, which no other bucket shares. A key is placed
-- (HashMap/Chaining/Rehash) if its nodes stand in its own bucket alone and are one at most. The hash and the equality
-- are the user's; what `alloc_raw` returns in a call, for a table and for a node, is the parameter
-- Blocks. The probe runs for the rounds of the source's loop. What is given back to the heap is left out.
--
-- Vector is include/memkit/detail/vector_core.hpp, under the vector and the stack. Its growth asks
-- `realloc` for a block that it has from the heap, and otherwise a `grow_alloc` or `malloc` for a new
-- one, into which it copies or moves; the field `freed` lists the blocks given to `std::free`.
-- Vector/Copying, Growing and Release are about growth, Vector/Ends about the operations at the end.
--
-- Bitset is include/memkit/detail/bitset_core.hpp, with its bytes as numbers below 256: `~` is a
-- subtraction from 255, and a mask is a power of two. The operation `set` is `set_bit`. The
-- loop of popcount_byte runs on eight rounds, the bits of a byte. Bits has the bits of native
-- numbers, and Bitset/Inv the set that the bytes stand for.
--
-- Dlist is include/memkit/detail/dlist_core.hpp, the doubly linked list: Dlist has the links and the pool
-- of nodes, Dlist/Ops the operations on elements. A pointer to a node is its address, a number, and null
-- is 0; a field of the nodes is a function of the address (Chain), and so is the element that stands
-- behind a header of 16 bytes. The nodes of a list, in order, are a list of addresses, along which
-- Chain/Forward and Chain/Backward follow the links. MEMKIT_ALLOW_HEAP and what `malloc` returns in a
-- call are the parameter Malloc; a block that it returns is none of the nodes of the list (IsFresh). The
-- loops over the nodes run on one round more than the list has elements: the last one finds null.
--
-- PriorityQueue is include/memkit/detail/pqueue_core.hpp. A null `storage_` is the empty list. The loop
-- of sift_up runs on one round more than the index, which goes down in each round, and that of
-- sift_down on one round more than the size, below which the index goes up. The theorems take a
-- comparison that is a strict weak order and elements that the swap can move.
--
-- ObjectPool is include/memkit/detail/objpool_core.hpp, with the bits of the elements in use in bytes and
-- the indices of the others on a stack; an element is named by its address, as the source does.
--
-- Arena is include/memkit/memory/arena.hpp over any backing: the address and the size that the backing
-- returns are fields, and the memory is a list of bytes. Its addresses wrap in a `uintptr_t` of 64 bits.
-- Utility is include/memkit/detail/utility.hpp, whose masks Bits/Align turns into remainders.
--
-- DoubleBuffer is include/memkit/detail/double_buffer_core.hpp, where a slot is its byte offset in the
-- block and the calls are taken one after the other.
--
-- SparseSet is include/memkit/detail/sparse_set_core.hpp. TokenBucket is
-- include/memkit/containers/token_bucket.hpp: its fields are `uint32_t` and its sums `uint64_t`, with
-- their wrap-around written out. HandlePool is include/memkit/detail/handle_pool_core.hpp: a slot is
-- its byte offset in the storage, and shifts and masks of a handle are multiplications and remainders.
--
-- Counts and indices that the code keeps at or below a capacity are written without their wrap-around,
-- since an array of that many elements fits the address space; sums that are computed before the test
-- have it, and so has the difference `head_ - tail_` of the span that may be written, which the code
-- takes with the head before the tail.
--
-- A write through an index outside its array is undefined in the source. In the model it changes
-- nothing, and a read returns a default; the theorems say where an index is inside its array.
--
-- What the libraries below provide is a parameter: `malloc` and a `grow_alloc` are functions of
-- Platform and of Ring and Vector, whose blocks are as large as asked for (Supplies), and the user's
-- copy function and move constructor belong to the element policy. The alignment that a core passes to
-- its allocator is left out, and so is `free`, but for the traces of the vector and of the linked list.
--
-- Not modelled: the steps of the two threads of the SPSC queue between each other's loads and stores,
-- the other cores, the typed containers and the C interface, which wrap the cores, and the backings
-- of the arena.
pub mod Prelude
pub mod Status
pub mod Element
pub mod Bits
pub mod Chain
pub mod Utility
pub mod Growth
pub mod Ring
pub mod Deque
pub mod Arena
pub mod Dlist
pub mod DoubleBuffer
pub mod Bitset
pub mod ObjectPool
pub mod PriorityQueue
pub mod Vector
pub mod SparseSet
pub mod TokenBucket
pub mod SpscQueue
pub mod FlatMap
pub mod HandlePool
pub mod HashMap
pub mod Tests
