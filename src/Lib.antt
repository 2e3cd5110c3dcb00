-- ===== src/Lib.antt =====
-- A verification library for DLMDB, the key-value store in libraries/liblmdb (mdb.c and midl.c).
--
-- The program keeps ordered maps in B+trees of pages in a memory map. Its parts that are modelled:
--
-- Varint: the varint codec of prefix headers (mdb_varint_length, mdb_varint_encode,
--   mdb_varint_decode in mdb.c). A byte string is a list of numbers below 256; `uint64_t` wraps at 2^64.
-- Compare: the order of keys as byte strings (mdb_cmp_memn, mdb_cmp_memn_with_skip, mdb_cmp_memnr)
--   and as integers of a little-endian machine (mdb_cmp_long, mdb_cmp_int, mdb_cmp_cint).
-- LeafKey: keys on leaf pages with prefix compression (mdb_leaf_encode_key, mdb_leaf_key_parts,
--   mdb_leaf_decode_key, mdb_prefix_decode_canonical, mdb_prefix_decoded_length and the comparison
--   mdb_leaf_cmp_memn_encoded). A `MDB_val` is the list of its bytes, and a NULL one is `none`.
-- Search: the binary search loop of midl.c over the three-way test of a cell.
-- Idl: the ID lists of midl.c on their block of memory: allocation, growth, appending and search. The
--   C library's allocator is a parameter: what it grants, and what fresh memory holds.
-- Id2l: the lists of (ID, pointer) pairs of midl.c in their array: search, insertion and appending
--   (mdb_mid2l_search, mdb_mid2l_insert, mdb_mid2l_append).
-- Counted: pages of databases with MDB_COUNTED in mdb.c: the counts under a page
--   (mdb_page_subtree_count and the sums below it), the search by rank from the root and from the
--   cursor (mdb_cursor_rank_search, mdb_cursor_rank_resume, mdb_cursor_get_rank), the count of what
--   stands before a cursor (mdb_prefix_count), and the upkeep of the counts (mdb_update_parent_count,
--   mdb_propagate_count_delta_path, mdb_adjust_counted_parents). A page is its flags and nodes, and
--   what mdb_page_get gives for a page number is a parameter. Counted/Tree has the tree as the
--   sequence of its entries, and the theorems are about trees whose counts are right.
-- Stride: the decoded lengths of the keys of prefix-compressed leaf pages in mdb.c: the stride in the
--   page header (mdb_prefix_leaf_maxdecoded, mdb_prefix_leaf_store_stride), the entries of lengths
--   (mdb_prefix_stride_entry_*, mdb_prefix_stride_apply_*), and their hash table by page number
--   (mdb_prefix_stride_cache_*, mdb_prefix_stride_prepare, mdb_prefix_scratch_reset). A page is its flags, `mp_pad` and the stored
--   keys, and a pointer to an entry is its index.
-- Pages: the slots and the nodes on a page (mdb_page_insert_slot, mdb_page_remove_slot in mdb.c). The slot
--   array and the page's bytes are two lists, which `mp_lower` and `mp_upper` keep apart.
-- Snapshot: the reader table and the reuse of freed pages in mdb.c (mdb_txn_renew0, mdb_txn_end,
--   mdb_find_oldest and the fetching in mdb_page_alloc). Readers in several threads and the one writer are
--   a step relation: each step is one load or store of a field of the reader table or of mti_txnid, the
--   writer's scan of the table slot by slot included. Only the search of a reader for a free slot, under
--   its mutex, has no steps of its own there: a claim may take any slot without a process, or a new one.
--   Values that no other thread can see change with the step before them.
-- Freelist: the end of mdb_page_alloc in mdb.c: contiguous pages from the reclaimed ones, or new ones. The
--   list of reclaimed pages is its entries without the count.
-- Meta: the two meta pages in mdb.c, which one is picked, and the commit of a transaction as the stores to
--   the fields of the older page (mdb_env_pick_meta, mdb_env_write_meta). How msync and pwrite end is a
--   parameter: whether they fail, and how many fields of the write and of the write back arrive.
-- NodeSearch: the binary search of mdb_node_search in mdb.c over the comparison with the key of a node.
--
-- Base holds what all share: tests on numbers, lists with native indices, machine words, status codes
-- with a bind, and writes to a block that fail with `fault` outside it. A theorem that excludes `fault`
-- states that no access leaves the block.
--
-- Loops recur on the accessibility of a number that falls, on rounds that are counted down, or on the
-- list that is walked, so no fuel can run out; the varint decoder has nine rounds, as in the code, the descent by
-- rank has a round for each page that the cursor's stack of 32 pages has room for, and a probing of the
-- hash table has as many rounds as slots, which is enough while one is free.
--
-- Not modelled: files, locks, memory maps and system calls, which are not part of the logic; the
-- contents of nodes, the movement of cursors, splits and merges, and the saving of the free list, which
-- the modelled parts serve.
pub mod Base
pub mod Varint
pub mod Compare
pub mod LeafKey
pub mod Stride
pub mod Pages
pub mod Snapshot
pub mod Freelist
pub mod Meta
pub mod NodeSearch
pub mod Search
pub mod Idl
pub mod Id2l
pub mod Counted
