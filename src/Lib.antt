-- ===== src/Lib.antt =====
-- Verification of parts of tux3, the versioning file system (kernel/) with its user space tools.
--
-- The parts and how they interact. Blocks of the volume are allocated and freed in a bitmap file
-- (kernel/balloc.c over the bit operations of kernel/utility.c). Changes of metadata are recorded by log
-- calls in log blocks (kernel/log.c, with the byte codec of kernel/tux3.h), and after a crash the log
-- blocks are checked and replayed in two stages (kernel/replay.c), the second of which calls the allocator
-- again and the first the replay calls of the btree (kernel/btree.c). The extents of a file stand in the
-- leaves of its btree (kernel/dleaf2.c), the attributes of inodes in the leaves of the inode table
-- (kernel/ileaf.c), and the blocks of a directory file hold its entries (kernel/dir.c).
--
-- Files:
-- Prelude: shared names, Boolean tests, lists and binary digits.
-- Bitmap: set_bits, clear_bits, all_set, all_clear. A bitmap is the list of its bytes. The searches
--   find_next_bit_le and find_next_zero_bit_le are a record of functions with their documented laws
--   (Bitmap.Search.BitSearch), which Bitmap.Walk fills.
-- Balloc: the state of the allocator is the record Sb (blockbits, volblocks, freeblocks, nextblock, and
--   the bitmap file as a function from bitmap blocks to bytes). bitmap_modify_bits, bitmap_modify,
--   bitmap_test_and_modify, bfree, replay_update_bitmap; Balloc.Alloc: save_seg, balloc_from_range, balloc,
--   balloc_partial. The errors of blockread and blockdirty are the parameter BlockIo, with the law that
--   blockdirty never asks to try again; fs_error is the end at tux3_fs_error, panic the one at a failed assert.
-- Codec: encode16 to encode64 and decode16 to decode64; `none` is a read past the end of the bytes.
-- Log: the record Log has the finished blocks and the open one (sb->logbuf up to sb->logpos); log_begin,
--   log_end, log_finish, log_finish_cycle, and in Log.Entry every log call. An entry is a log call with its
--   arguments. The field asserted says whether an assert of a log call has failed.
-- Replay: replay_check_log, replay_log_stage1, replay_log_stage2, replay_logblocks. What an entry makes
--   the other parts do is the interface Replay.Handlers over a state of any type.
-- Btree: an index node (struct bnode) is the list of its entries. bnode_lookup, bnode_add_index,
--   bnode_remove_index, bnode_split, bnode_merge_nodes, and replay_bnode_add, replay_bnode_update,
--   replay_bnode_del, replay_bnode_adjust with their change functions; Btree.Route has the child that a node
--   leads to for a key, the specification of the changes.
-- Btree.Cursor: the path of a cursor is the list of its levels, the deepest node first (struct path_level
--   with the buffer as its block number and the place as an index), the nodes of the volume a function from
--   block numbers. cursor_next_key, cursor_this_key, btree_probe (probe_down is its loop), cursor_advance
--   (climb and descend are the loops of cursor_advance_up and cursor_advance_down), btree_traverse with the
--   callback over a state of any type. Each step down is followed by cursor_check (pushed), whose failed assert
--   is the end failed. The errors of vol_bread are the parameter read_fails.
--   Btree.Cursor.Leaves has the leaves from left to right, Btree.Cursor.Order a btree that stands for a map
--   from keys to leaves, and the range of keys that a path leads to: the specifications. Btree.Cursor.Checked
--   has the lemmas on cursor_check.
-- Btree.Insert: insert_leaf (insert_up is its loop over the levels) with its log calls. The new nodes take
--   their blocks from a list, the answers of the allocator to new_node. replay_bnode_redirect,
--   replay_bnode_root, replay_bnode_split, replay_bnode_merge; replay_entries is what stage 1 of the replay
--   does to index nodes for a list of entries.
-- Btree.Redirect: cursor_redirect, from the root down to the leaf, with its log calls and the blocks that it
--   frees later (sb->deunify, sb->defree). The buffers that are not dirty yet are the parameters need and
--   leaf_need, the contents of leaves a function from block numbers to any type.
-- Btree.Recover: the calls of stage 1 of the replay in the interface Replay.Handlers, over the nodes of the
--   volume (Volume), which joins the insertion, the log and the replay.
-- Btree.Sample: the btree of the tests.
-- Dleaf2: diskextent2 entries as pairs of words, get_extent, put_extent, dleaf2_lookup_index, dleaf2_split,
--   dleaf2_merge, dleaf2_chop; Dleaf2.Extents has the map from logical to physical blocks that a leaf
--   stands for, the specification of split and merge.
-- Ileaf: struct ileaf with the dictionary of offsets (from entry 1 on) and the table as lists. ileaf_lookup,
--   ileaf_resize, ileaf_chop, ileaf_trim, ileaf_split, ileaf_merge, ileaf_split_hint, ileaf_find_free;
--   Ileaf.Access: ileaf_write and ileaf_read over the interface AttrOps (struct ileaf_attr_ops). Ileaf.Chunks
--   has the view that the theorems are stated in, the list of the attributes of each inode. Iattr.Stored
--   fills AttrOps with the functions of kernel/iattr.c.
-- Iattr: the attributes of an inode with its xcache as one record; spectime, tuxtime, encode_asize,
--   encode_attrs, decode_attrs and the iattr_ops of kernel/iattr.c, encode_xattrs, decode_xattr and
--   decode_xsize of kernel/xattr.c. The codes of device numbers are parameters.
-- Xattr: the cache of extended attributes (struct xcache) as its allocated size with its entries;
--   xcache_lookup, remove_old, expand_xcache, xcache_update with the change of the references of the atom.
-- Dir: tux_dirent, a block as the list of its entries and a directory as the list of its blocks.
--   tux_find_entry, tux_create_entry, tux_delete_entry, tux_dir_is_empty. The errors of blockread and
--   blockdirty are the parameters read_fails and dirty_error, and the answer failed stands for a failed assert or
--   tux3_fs_error. A name is stored with its length in 8 bits. Dir.Block has well-formed blocks and the names
--   that they hold.
--
-- Bounds and fuel. Words are natural numbers, with `% 2 ^ w` where the source can wrap; a theorem states the
-- bounds it needs (a block number of 48 bits, a volume whose bitmap fits). The loops over bitmap blocks
-- run for a number of rounds that the source computes first. The search of balloc_from_range runs on as much
-- fuel as blocks are searched, each round advancing by one at least, and the scan of a bitmap block on one
-- more than the bits of the block: Balloc.Alloc.Sound shows that the search always ends. A pass of replay
-- runs on one more than the bytes of the block, since every entry has one byte at least; the loops over the
-- bytes of attributes run on as much fuel as there are bytes. A traversal of a btree needs one more than the
-- leaves right of the cursor. A btree has the keys below 2 ^ 48 (TUXKEY_LIMIT). The byte count of a log block
-- is not cut to its 16 bits: a block has at most 2 ^ 12 bytes. Nor is the size of the dictionary in
-- ileaf_resize cut to 64 bits: inode numbers are keys of 48 bits.
--
-- Not modelled: the magic numbers that bnode_sniff and leaf_sniff look at, the calls of cursor_check on the
-- whole path in insert_leaf and cursor_redirect (the paths of their theorems lead to a leaf in a btree whose
-- keys are in order, which is what it checks); reference counts, locks and I/O of buffers; the chain of log blocks on disk and the last
-- stage of replay; reading and writing extents in dleaf2; btree_chop,
-- btree_read and btree_write, the enumeration of inodes, the atom
-- table of extended attributes, reading a directory by position, orphans, the
-- commit of deltas, the user space tools.
pub mod Balloc
pub mod Bitmap
pub mod Btree
pub mod Codec
pub mod Dir
pub mod Dleaf2
pub mod Iattr
pub mod Ileaf
pub mod Log
pub mod Prelude
pub mod Replay
pub mod Xattr
