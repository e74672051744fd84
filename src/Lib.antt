-- ===== src/Lib.antt =====
-- A model of Merk, a Merkle AVL tree over a key/value store: how a tree of hashed nodes is kept, stored
-- and committed, how proofs are generated from it, and how they are verified.
--
-- The parts, and the files that model them:
--
-- * src/tree is the tree. A node is a key/value pair with its hash and two optional links; a link is a
--   reference to a pruned node, or holds a node that is modified, uncommitted or loaded. Tree/Types has
--   the data, Tree/Hash the hashes (`kv_hash`, `node_hash`), Tree/Kv, Tree/Link and Tree/Node the
--   methods of `KV`, `Link` and `Tree`, Tree/Encoding the stored form, Tree/Commit `Tree::commit` with
--   the trait `Commit`, Tree/Walk the walkers that fetch pruned nodes through the trait `Fetch`,
--   Tree/Search the binary search on keys, Tree/Ops batches of operations with balancing, and
--   Tree/Iter the iterator over the nodes in memory.
--   Below Tree/Ops, Balances says of shapes what `maybe_balance` and `rotate` do, Avl that this ends in
--   balanced shapes, Holds what a tree under operations stands for, with what of it is stored, Refines
--   and Rebalance that the code does on trees what is said of shapes, Remove and Apply the same for
--   `remove` and `apply_to`, and Update what a batch means for a sorted list of entries.
--   Tree/Shape says what a tree stands for: a binary tree of keys and values (`Shape`) with its Merkle
--   root and its lookup. `Rep` and `RepTree` tie the concrete tree to it, through the source for what
--   is pruned; Tree/Slots has the lemmas on reading and writing links under that relation.
-- * src/proofs has the operators of proofs (Proofs/Op), their encoding and the decoding iterator
--   (Proofs/Encoding), `verify_query` on the stack machine `execute` (Proofs/Verify/Defs), and
--   `create_proof` (Proofs/Query/Defs). Proofs/Verify/Outline has proofs as trees of nodes, with
--   the operators of such a tree; Proofs/Query/Plan has the proof of a shape as such a tree.
--   Proofs/Chunk has trunk proofs and the chunks that are read from the stored nodes, and
--   Proofs/Chunk/Verify their verification, Proofs/Chunk/Full and Sound what an accepted leaf chunk
--   shows; RocksDB's raw iterator is the list that it has before it. Proofs/Layer has the visitors of
--   a proof tree and `LayerIter`.
-- * src/merk/mod.rs is the store: Merk/Keys has the check of keys, Merk/Store reads, proves, fetches
--   from the database, and the committer, and Merk/Apply applies and commits batches. Below
--   Merk/Apply, Rows, Saves and Commits follow what a commit changes, Database says what a reliable
--   database keeps, Changed, Durable, Reload, Leftovers and Restart what it has afterwards, and Held,
--   Sound and History what the store answers over many batches; Lost has what a failed deletion
--   leaves. The store uses the tree through `Fetch` and `Commit`. Merk/Chunks is the chunk producer of src/merk/chunks.rs.
--   Merk/Restore is the `Restorer` of src/merk/restore.rs: Merk/Restore/State has its state with the
--   actions on it, Merk/Restore/Nodes what it computes from proof trees and stored nodes. Leaf and
--   Trunk say step by step what an accepted chunk did, Links, Written and Whole what it wrote, Aligned
--   how many hashes and keys it leaves, and Runs follows the chunks from `Restorer::new` on.
-- * Base has lists, options, Boolean tests, byte strings and `Result`: a value, an `Err`, a panic, or
--   `stuck`, where a recursion on fuel ran out. Ed is the interface of the crate `ed`.
-- * Examples has a hasher, a codec and a stored tree, with the runs on them.
--
-- Parameters: Blake2b is the record `Hasher`, with an output of 20 bytes and no other property; the
-- codecs of `ed` are the record `Ed` with the formats that the crate documents; the database is a
-- function from keys to stored bytes where it is only read, and else the record `Rocks`. A restorer
-- takes the outcome of opening a store, and `flush`, which may change the database or fail. Where a
-- theorem needs what was written to be read back, `IsReliable` states it: reads and writes succeed, and
-- a read of a key gives the last write to it in its column family.
--
-- State: what the source mutates is passed on explicitly. Closures that capture variables are
-- functions on a state (`Query` in Proofs/Verify/Defs). The walker's tree is returned as it is left,
-- with what was loaded; what an error leaves of a tree is not modelled. `u8` and `i8` wrap, as in a
-- release build, and `debug_assert` leaves no trace. A byte is a natural number, and so is a height.
--
-- Fuel: `create_proof` and the operations of Tree/Ops descend through references, which reach beyond
-- what is in memory, so the depth is bounded by fuel; the depth of the shape is enough for proofs.
-- The decoding iterator runs on as much fuel as there are bytes, since each operator takes one byte at
-- least. The tree iterator runs on the passes that Tree/Iter/Entries counts for a tree. Balancing in
-- Tree/Ops takes fuel too, as rotations call one another: 386 is enough for sides of at most 126
-- levels, which balanced trees of fewer than 2^63 entries keep to. The depth of `apply_to` has to be
-- above the tree's height plus 128 for each operation, since each deletion applies the rest anew.
-- A layer of a proof tree at depth `d` is collected in `2 ^ d + 1` steps, one for each node of a full
-- layer and one to see the end, where no two siblings have the same hash; else no fuel is enough.
--
-- Not modelled: of src/merk/mod.rs opening, checkpoints, flushing and the raw iterator, which only call
-- RocksDB (the restorer takes a flush as a parameter); debug printing, tests, benchmarks and the
-- crate's root.
pub mod Base
pub mod Ed
pub mod Tree
pub mod Proofs
pub mod Merk
mod Examples
