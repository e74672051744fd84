-- ===== src/Examples/Restore.antt =====
-- Restoring a small store from chunks (src/merk/restore.rs) into a database that is the list of its
-- writes.
use liftedmerk.Base.{
  ℕ, suc, ◌+◌, ◌≡◌, ◌∷◌, ◌++◌, [], refl, ap, All, false, cmp, read_exact, Bytes, List, none, some,
  ok, err, arith, chunks_remaining, length,
}
use liftedmerk.Tree.Hash as TreeHash
use liftedmerk.Tree.Hash.{Hash}
use liftedmerk.Tree.Shape.{Shape, fork, root_hash, kv_digest}
use liftedmerk.Tree.Kv
use liftedmerk.Tree.Link
use liftedmerk.Tree.Node
use liftedmerk.Tree.Encoding as Stored
use liftedmerk.Tree.Ops.Contents.{contents}
use liftedmerk.Tree.Ops.Update.Cuts.{IsAscending}
use liftedmerk.Proofs.Op.{Op, kv, push, parent, child}
use liftedmerk.Proofs.Encoding.{encode_into, decode_all}
use liftedmerk.Proofs.Encoding.RoundTrip.{Fits, decode_all-encode_into}
use liftedmerk.Proofs.Verify.Defs as Verify
use liftedmerk.Proofs.Layer as Layer
use liftedmerk.Proofs.Chunk.Verify.{verify_leaf, verify_trunk, verify_height_proof}
use liftedmerk.Merk.Store.{fetch_node}
use liftedmerk.Merk.Apply.{
  Merk, Write, put_cf, default, internal_family, root_key_key, write, set_root_key,
}
use liftedmerk.Merk.Restore.State.{Restorer}
use liftedmerk.Merk.Restore.Nodes.{
  check_trunk, trunk_layers, chunk_writes, write_node, as_link, rewritten_parent,
}
use liftedmerk.Merk.Restore.{
  new, remaining_chunks, remaining_chunks_unchecked, write_chunk, process_trunk, process_leaf,
  rewrite_parent_link, process_chunk, finalize,
}
use liftedmerk.Merk.Restore.Links.{Relinked}
use liftedmerk.Merk.Restore.Leaf.{keys_after}
use liftedmerk.Merk.Restore.Written.{Restores, process_chunk-Restores}
use liftedmerk.Merk.Restore.Whole.{process_chunk_whole}
use liftedmerk.Merk.Restore.Aligned.{IsAligned}
use liftedmerk.Merk.Restore.Runs.{idle, accepts, remaining_chunks-Runs, finalize-Runs}
use liftedmerk.Examples.Sample.{sum_hasher, sample_ed}
use liftedmerk.Examples.Balance.{key, val, tall}
use liftedmerk.Examples.Store.{log_rocks}
use liftedmerk.Examples.Chunk.{chunk}

abbrev operators : List Op
operators =
    push (kv (key 3) (val 3))
    ∷ push (kv (key 4) (val 4))
    ∷ parent
    ∷ push (kv (key 5) (val 5))
    ∷ child
    ∷ []

operators-Fits : All Fits operators
operators-Fits = (
  (omega arith, omega arith),
  ((omega arith, omega arith), (tt, ((omega arith, omega arith), (tt, tt)))),
)

abbrev chunk_bytes : Bytes
chunk_bytes = encode_into operators []

decoded : decode_all chunk_bytes ≡ chunk
decoded = decode_all-encode_into operators operators-Fits

abbrev empty : Merk (List Write)
empty = record { tree = none; db = [] }

abbrev first : Restorer (List Write)
first = record {
  leaf_hashes = none;
  parent_keys = none;
  trunk_height = none;
  merk = empty;
  expected_root_hash = root_hash tall;
  stated_length = 1;
}

made : new false (ok empty) (root_hash tall) 1 ≡ ok first
unfolding new
made = refl

abbrev last : Restorer (List Write)
last = (process_trunk log_rocks chunk first).1

trunk_accepted : ((process_trunk log_rocks chunk first).0 ≡ ok 0) × (last.trunk_height ≡ some 1)
unfolding process_trunk check_trunk verify_trunk verify_height_proof Verify.execute
    Verify.execute_loop Verify.run_parent Verify.run_child Verify.attach Verify.tree_hash
    Verify.compute_hash Verify.child_hash Verify.get_child Verify.key Verify.height Verify.root
    Verify.from_node Verify.check_key TreeHash.kv_hash TreeHash.node_hash root_hash kv_digest cmp
    trunk_layers write_chunk chunk_writes Layer.visit_refs Layer.visit_refs_below write_node as_link
    Node.new Kv.new Node.set_slot Stored.encode Stored.encode_link Stored.encode_kv Link.tree_key
    write set_root_key
trunk_accepted = (refl, refl)

whole_accepted : process_chunk log_rocks chunk_bytes first ≡ (ok 0, last)
unfolding process_chunk
whole_accepted = rw decoded (ap (λ result. (result, last)) trunk_accepted.0)

process_chunk_whole_example :
    (left : Shape) × (k : Bytes) × (v : Bytes) × (right : Shape) × (batch : List Write)
    × (db1 : List Write) × (root_hash (fork left k v right) ≡ root_hash tall)
    × IsAscending (contents (fork left k v right))
    × (first.stated_length ≡ 1)
    × (◌≡◌ {A = ℕ} 0 0)
    × (last.leaf_hashes ≡ some [])
    × Restores (fork left k v right) batch
    × (log_rocks.write_opt [] batch ≡ ok db1)
    × (log_rocks.write_opt db1 (put_cf internal_family root_key_key k ∷ []) ≡ ok last.merk.db)
process_chunk_whole_example =
    process_chunk_whole log_rocks chunk_bytes first last 0 1 refl whole_accepted trunk_accepted.1
      (omega arith)

remaining_chunks-Runs_example :
    (n : ℕ) × (remaining_chunks last ≡ some n) × (suc 0 + n ≡ 1) × IsAligned last n
remaining_chunks-Runs_example =
    remaining_chunks-Runs log_rocks false (ok empty) (root_hash tall) 1 first last 0 made
      (accepts 0 0 chunk_bytes first last idle whole_accepted)

finalize-Runs_example : finalize log_rocks (λ db. ok db) first ≡ (err chunks_remaining, first)
finalize-Runs_example =
    finalize-Runs log_rocks (λ db. ok db) false (ok empty) (root_hash tall) 1 first first 0 made
      idle (omega arith)

-- A restorer for which the same bytes are the last leaf chunk; its parent has no left child.
abbrev parent_bytes : Bytes
parent_bytes =
    0
    ∷ 1
    ∷ (Stored.encode_fields (root_hash tall) [] (1, 1) ++ (kv_digest (key 2) (val 2) ++ val 2))

abbrev waiting : Restorer (List Write)
waiting = record {
  leaf_hashes = some (root_hash tall ∷ []);
  parent_keys = some (key 2 ∷ []);
  trunk_height = some 5;
  merk = record { tree = none; db = put_cf default (key 2) parent_bytes ∷ [] };
  expected_root_hash = [];
  stated_length = 33;
}

abbrev finished : Restorer (List Write)
finished = (process_leaf log_rocks chunk waiting).1

leaf_processed : (process_leaf log_rocks chunk waiting).0 ≡ ok 0
unfolding process_leaf rewrite_parent_link fetch_node rewritten_parent remaining_chunks
    remaining_chunks_unchecked verify_leaf Verify.execute Verify.execute_loop Verify.run_parent
    Verify.run_child Verify.attach Verify.tree_hash Verify.compute_hash Verify.child_hash
    Verify.get_child Verify.key Verify.height Verify.root Verify.from_node Verify.check_key
    TreeHash.kv_hash TreeHash.node_hash root_hash kv_digest cmp write_chunk chunk_writes
    Layer.visit_refs Layer.visit_refs_below write_node as_link Node.new Kv.new Node.set_slot
    Node.link Stored.encode Stored.encode_link Stored.encode_kv Stored.decode Stored.decode_fields
    Stored.decode_link Stored.decode_kv Stored.read_u8 read_exact Link.tree_key write
leaf_processed = refl

leaf_accepted : process_chunk log_rocks chunk_bytes waiting ≡ (ok 0, finished)
unfolding process_chunk
leaf_accepted = rw decoded (ap (λ result. (result, finished)) leaf_processed)

process_chunk-Restores_example :
    (left : Shape) × (k : Bytes) × (v : Bytes) × (right : Shape) × (xs : List Hash) × (p : Bytes)
    × (ps : List Bytes) × (bytes : Bytes) × (batch : List Write) × (db1 : List Write) × ((root_hash
            tall
          ∷ [])
        ≡ root_hash (fork left k v right) ∷ xs)
    × IsAscending (contents (fork left k v right))
    × (some (key 2 ∷ []) ≡ some (p ∷ ps))
    × Relinked log_rocks waiting.merk.db p false k bytes
    × (log_rocks.write_opt waiting.merk.db (put_cf default p bytes ∷ []) ≡ ok db1)
    × Restores (fork left k v right) batch
    × (log_rocks.write_opt db1 batch ≡ ok finished.merk.db)
    × (finished.leaf_hashes ≡ some xs)
    × (finished.parent_keys ≡ some (keys_after 1 p ps))
    × (0 ≡ length xs)
process_chunk-Restores_example =
    process_chunk-Restores log_rocks chunk_bytes waiting finished 0 (root_hash tall ∷ []) refl
      leaf_accepted
