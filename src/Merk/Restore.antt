-- ===== src/Merk/Restore.antt =====
-- `Restorer` (src/merk/restore.rs), which rebuilds a store from chunks. Opening a database and flushing
-- it are parameters.
pub mod State
pub mod Nodes
pub mod Links
pub mod Leaf
pub mod Written
pub mod Trunk
pub mod Whole
pub mod Aligned
pub mod Runs
use liftedmerk.Base.{
  ℕ, ◌+◌, ◌/◌, ◌%◌, ◌∷◌, [], List, Bytes, Bool, true, false, not, Option, none, some, Result, ok,
  err, panic, stuck, expect, guard, assert, if◌then◌else◌, ◌==◌, leb, length, path_exists,
  chunks_remaining,
}
use liftedmerk.Ed.{Ed}
use liftedmerk.Tree.Hash.{Hash, Hasher}
use liftedmerk.Tree.Types as Stored
use liftedmerk.Proofs.Op.{Op}
use liftedmerk.Proofs.Encoding.{decode_all}
use liftedmerk.Proofs.Verify.Defs.{Tree, key}
use liftedmerk.Proofs.Chunk.{min_trunk_height}
use liftedmerk.Proofs.Chunk.Verify.{verify_leaf}
use liftedmerk.Merk.Store.{fetch_node, source}
use liftedmerk.Merk.Apply.{
  Merk, Outcome, Rocks, Write, put_cf, default, main, write, set_root_key, load_root,
}
use liftedmerk.Merk.Restore.State.{Restorer, Action, lift, gets, modify, on_merk, ◌>>=◌, ◌>>◌}
use liftedmerk.Merk.Restore.Nodes.{
  chunk_writes, check_trunk, trunk_layers, rewritten_parent, rewrite_heights,
}

-- `Restorer::new`, after looking for the path and opening a store there.
abbrev pub started : {D : Type 0} → Result (Merk D) → Hash → ℕ → Result (Restorer D)
started (ok merk) expected_root_hash stated_length = ok (record {
  leaf_hashes = none;
  parent_keys = none;
  trunk_height = none;
  merk = merk;
  expected_root_hash = expected_root_hash;
  stated_length = stated_length;
})
started (err e) expected_root_hash stated_length = err e
started panic expected_root_hash stated_length = panic
started stuck expected_root_hash stated_length = stuck

unfoldable pub new : {D : Type 0} → Bool → Result (Merk D) → Hash → ℕ → Result (Restorer D)
new true opened expected_root_hash stated_length = err path_exists
new false opened expected_root_hash stated_length = started opened expected_root_hash stated_length

abbrev pub length_of : Option (List Hash) → Option ℕ
length_of none = none
length_of (some leaf_hashes) = some (length leaf_hashes)

abbrev pub is_zero : Option ℕ → Bool
is_zero none = false
is_zero (some n) = n == 0

abbrev pub peek : {A : Type 0} → Option (List A) → Result A
peek (some (a ∷ rest)) = ok a
peek o = panic

-- `next` of a peekable iterator.
abbrev pub advance : {A : Type 0} → Option (List A) → Option (List A)
advance (some (a ∷ rest)) = some rest
advance o = o

module _ {D : Type 0} where
  unfoldable pub remaining_chunks : Restorer D → Option ℕ
  remaining_chunks r = length_of r.leaf_hashes

  unfoldable pub remaining_chunks_unchecked : Restorer D → Result ℕ
  unfolding remaining_chunks
  remaining_chunks_unchecked r = expect (remaining_chunks r)

module _ {D : Type 0} (rocks : Rocks D) ⦃h : Hasher⦄ ⦃e : Ed⦄ where
  unfoldable pub write_chunk : Tree → Action D (Unit {0})
  unfolding chunk_writes write
  write_chunk t = do batch ← lift (chunk_writes t); on_merk (λ merk. write rocks merk batch)

  -- The hashes and keys are put in the state together, behind the checks on them; what a panic in
  -- between leaves is not modelled.
  unfoldable pub process_trunk : List (Result Op) → Action D ℕ
  unfolding check_trunk trunk_layers write_chunk set_root_key
  process_trunk ops = do
    (trunk, height, root_key) ← gets (λ r. check_trunk ops r.expected_root_hash)
    modify (λ r. record r { trunk_height = some (height / 2) })
    (leaf_hashes, parent_keys, remaining) ← lift (trunk_layers trunk (height / 2))
    modify (λ r. record r { leaf_hashes = some leaf_hashes; parent_keys = some parent_keys })
    gets (λ r. assert (r.stated_length == remaining + 1))
    write_chunk trunk
    on_merk (λ merk. set_root_key rocks merk root_key)
    lift (ok remaining)

  -- `db.put` writes a batch of one.
  unfoldable pub rewrite_parent_link : Tree → Action D (Unit {0})
  unfolding fetch_node rewritten_parent remaining_chunks_unchecked key write
  rewrite_parent_link leaf = do
    parent_key ← gets (λ r. peek r.parent_keys)
    maybe_parent ← gets (λ r. fetch_node (main rocks r.merk.db) parent_key)
    parent ← lift (expect maybe_parent)
    remaining ← gets remaining_chunks_unchecked
    leaf_key ← lift (key leaf)
    bytes ← lift (rewritten_parent parent (remaining % 2 == 0) leaf_key)
    on_merk (λ merk. write rocks merk (put_cf default parent_key bytes ∷ []))
    modify (λ r. if remaining % 2 == 0 then r else record r { parent_keys = advance r.parent_keys })

  unfoldable pub process_leaf : List (Result Op) → Action D ℕ
  unfolding verify_leaf rewrite_parent_link write_chunk remaining_chunks_unchecked
  process_leaf ops = do
    leaf_hash ← gets (λ r. peek r.leaf_hashes)
    leaf ← lift (verify_leaf ops leaf_hash)
    rewrite_parent_link leaf
    write_chunk leaf
    modify (λ r. record r { leaf_hashes = advance r.leaf_hashes })
    gets remaining_chunks_unchecked

  abbrev pub process_ops : Option (List Hash) → List (Result Op) → Action D ℕ
  process_ops none ops = process_trunk ops
  process_ops (some leaf_hashes) ops = process_leaf ops

  unfoldable pub process_chunk : Bytes → Action D ℕ
  unfolding process_trunk process_leaf decode_all
  process_chunk chunk_bytes r = process_ops r.leaf_hashes (decode_all chunk_bytes) r

  module _ (flush : D → Result D) where
    abbrev pub flushed : Merk D → Result D → Outcome D
    flushed merk (ok db) = (record merk { db = db }, ok tt)
    flushed merk (err e) = (merk, err e)
    flushed merk panic = (merk, panic)
    flushed merk stuck = (merk, stuck)

    -- `Merk::flush`
    abbrev pub flush_merk : Merk D → Outcome D
    flush_merk merk = flushed merk (flush merk.db)

    -- `recurse`, on the tree that `use_tree_mut` hands out.
    abbrev pub heights_of : D → ℕ → Option Stored.Tree → Result ((ℕ × ℕ) × List Write × Stored.Tree)
    heights_of db depth none = panic
    heights_of db depth (some t) = rewrite_heights (source (main rocks db)) depth t

    unfoldable pub rewrite_trunk_child_heights : Action D (Unit {0})
    unfolding load_root rewrite_heights source write
    rewrite_trunk_child_heights = do
      on_merk flush_merk
      on_merk (load_root rocks)
      depth ← gets (λ r. expect r.trunk_height)
      (heights, batch, tree') ← gets (λ r. heights_of r.merk.db depth r.merk.tree)
      modify (λ r. record r { merk = record { tree = some tree'; db = r.merk.db } })
      on_merk (λ merk. write rocks merk batch)

    -- `finalize` gives the store away, whose state is the restorer's.
    unfoldable pub finalize : Action D (Unit {0})
    unfolding remaining_chunks rewrite_trunk_child_heights load_root
    finalize = do
      gets (λ r. guard (is_zero (remaining_chunks r)) chunks_remaining)
      trunk_height ← gets (λ r. expect r.trunk_height)
      if leb min_trunk_height trunk_height then rewrite_trunk_child_heights else lift (ok tt)
      on_merk flush_merk
      on_merk (load_root rocks)
