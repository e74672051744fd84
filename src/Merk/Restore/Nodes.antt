-- ===== src/Merk/Restore/Nodes.antt =====
-- What a `Restorer` (src/merk/restore.rs) computes from proof trees and stored nodes, without its state.
use liftedmerk.Base.{
  ℕ, zero, suc, ◌+◌, ◌-◌, ◌/◌, ◌%◌, ◌^◌, max, ◌∷◌, [], ◌++◌, List, Bytes, Bool, true, false, Result,
  ok, panic, ◌>>=◌, ◌>>◌, expect, guard, assert, if◌then◌else◌, ◌==◌, leb, cmp, is_eq, length,
  hash_mismatch,
}
use liftedmerk.Ed.{Ed}
use liftedmerk.Tree.Hash.{Hash, Hasher}
use liftedmerk.Tree.Types as Stored
use liftedmerk.Tree.Types.{Slot, vacant, holds, Link, reference, modified, uncommitted, loaded}
use liftedmerk.Tree.Link
use liftedmerk.Tree.Node
use liftedmerk.Tree.Walk.{Fetch, ref_walk, replace_child}
use liftedmerk.Tree.Encoding.{encode, decode}
use liftedmerk.Proofs.Op as Proof
use liftedmerk.Proofs.Op.{Op}
use liftedmerk.Proofs.Verify.Defs.{
  Tree, tree, MaybeChild, absent, present, height, root, key, tree_hash,
}
use liftedmerk.Proofs.Layer.{visit_refs}
use liftedmerk.Proofs.Layer as Layer
use liftedmerk.Proofs.Chunk.{min_trunk_height}
use liftedmerk.Proofs.Chunk.Verify.{verify_trunk}
use liftedmerk.Merk.Apply.{Write, put_cf, default}

-- The height of a child `as u8`.
abbrev pub height_of : MaybeChild → ℕ
height_of absent = 0
height_of (present t x) = height t % 256

abbrev pub child_heights : Tree → ℕ × ℕ
child_heights (tree n left right h) = (height_of left, height_of right)

-- The key that is written for a child; nodes without a key get an empty one.
abbrev pub link_key : Proof.Node → Bytes
link_key (Proof.kv k v) = k
link_key n = []

-- `Child::as_link`
unfoldable pub as_link : Tree → Hash → Link
unfolding root height
as_link t hash = reference hash (child_heights t) (link_key (root t))

abbrev pub link_slot : MaybeChild → Slot
link_slot absent = vacant
link_slot (present t hash) = holds (as_link t hash)

module _ ⦃h : Hasher⦄ ⦃e : Ed⦄ where
  -- The visitor of `write_chunk`.
  unfoldable pub write_node : List Write → Tree → Result (List Write)
  unfolding Node.new Node.set_slot encode as_link
  write_node batch (tree (Proof.kv k v) left right h') = do
    t ← Node.new k v
    bytes ← encode (Node.set_slot (Node.set_slot t true (link_slot left)) false (link_slot right))
    ok (batch ++ (put_cf default k bytes ∷ []))
  write_node batch t = ok batch

  unfoldable pub chunk_writes : Tree → Result (List Write)
  unfolding visit_refs write_node
  chunk_writes t = visit_refs write_node t []

module _ {A : Type 0} (f : Tree → Result A) where
  unfoldable pub map_trees : List Tree → Result (List A)
  map_trees [] = ok []
  map_trees (t ∷ ts) = do a ← f t; rest ← map_trees ts; ok (a ∷ rest)

module _ ⦃h : Hasher⦄ where
  -- `trunk.layer(depth).map(f).collect()`, with as much fuel as a full layer needs.
  unfoldable pub map_layer : {A : Type 0} → (Tree → Result A) → Tree → ℕ → Result (List A)
  unfolding Layer.new Layer.collect map_trees
  map_layer f trunk depth = do
    iter ← Layer.new trunk depth
    nodes ← Layer.collect (2 ^ depth + 1) iter
    map_trees f nodes

  -- The trunk with its height and the key of its root.
  unfoldable pub check_trunk : List (Result Op) → Hash → Result (Tree × ℕ × Bytes)
  unfolding verify_trunk tree_hash key
  check_trunk ops expected_root_hash = do
    (trunk, height) ← verify_trunk ops
    actual ← tree_hash trunk
    guard (is_eq (cmp actual expected_root_hash)) hash_mismatch
    root_key ← key trunk
    ok (trunk, height, root_key)

  -- The leaf hashes, the parent keys, and how many chunks remain; `usize::pow` wraps.
  unfoldable pub trunk_layers : Tree → ℕ → Result (List Hash × List Bytes × ℕ)
  unfolding map_layer tree_hash key
  trunk_layers trunk trunk_height =
      let layers = (do
        leaf_hashes ← map_layer tree_hash trunk trunk_height
        parent_keys ← map_layer key trunk (trunk_height - 1)
        assert (length parent_keys == length leaf_hashes / 2)
        assert (length leaf_hashes == 2 ^ trunk_height % 2 ^ 64)
        ok (leaf_hashes, parent_keys, 2 ^ trunk_height % 2 ^ 64)) in
      if leb min_trunk_height trunk_height then layers else ok ([], [], 0)

-- `link_mut` with the pattern `Link::Reference`: the key is replaced.
abbrev pub rekeyed : Slot → Bytes → Result Slot
rekeyed (holds (reference h c k)) key' = ok (holds (reference h c key'))
rekeyed s key' = panic

module _ ⦃e : Ed⦄ where
  -- The parent's bytes with the key of its child.
  unfoldable pub rewritten_parent : Stored.Tree → Bool → Bytes → Result Bytes
  unfolding Node.link Node.set_slot encode
  rewritten_parent parent is_left_child leaf_key = do
    slot ← rekeyed (Node.link parent is_left_child) leaf_key
    encode (Node.set_slot parent is_left_child slot)

-- `link_mut(left).unwrap().child_heights_mut()`
abbrev pub reheighted : Slot → ℕ × ℕ → Result Slot
reheighted vacant heights = panic
reheighted (holds link) heights = ok (holds (Link.set_child_heights link heights))

unfoldable pub set_heights : Stored.Tree → Bool → ℕ × ℕ → Result Stored.Tree
unfolding Node.link Node.set_slot Link.set_child_heights
set_heights t left heights = do
  slot ← reheighted (Node.link t left) heights
  ok (Node.set_slot t left slot)

-- One level more, in a `u8`.
abbrev pub above : ℕ × ℕ → ℕ
above heights = (max heights.0 heights.1 + 1) % 256

module _ ⦃e : Ed⦄ (fetch : Fetch) where
  -- `recurse` of `rewrite_trunk_child_heights`: the heights of both sides, the writes, and the tree
  -- with what was loaded.
  unfoldable pub rewrite_heights : ℕ → Stored.Tree → Result ((ℕ × ℕ) × List Write × Stored.Tree)
  unfolding Node.child_heights encode decode ref_walk replace_child set_heights Link.tree_key
  rewrite_heights zero t = ok (Node.child_heights t, [], t)
  rewrite_heights (suc remaining_depth) t = do
    bytes ← encode t
    cloned_node ← decode (Link.tree_key t) bytes
    (t1, maybe_left) ← ref_walk fetch t true
    left_child ← expect maybe_left
    (left_heights, left_writes, left') ← rewrite_heights remaining_depth left_child
    let t2 = replace_child t1 true left'
    cloned1 ← set_heights cloned_node true left_heights
    (t3, maybe_right) ← ref_walk fetch t2 false
    right_child ← expect maybe_right
    (right_heights, right_writes, right') ← rewrite_heights remaining_depth right_child
    cloned2 ← set_heights cloned1 false right_heights
    bytes' ← encode cloned2
    ok (
      (above left_heights, above right_heights),
      left_writes ++ (right_writes ++ (put_cf default (Link.tree_key t) bytes' ∷ [])),
      replace_child t3 false right',
    )
