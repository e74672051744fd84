-- ===== src/Proofs/Chunk.antt =====
-- Chunk proofs (src/proofs/chunk.rs): the trunk proof of a tree, leaf chunks from the stored nodes, and
-- the verification of both. The fuel bounds the depth of the tree. RocksDB's raw iterator is the list
-- of keys and values that it has before it.
pub mod Verify
pub mod Full
pub mod Sound
use liftedmerk.Base.{
  ℕ, zero, suc, ◌+◌, ◌/◌, ◌-◌, ◌^◌, ◌∷◌, [], ◌++◌, List, Bytes, Bool, true, false, not, ◌&&◌,
  Option, none, some, Result, ok, err, stuck, ◌>>=◌, ◌>>◌, expect, guard, if◌then◌else◌, ◌==◌, ltb,
  cmp, is_eq, is_lt, hash_mismatch, leaf_not_full, height_proof_has_hash, inner_not_kv,
  leaf_not_hash, leftmost_not_kvhash,
}
use liftedmerk.Ed.{Ed}
use liftedmerk.Tree.Hash.{Hash, Hasher}
use liftedmerk.Tree.Types as Stored
use liftedmerk.Tree.Types.{Slot, vacant, holds, Link}
use liftedmerk.Tree.Link
use liftedmerk.Tree.Node
use liftedmerk.Tree.Walk.{Fetch, ref_walk, replace_child}
use liftedmerk.Tree.Encoding.{decode}
use liftedmerk.Proofs.Op as Proof
use liftedmerk.Proofs.Op.{Op, push, parent, child}
use liftedmerk.Proofs.Query.Defs.{link_to_hash_node, to_kv_node, to_kvhash_node}
use liftedmerk.Proofs.Verify.Defs.{
  Tree, tree, MaybeChild, absent, present, root, tree_hash, execute,
}

abbrev pub min_trunk_height : ℕ
min_trunk_height = 5

abbrev pub when_op : Bool → Op → List Op
when_op true op = op ∷ []
when_op false op = []

abbrev pub right_hash : Slot → Result (List Op)
right_hash vacant = ok []
right_hash (holds link) = do x ← Link.hash link; ok (push (Proof.hash x) ∷ child ∷ [])

-- The operators, the trunk's height, whether there is a left child, and the tree as it is left.
abbrev pub Descended : Type 0
Descended = List Op × ℕ × Bool × Stored.Tree

abbrev pub height_below :
    (Stored.Tree → Result (List Op × ℕ × Stored.Tree))
    → ℕ
    → Stored.Tree × Option Stored.Tree
    → Result Descended
height_below traverse depth (t, none) = ok ([], depth / 2, false, t)
height_below traverse depth (t, some left) = do
  (ops, trunk_height, left') ← traverse left
  ok (ops, trunk_height, true, replace_child t true left')

abbrev pub height_node : ℕ → Descended → Result (List Op × ℕ × Stored.Tree)
height_node depth (ops, trunk_height, has_left_child, t) =
    if ltb trunk_height depth
    then (do
      right ← right_hash (Node.link t false)
      ok (
        ops ++ ((push (to_kvhash_node t) ∷ when_op has_left_child parent) ++ right),
        trunk_height,
        t,
      ))
    else ok (ops, trunk_height, t)

unfoldable pub traverse_for_height_proof :
    ℕ → Fetch → Stored.Tree → ℕ → Result (List Op × ℕ × Stored.Tree)
unfolding ref_walk replace_child Node.link Link.hash to_kvhash_node
traverse_for_height_proof zero fetch t depth = stuck
traverse_for_height_proof (suc fuel) fetch t depth = do
  walked ← ref_walk fetch t true
  descended ←
      height_below (λ left. traverse_for_height_proof fuel fetch left (depth + 1)) depth walked
  height_node depth descended

-- A side of a node, with the operators for it, if there is a child.
abbrev pub trunk_side :
    (Stored.Tree → Result (List Op × Stored.Tree))
    → Bool
    → Stored.Tree × Option Stored.Tree
    → Result (Option (List Op) × Stored.Tree)
trunk_side traverse left (t, none) = ok (none, t)
trunk_side traverse left (t, some c) = do
  (ops, c') ← traverse c
  ok (some ops, replace_child t left c')

abbrev pub side_ops : Option (List Op) → Op → List Op
side_ops none op = []
side_ops (some ops) op = ops ++ (op ∷ [])

abbrev pub left_ops : Option (List Op) → Proof.Node → List Op
left_ops none n = push n ∷ []
left_ops (some ops) n = ops ++ (push n ∷ parent ∷ [])

module _ ⦃h : Hasher⦄ where
  abbrev pub trunk_bottom : Stored.Tree → Bool → Result (List Op × Stored.Tree)
  trunk_bottom t true = ok ([], t)
  trunk_bottom t false = do h' ← Node.hash t; ok (push (Proof.hash h') ∷ [], t)

  unfoldable pub traverse_for_trunk :
      ℕ → Fetch → Stored.Tree → ℕ → Bool → Result (List Op × Stored.Tree)
  unfolding ref_walk replace_child to_kv_node Node.hash
  traverse_for_trunk zero fetch t remaining_depth is_leftmost = stuck
  traverse_for_trunk (suc fuel) fetch t remaining_depth is_leftmost =
      let further = (do
        walked ← ref_walk fetch t true
        (left, t1) ←
            trunk_side (λ c. traverse_for_trunk fuel fetch c (remaining_depth - 1) is_leftmost) true
              walked
        walked1 ← ref_walk fetch t1 false
        (right, t2) ←
            trunk_side (λ c. traverse_for_trunk fuel fetch c (remaining_depth - 1) false) false
              walked1
        ok (left_ops left (to_kv_node t1) ++ side_ops right child, t2)) in
      if remaining_depth == 0 then trunk_bottom t is_leftmost else further

  -- The proof, whether more chunks follow, and the tree as it is left; `usize::MAX` is `2 ^ 64 - 1`.
  unfoldable pub create_trunk_proof :
      ℕ → Fetch → Stored.Tree → Result (List Op × Bool × Stored.Tree)
  unfolding traverse_for_height_proof traverse_for_trunk
  create_trunk_proof fuel fetch t = do
    (proof, trunk_height, t1) ← traverse_for_height_proof fuel fetch t 1
    if ltb trunk_height min_trunk_height
        then (do
          (whole, t2) ← traverse_for_trunk fuel fetch t1 (2 ^ 64 - 1) true
          ok (whole, false, t2))
        else (do
          (trunk, t2) ← traverse_for_trunk fuel fetch t1 trunk_height true
          ok (proof ++ trunk, true, t2))

abbrev pub is_end : Option Bytes → Bytes → Bool
is_end none key = false
is_end (some end_key) key = is_eq (cmp key end_key)

-- The `while let` loop: parents whose right side is complete.
unfoldable pub pop_complete : Bytes → List Bytes → List Op × List Bytes
pop_complete key [] = ([], [])
pop_complete key (top_key ∷ stack) =
    let more = pop_complete key stack in
    if is_lt (cmp key top_key) then ([], top_key ∷ stack) else (child ∷ more.0, more.1)

abbrev pub chunk_right : Slot → Bytes → List Bytes → List Op × List Bytes
chunk_right vacant key stack = pop_complete key stack
chunk_right (holds link) key stack = ([], Link.key link ∷ stack)

abbrev pub has_link : Slot → Bool
has_link vacant = false
has_link (holds link) = true

-- What a stored node adds to the chunk, and the stack behind it.
unfoldable pub chunk_node : Bytes → Stored.Tree → List Bytes → List Op × List Bytes
unfolding pop_complete Node.link Node.value Link.key
chunk_node key stored stack =
    let closed = chunk_right (Node.link stored false) key stack in
    (
      (push (Proof.kv key (Node.value stored)) ∷ when_op (has_link (Node.link stored true)) parent)
          ++ closed.0,
      closed.1,
    )

module _ ⦃e : Ed⦄ where
  -- The `while` loop; it also gives what the iterator has left.
  unfoldable pub chunk_loop :
      List (Bytes × Bytes) → Option Bytes → List Bytes → Result (List Op × List (Bytes × Bytes))
  unfolding chunk_node decode
  chunk_loop [] end_key stack = ok ([], [])
  chunk_loop ((key, encoded_node) ∷ iter) end_key stack =
      let further = (do
        stored ← decode [] encoded_node
        (ops, iter') ← chunk_loop iter end_key (chunk_node key stored stack).1
        ok ((chunk_node key stored stack).0 ++ ops, iter')) in
      if is_end end_key key then ok ([], iter) else further

  unfoldable pub get_next_chunk :
      List (Bytes × Bytes) → Option Bytes → Result (List Op × List (Bytes × Bytes))
  unfolding chunk_loop
  get_next_chunk iter end_key = chunk_loop iter end_key []
