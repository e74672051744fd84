-- ===== src/Proofs/Chunk/Verify.antt =====
-- Verifying leaf chunks and the trunk (src/proofs/chunk.rs).
use liftedmerk.Base.{
  ℕ, zero, suc, ◌+◌, ◌/◌, List, Bool, true, false, not, ◌&&◌, Result, ok, ◌>>=◌, ◌>>◌, guard,
  if◌then◌else◌, ltb, cmp, is_eq, hash_mismatch, leaf_not_full, height_proof_has_hash, inner_not_kv,
  leaf_not_hash, leftmost_not_kvhash,
}
use liftedmerk.Tree.Hash.{Hash, Hasher}
use liftedmerk.Proofs.Op.{Node, Op, hash, kv_hash, kv}
use liftedmerk.Proofs.Chunk.{min_trunk_height}
use liftedmerk.Proofs.Verify.Defs.{
  Tree, tree, MaybeChild, absent, present, root, tree_hash, execute,
}

abbrev pub is_kv_node : Node → Bool
is_kv_node (kv k v) = true
is_kv_node n = false

abbrev pub is_hash_node : Node → Bool
is_hash_node (hash x) = true
is_hash_node n = false

abbrev pub is_kvhash_node : Node → Bool
is_kvhash_node (kv_hash x) = true
is_kvhash_node n = false

abbrev pub leaf_node : Unit {0} → Node → Result (Unit {0})
leaf_node s n = guard (is_kv_node n) leaf_not_full

-- The closure of `verify_trunk`, on `kv_only`.
abbrev pub trunk_node : Bool → Node → Result Bool
trunk_node kv_only n = ok (kv_only && is_kv_node n)

unfoldable mutual
  pub verify_height_proof : Tree → Result ℕ
  verify_height_proof (tree n left right h) = height_of_left left

  pub height_of_left : MaybeChild → Result ℕ
  height_of_left absent = ok 1
  height_of_left (present t x) = do
    guard (not (is_hash_node (root t))) height_proof_has_hash
    height ← verify_height_proof t
    ok (height + 1)

abbrev pub trunk_leaf : Node → Bool → Result (Unit {0})
trunk_leaf n false = guard (is_hash_node n) leaf_not_hash
trunk_leaf n true = guard (is_kvhash_node n) leftmost_not_kvhash

unfoldable mutual
  pub verify_completeness : Tree → ℕ → Bool → Result (Unit {0})
  verify_completeness (tree n left right h) zero leftmost = trunk_leaf n leftmost
  verify_completeness (tree n left right h) (suc remaining_depth) leftmost = do
    guard (is_kv_node n) inner_not_kv
    complete_child left remaining_depth leftmost
    complete_child right remaining_depth false

  pub complete_child : MaybeChild → ℕ → Bool → Result (Unit {0})
  complete_child absent remaining_depth leftmost = ok tt
  complete_child (present t x) remaining_depth leftmost =
      verify_completeness t remaining_depth leftmost

module _ ⦃h : Hasher⦄ where
  unfoldable pub verify_leaf : List (Result Op) → Hash → Result Tree
  unfolding execute tree_hash
  verify_leaf ops expected_hash = do
    (t, s) ← execute false leaf_node ops tt
    actual ← tree_hash t
    guard (is_eq (cmp actual expected_hash)) hash_mismatch
    ok t

  -- The tree, and the height given by the height proof.
  unfoldable pub verify_trunk : List (Result Op) → Result (Tree × ℕ)
  unfolding execute verify_height_proof verify_completeness
  verify_trunk ops = do
    (t, kv_only) ← execute false trunk_node ops true
    height ← verify_height_proof t
    if ltb (height / 2) min_trunk_height
        then guard kv_only leaf_not_full
        else verify_completeness t (height / 2) true
    ok (t, height)
