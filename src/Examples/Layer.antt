-- ===== src/Examples/Layer.antt =====
-- The nodes below the root of a proof tree (src/proofs/verify.rs).
use liftedmerk.Base.{◌+◌, ◌^◌, ◌≡◌, ◌≢◌, refl, ok, stuck, length, []}
use liftedmerk.Tree.Hash as TreeHash
use liftedmerk.Tree.Shape.{root_hash, kv_digest}
use liftedmerk.Proofs.Op.{kv}
use liftedmerk.Proofs.Verify.Defs as Verify
use liftedmerk.Proofs.Verify.Defs.{tree, present}
use liftedmerk.Proofs.Layer.{LayerIter, new, collect}
use liftedmerk.Proofs.Layer.InOrder.{layer, collect-layer, collect_twins}
use liftedmerk.Examples.Sample.{sum_hasher}
use liftedmerk.Examples.Balance.{key, val, single}
use liftedmerk.Examples.Chunk.{side, whole}

three_hashed : Verify.tree_hash (side 3) ≡ ok (root_hash (single 3))
unfolding Verify.tree_hash Verify.compute_hash Verify.child_hash Verify.get_child Verify.root
    TreeHash.kv_hash TreeHash.node_hash root_hash kv_digest
three_hashed = refl

five_hashed : Verify.tree_hash (side 5) ≡ ok (root_hash (single 5))
unfolding Verify.tree_hash Verify.compute_hash Verify.child_hash Verify.get_child Verify.root
    TreeHash.kv_hash TreeHash.node_hash root_hash kv_digest
five_hashed = refl

different : root_hash (single 3) ≢ root_hash (single 5)
unfolding root_hash kv_digest TreeHash.node_hash
different same = cc same

collect-layer_example :
    (iter : LayerIter) × (new whole 1 ≡ ok iter)
    × (collect (2 ^ 1 + 1) iter ≡ ok (layer 1 whole))
    × (length (layer 1 whole) ≡ 2 ^ 1)
collect-layer_example =
    collect-layer 1 whole (tt, tt)
      (root_hash (single 3), root_hash (single 5), three_hashed, five_hashed, different, tt, tt)

-- A node above two equal ones.
collect_twins_example :
    (iter : LayerIter) × (new
        (tree (kv (key 4) (val 4)) (present (side 3) []) (present (side 3) []) 2)
        1
      ≡ ok iter)
    × (collect 100 iter ≡ stuck)
collect_twins_example =
    collect_twins 100 (kv (key 4) (val 4)) (side 3) (side 3) [] [] 2 (root_hash (single 3))
      three_hashed three_hashed
