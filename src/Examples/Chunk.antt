-- ===== src/Examples/Chunk.antt =====
-- Verifying a leaf chunk of three nodes, and chunks that are refused (src/proofs/chunk.rs).
use liftedmerk.Base.{ℕ, ◌≡◌, ◌∷◌, [], refl, cmp, List, Result, ok, err, leaf_not_full}
use liftedmerk.Tree.Hash as TreeHash
use liftedmerk.Tree.Hash.{Hash}
use liftedmerk.Tree.Shape.{Shape, root_hash, kv_digest}
use liftedmerk.Tree.Ops.Contents.{contents}
use liftedmerk.Tree.Ops.Update.Cuts.{IsAscending}
use liftedmerk.Proofs.Op.{Op, hash, kv, push, parent, child}
use liftedmerk.Proofs.Verify.Defs as Verify
use liftedmerk.Proofs.Verify.Defs.{Tree, tree, absent, present}
use liftedmerk.Proofs.Chunk.Verify.{verify_leaf}
use liftedmerk.Proofs.Chunk.Full.{FullTree}
use liftedmerk.Proofs.Chunk.Sound.{verify_leaf-FullTree}
use liftedmerk.Examples.Sample.{sum_hasher}
use liftedmerk.Examples.Balance.{key, val, single, tall}

abbrev pub chunk : List (Result Op)
chunk =
    ok (push (kv (key 3) (val 3)))
    ∷ ok (push (kv (key 4) (val 4)))
    ∷ ok parent
    ∷ ok (push (kv (key 5) (val 5)))
    ∷ ok child
    ∷ []

abbrev pub side : ℕ → Tree
side n = tree (kv (key n) (val n)) absent absent 1

abbrev pub whole : Tree
whole =
    tree (kv (key 4) (val 4)) (present (side 3) (root_hash (single 3)))
      (present (side 5) (root_hash (single 5))) 2

pub accepted : verify_leaf chunk (root_hash tall) ≡ ok whole
unfolding verify_leaf Verify.execute Verify.execute_loop Verify.run_parent Verify.run_child
    Verify.attach Verify.tree_hash Verify.compute_hash Verify.child_hash Verify.get_child
    Verify.height Verify.root Verify.from_node Verify.check_key TreeHash.kv_hash TreeHash.node_hash
    root_hash kv_digest cmp
accepted = refl

verify_leaf-FullTree_example :
    (s : Shape) × FullTree s whole × IsAscending (contents s) × (root_hash s ≡ root_hash tall)
verify_leaf-FullTree_example = verify_leaf-FullTree chunk (root_hash tall) whole accepted

abridged : verify_leaf (ok (push (hash [])) ∷ []) [] ≡ err leaf_not_full
unfolding verify_leaf Verify.execute Verify.execute_loop Verify.check_key
abridged = refl
