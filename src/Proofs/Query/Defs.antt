-- ===== src/Proofs/Query/Defs.antt =====
-- Generating proofs (src/proofs/query.rs). A `RefWalker` loads pruned nodes as it goes, so each
-- function also returns the tree as it leaves it. The fuel bounds the depth of the tree, which
-- references may extend beyond what is in memory.
use liftedmerk.Base.{
  ℕ, zero, suc, ◌∷◌, [], ◌++◌, List, Bytes, Bool, true, false, ◌||◌, Option, none, some, Result, ok,
  stuck, ◌>>=◌, if◌then◌else◌,
}
use liftedmerk.Tree.Types.{Tree, Slot, vacant, holds, Link}
use liftedmerk.Tree.Link
use liftedmerk.Tree.Node
use liftedmerk.Tree.Walk.{Fetch, ref_walk, replace_child}
use liftedmerk.Tree.Search.{Search, found, missing, binary_search, before, behind}
use liftedmerk.Proofs.Op as Proof
use liftedmerk.Proofs.Op.{Op, push, parent, child}

-- `Link::to_hash_node`: panics at a modified link.
unfoldable pub link_to_hash_node : Link → Result Proof.Node
unfolding Link.hash
link_to_hash_node link = do h ← Link.hash link; ok (Proof.hash h)

unfoldable pub to_kv_node : Tree → Proof.Node
unfolding Link.tree_key Node.value
to_kv_node t = Proof.kv (Link.tree_key t) (Node.value t)

unfoldable pub to_kvhash_node : Tree → Proof.Node
unfolding Node.kv_hash
to_kvhash_node t = Proof.kv_hash (Node.kv_hash t)

-- The operators, and whether a queried key lies beyond the left and the right edge.
abbrev pub Proven : Type 0
Proven = List Op × Bool × Bool

abbrev pub hash_proof : Slot → Result Proven
hash_proof vacant = ok ([], false, false)
hash_proof (holds link) = do n ← link_to_hash_node link; ok (push n ∷ [], false, false)

abbrev pub prove_walked :
    (Tree → List Bytes → Result (Proven × Tree))
    → Bool
    → List Bytes
    → Tree × Option Tree
    → Result (Proven × Tree)
prove_walked prove left keys (t, none) = ok (([], true, true), t)
prove_walked prove left keys (t, some c) = do
  (proven, c') ← prove c keys
  ok (proven, replace_child t left c')

-- `create_child_proof`; `prove` is `create_proof` on the child.
unfoldable pub create_child_proof :
    (Tree → List Bytes → Result (Proven × Tree))
    → Fetch
    → Tree
    → Bool
    → List Bytes
    → Result (Proven × Tree)
unfolding ref_walk replace_child Node.link link_to_hash_node
create_child_proof prove fetch t left (q ∷ keys) = do
  walked ← ref_walk fetch t left
  prove_walked prove left (q ∷ keys) walked
create_child_proof prove fetch t left [] = do proven ← hash_proof (Node.link t left); ok (proven, t)

-- The node to push: with its key and value if it was queried, or is a boundary of an absent key.
abbrev pub pushed : Search → Bool → Tree → Proof.Node
pushed (found i) boundary t = to_kv_node t
pushed (missing i) boundary t = if boundary then to_kv_node t else to_kvhash_node t

-- `op` if the proof of the child is not empty.
abbrev pub op_unless_empty : List Op → Op → List Op
op_unless_empty [] op = []
op_unless_empty (_ ∷ _) op = op ∷ []

abbrev pub assemble : Search → Tree → Proven → Proven → Proven
assemble search t (left_proof, l0, l1) (right_proof, r0, r1) = (
  left_proof
      ++ (push (pushed search (l1 || r0) t)
          ∷ (op_unless_empty left_proof parent
              ++ (right_proof ++ op_unless_empty right_proof child))),
  l0,
  r1,
)

unfoldable pub create_proof : ℕ → Fetch → Tree → List Bytes → Result (Proven × Tree)
unfolding create_child_proof to_kv_node to_kvhash_node binary_search
create_proof zero fetch t keys = stuck
create_proof (suc fuel) fetch t keys = do
  let search = binary_search (λ key. key) keys (Link.tree_key t)
  (left, t1) ← create_child_proof (create_proof fuel fetch) fetch t true (before search keys)
  (right, t2) ← create_child_proof (create_proof fuel fetch) fetch t1 false (behind search keys)
  ok (assemble search t2 left right, t2)
