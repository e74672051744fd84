-- ===== src/Proofs/Query/Plan.antt =====
-- What `create_proof` (src/proofs/query.rs) generates, said of the shape that a tree stands for: the
-- outline of the proof, and whether queried keys lie beyond its edges.
use liftedmerk.Base.{◌∷◌, [], List, Bytes, Bool, true, false, ◌||◌, if◌then◌else◌}
use liftedmerk.Tree.Hash.{Hasher}
use liftedmerk.Tree.Shape.{Shape, leaf, fork, kv_digest, root_hash}
use liftedmerk.Tree.Search.{Search, found, missing, binary_search, before, behind}
use liftedmerk.Proofs.Op as Proof
use liftedmerk.Proofs.Op.{Op, push, parent, child}
use liftedmerk.Proofs.Verify.Outline.{Outline, ops}
use liftedmerk.Proofs.Query.Defs.{Proven}

abbrev pub Plan : Type 0
Plan = Outline × Bool × Bool

abbrev pub proven : Plan → Proven
proven (o, a0, a1) = (ops o, a0, a1)

module _ ⦃h : Hasher⦄ where
  abbrev pub planned : Search → Bool → Bytes → Bytes → Proof.Node
  planned (found i) boundary k v = Proof.kv k v
  planned (missing i) boundary k v =
      if boundary then Proof.kv k v else Proof.kv_hash (kv_digest k v)

  abbrev pub joined : Search → Bytes → Bytes → Plan → Plan → Plan
  joined search k v (ol, l0, l1) (or, r0, r1) =
      (Outline.fork ol (planned search (l1 || r0) k v) or, l0, r1)

  abbrev pub search_for : List Bytes → Bytes → Search
  search_for keys k = binary_search (λ key. key) keys k

  -- The proof of a child: its hash, if no key is queried there.
  unfoldable pub plan : Shape → List Bytes → Plan
  plan leaf [] = (Outline.tip, false, false)
  plan leaf (q ∷ keys) = (Outline.tip, true, true)
  plan (fork l k v r) [] =
      (Outline.fork Outline.tip (Proof.hash (root_hash (fork l k v r))) Outline.tip, false, false)
  plan (fork l k v r) (q ∷ keys) =
      let search = search_for (q ∷ keys) k in
      joined search k v (plan l (before search (q ∷ keys))) (plan r (behind search (q ∷ keys)))

  -- The proof of the whole tree.
  unfoldable pub plan_root : Shape → Bytes → Bytes → Shape → List Bytes → Plan
  unfolding plan
  plan_root l k v r keys =
      let search = search_for keys k in
      joined search k v (plan l (before search keys)) (plan r (behind search keys))
