-- ===== src/Proofs/Query/Refines.antt =====
-- `create_proof` (src/proofs/query.rs) on a tree that stands for a shape, against the shape's plan.
use liftedmerk.Base.{
  ℕ, zero, suc, ◌≡◌, ◌∷◌, [], ◌++◌, refl, ◌∙◌, List, Bytes, Bool, true, false, none, Result, ok,
  ◌≤◌, max, arith,
}
use liftedmerk.Tree.Hash.{Hasher}
use liftedmerk.Tree.Types.{Tree, Slot, vacant, holds, Link}
use liftedmerk.Tree.Link
use liftedmerk.Tree.Node
use liftedmerk.Tree.Walk.{Fetch, ref_walk}
use liftedmerk.Tree.Slots.{
  ref_walk-Resolves, resolved, link-set_slot, link-set_slot_other, set_slot-link, pair-set_slot,
}
use liftedmerk.Tree.Shape.{Shape, leaf, fork, kv_digest, Rep, RepTree, Resolves}
use liftedmerk.Tree.Search.{Search, found, missing, before, behind}
use liftedmerk.Proofs.Op.{Op, push, parent, child}
use liftedmerk.Proofs.Verify.Outline as Outline
use liftedmerk.Proofs.Verify.Outline.{Outline, ops}
use liftedmerk.Proofs.Query.Defs.{
  Proven, op_unless_empty, create_proof, create_child_proof, assemble, to_kv_node, to_kvhash_node,
}
use liftedmerk.Proofs.Query.Plan.{Plan, proven, plan, plan_root, joined, search_for}

-- The levels of a shape.
abbrev pub depth : Shape → ℕ
depth leaf = 0
depth (fork l k v r) = suc (max (depth l) (depth r))

resolved-Resolves :
    ⦃h : Hasher⦄ (fetch : Fetch) (link : Link) (c c' : Tree)
    → Resolves fetch link c
    → Resolves fetch (resolved link c') c' × (Link.hash (resolved link c') ≡ Link.hash link)
unfolding Link.hash
resolved-Resolves fetch (Link.reference x cc k) c c' res = (refl, refl)
resolved-Resolves fetch (Link.modified p cc c0) c c' res = absurd res
resolved-Resolves fetch (Link.uncommitted x cc c0) c c' res = (refl, refl)
resolved-Resolves fetch (Link.loaded x cc c0) c c' res = (refl, refl)

ref_walk_vacant :
    (fetch : Fetch) (t : Tree) (left : Bool)
    → Node.link t left ≡ vacant
    → ref_walk fetch t left ≡ ok (t, none)
unfolding ref_walk
ref_walk_vacant fetch t left e = rw e

set_slot_same :
    (t : Tree) (left : Bool) (s : Slot) → Node.link t left ≡ s → Node.set_slot t left s ≡ t
set_slot_same t left s e = rw (← e) (set_slot-link t left)

module _ ⦃h : Hasher⦄ (fetch : Fetch) where
  -- What is asked of the proof of a child that is there.
  abbrev Works : (Tree → List Bytes → Result (Proven × Tree)) → Shape → Type 0
  Works prove leaf = Unit {0}
  Works prove (fork l k v r) =
      (c : Tree) (keys : List Bytes)
      → RepTree fetch l k v r c
      → (c' : Tree) × (prove c keys ≡ ok (proven (plan_root l k v r keys), c'))
        × RepTree fetch l k v r c'

  module _ (prove : Tree → List Bytes → Result (Proven × Tree)) where
    child_proof :
        (s : Shape) (keys : List Bytes) (t : Tree) (left : Bool)
        → Works prove s
        → Rep fetch s (Node.link t left)
        → (slot : Slot) × (create_child_proof prove fetch t left keys
            ≡ ok (proven (plan s keys), Node.set_slot t left slot))
          × Rep fetch s slot
    unfolding create_child_proof plan ops plan_root
    child_proof leaf [] t left works rep = (vacant, rw (rep, set_slot_same t left vacant rep), refl)
    child_proof leaf (q ∷ keys) t left works rep =
        (vacant, rw (ref_walk_vacant fetch t left rep, set_slot_same t left vacant rep), refl)
    child_proof (fork l k v r) [] t left works rep =
        let (link, c, e, res, hashed, e_key, e_value, e_hash, rep_l, rep_r) = rep in
        (holds link, rw (set_slot_same t left (holds link) e, e, hashed), rw e at rep)
    child_proof (fork l k v r) (q ∷ keys) t left works rep =
        let (link, c, e, res, hashed, e_key, e_value, e_hash, rep_l, rep_r) = rep in
        let (t1, walked, back) = ref_walk-Resolves fetch link t c left e res in
        let (c', proved, rep') = works c (q ∷ keys) (e_key, e_value, e_hash, rep_l, rep_r) in
        let (res', same_hash) = resolved-Resolves fetch link c c' res in
        (
          holds (resolved link c'),
          rw (walked, proved, back c'),
          (
            resolved link c',
            c',
            refl,
            res',
            same_hash ∙ hashed,
            rep'.0,
            rep'.1,
            rep'.2,
            rep'.3,
            rep'.4,
          ),
        )

op_unless_empty-append :
    (xs ys : List Op) (x op : Op) → op_unless_empty (xs ++ (x ∷ ys)) op ≡ op ∷ []
op_unless_empty-append [] ys x op = refl
op_unless_empty-append (_ ∷ xs) ys x op = refl

parent_op_lem : (o : Outline) → op_unless_empty (ops o) parent ≡ Outline.parent_op o
unfolding ops
parent_op_lem Outline.tip = refl
parent_op_lem (Outline.fork l n r) = op_unless_empty-append (ops l) _ (push n) parent

child_op_lem : (o : Outline) → op_unless_empty (ops o) child ≡ Outline.child_op o
unfolding ops
child_op_lem Outline.tip = refl
child_op_lem (Outline.fork l n r) = op_unless_empty-append (ops l) _ (push n) child

module _ ⦃h : Hasher⦄ where
  assemble-joined :
      (search : Search) (t : Tree) (k v : Bytes) (left right : Plan)
      → Link.tree_key t ≡ k
      → Node.value t ≡ v
      → Node.kv_hash t ≡ kv_digest k v
      → assemble search t (proven left) (proven right) ≡ proven (joined search k v left right)
  unfolding ops to_kv_node to_kvhash_node
  assemble-joined (found i) t k v (ol, l0, l1) (or, r0, r1) e_key e_value e_hash =
      rw (parent_op_lem ol, child_op_lem or, e_key, e_value)
  assemble-joined (missing i) t k v (ol, l0, l1) (or, r0, r1) e_key e_value e_hash =
      rw (parent_op_lem ol, child_op_lem or, e_key, e_value, e_hash)

module _ ⦃h : Hasher⦄ (fetch : Fetch) where
  create_proof_step :
      (fuel : ℕ) (l r : Shape) (k v : Bytes) (t : Tree) (keys : List Bytes)
      → Works fetch (create_proof fuel fetch) l
      → Works fetch (create_proof fuel fetch) r
      → RepTree fetch l k v r t
      → (t' : Tree) × (create_proof (suc fuel) fetch t keys
          ≡ ok (proven (plan_root l k v r keys), t'))
        × RepTree fetch l k v r t'
  unfolding create_proof plan_root
  create_proof_step fuel l r k v t keys works_l works_r (e_key, e_value, e_hash, rep_l, rep_r) =
      let search = search_for keys k in
      let prove = create_proof fuel fetch in
      let (s1, e1, rep1) = child_proof fetch prove l (before search keys) t true works_l rep_l in
      let t1 = Node.set_slot t true s1 in
      let other1 = link-set_slot_other t true s1 in
      let (s2, e2, rep2) =
        child_proof fetch prove r (behind search keys) t1 false works_r (rw other1 rep_r) in
      let t2 = Node.set_slot t1 false s2 in
      let (k1, v1, h1) = pair-set_slot t true s1 in
      let (k2, v2, h2) = pair-set_slot t1 false s2 in
      let left_link : Rep fetch l (Node.link t2 true) =
        rw (link-set_slot_other t1 false s2, link-set_slot t true s1) rep1 in
      let right_link : Rep fetch r (Node.link t2 false) = rw (link-set_slot t1 false s2) rep2 in
      (
        t2,
        rw (
          e_key,
          e1,
          e2,
          assemble-joined search t2 k v (plan l (before search keys)) (plan r (behind search keys))
              (k2 ∙ k1 ∙ e_key) (v2 ∙ v1 ∙ e_value) (h2 ∙ h1 ∙ e_hash),
        ),
        (k2 ∙ k1 ∙ e_key, v2 ∙ v1 ∙ e_value, h2 ∙ h1 ∙ e_hash, left_link, right_link),
      )

  works : (fuel : ℕ) (s : Shape) → depth s ≤ fuel → Works fetch (create_proof fuel fetch) s
  works fuel leaf deep = tt
  works zero (fork l k v r) deep = absurd (omega arith)
  works (suc fuel) (fork l k v r) deep = λ c keys rep.
      create_proof_step fuel l r k v c keys (works fuel l (omega arith))
        (works fuel r (omega arith)) rep

  -- On a tree that stands for a node with sides `l` and `r`, and with fuel for its depth,
  -- `create_proof` succeeds with the planned proof, and leaves a tree that stands for the same.
  pub create_proof-plan_root :
      (fuel : ℕ) (l r : Shape) (k v : Bytes) (t : Tree) (keys : List Bytes)
      → depth (fork l k v r) ≤ fuel
      → RepTree fetch l k v r t
      → (t' : Tree) × (create_proof fuel fetch t keys ≡ ok (proven (plan_root l k v r keys), t'))
        × RepTree fetch l k v r t'
  create_proof-plan_root fuel l r k v t keys deep rep = works fuel (fork l k v r) deep t keys rep
