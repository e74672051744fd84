-- ===== src/Tree/Ops/Apply/Missing.antt =====
-- `apply_to` (src/tree/ops.rs) on the deletion of a key that is not there.
use liftedmerk.Base.{
  ℕ, zero, suc, ◌≡◌, ◌<◌, ◌∷◌, [], refl, Bytes, Bool, true, false, Option, none, err, arith,
  delete_nonexistent, cmp, cmp-cases, inl, inr,
}
use Prim.Native.Nat.Ordering.{lt, gt}
use liftedmerk.Tree.Hash.{Hasher}
use liftedmerk.Tree.Types.{Tree, node}
use liftedmerk.Tree.Link
use liftedmerk.Tree.Node
use liftedmerk.Tree.Walk.{Fetch}
use liftedmerk.Tree.Search.{missing, binary_search}
use liftedmerk.Tree.Shape.{Shape, leaf, fork, height, lookup}
use liftedmerk.Tree.Ops.{Op, delete, walk_apply, recurse, build, apply, apply_to}
use liftedmerk.Tree.Ops.Holds.{pair, Holds, StandsMaybe, detach-Holds}

module _ ⦃h : Hasher⦄ (fuel : ℕ) (fetch : Fetch) (k : Bytes) where
  searched_low :
      (q : Bytes)
      → cmp k q ≡ lt
      → binary_search {A = Bytes × Op} (λ entry. entry.0) ((k, delete) ∷ []) q ≡ missing 1
  unfolding binary_search
  searched_low q low = rw (low, binary_search) refl

  searched_high :
      (q : Bytes)
      → cmp k q ≡ gt
      → binary_search {A = Bytes × Op} (λ entry. entry.0) ((k, delete) ∷ []) q ≡ missing 0
  unfolding binary_search
  searched_high q high = rw (high, binary_search) refl

  -- The failure on a side is the failure of the node's.
  side_fails :
      (depth : ℕ) (s : Shape) (t : Tree) (left : Bool)
      → ((o : Option Tree)
          → StandsMaybe fetch s o
          → apply_to fuel depth fetch o ((k, delete) ∷ []) ≡ err delete_nonexistent)
      → Holds fetch s (Node.link t left)
      → walk_apply (apply_to fuel depth fetch) fetch t left ((k, delete) ∷ [])
        ≡ err delete_nonexistent
  unfolding walk_apply
  side_fails depth s t left fails held =
      let (o, detached, stands) = detach-Holds fetch s t left held in
      rw (detached, fails o stands) refl

  pub apply_to-missing :
      (s : Shape) (o : Option Tree) (depth : ℕ)
      → StandsMaybe fetch s o
      → lookup s k ≡ none
      → height s < depth
      → apply_to fuel depth fetch o ((k, delete) ∷ []) ≡ err delete_nonexistent
  unfolding lookup apply_to apply build recurse Link.tree_key Node.link walk_apply
  apply_to-missing s o zero stands absent deep = absurd (omega arith)
  apply_to-missing leaf o (suc depth) stands absent deep = rw stands refl
  apply_to-missing (fork l q v r) o (suc depth) (sl, sr, is_o, hl, hr) absent deep =
      elim (cmp-cases k q) [
        | inl low ↦
            let fails =
              side_fails depth l (node sl sr (pair q v)) true
                (λ o' stands.
                  apply_to-missing l o' depth stands (rw (low, lookup) at absent)
                    (omega (arith, deep)))
                hl in
            rw (is_o, searched_low q low, recurse, fails) refl
        | inr (inl same) ↦ cc (rw (same, lookup) at absent)
        | inr (inr high) ↦
            let fails =
              side_fails depth r (node sl sr (pair q v)) false
                (λ o' stands.
                  apply_to-missing r o' depth stands (rw (high, lookup) at absent)
                    (omega (arith, deep)))
                hr in
            rw (is_o, searched_high q high, recurse, walk_apply, fails) refl
      ]
