-- ===== src/Proofs/Layer.antt =====
-- Traversals of a proof tree (src/proofs/verify.rs): `LayerIter` over the nodes at some depth, and the
-- visitors. The stack's top is the head of the list. Trees are equal if their hashes are.
pub mod InOrder
use liftedmerk.Base.{
  ℕ, zero, suc, ◌+◌, ◌-◌, ◌∷◌, [], ◌++◌, List, Bool, true, false, Option, none, some, Result, ok,
  panic, stuck, ◌>>=◌, if◌then◌else◌, cmp, is_eq, length,
}
use liftedmerk.Tree.Hash.{Hasher}
use liftedmerk.Proofs.Op.{Node}
use liftedmerk.Proofs.Verify.Defs.{Tree, tree, MaybeChild, absent, present, get_child, tree_hash}

-- A visitor that mutates what it captures is a function from a state to a state.
module _ {S : Type 0} (visit_node : S → Node → Result S) where
  unfoldable mutual
    pub visit_nodes : Tree → S → Result S
    visit_nodes (tree n left right h) s = do
      s1 ← visit_nodes_below left s
      s2 ← visit_node s1 n
      visit_nodes_below right s2

    pub visit_nodes_below : MaybeChild → S → Result S
    visit_nodes_below absent s = ok s
    visit_nodes_below (present t x) s = visit_nodes t s

module _ {S : Type 0} (visit_ref : S → Tree → Result S) where
  unfoldable mutual
    pub visit_refs : Tree → S → Result S
    visit_refs (tree n left right h) s = do
      s1 ← visit_refs_below left s
      s2 ← visit_ref s1 (tree n left right h)
      visit_refs_below right s2

    pub visit_refs_below : MaybeChild → S → Result S
    visit_refs_below absent s = ok s
    visit_refs_below (present t x) s = visit_refs t s

pub record LayerIter : Type 0 where
  pub stack : List Tree
  pub depth : ℕ

-- `child(left).unwrap()`
abbrev pub unwrap_child : MaybeChild → Result Tree
unwrap_child absent = panic
unwrap_child (present t x) = ok t

unfoldable pub traverse_to_start : Tree → ℕ → List Tree → Result (List Tree)
unfolding get_child
traverse_to_start t zero stack = ok (t ∷ stack)
traverse_to_start t (suc remaining_depth) stack = do
  child ← unwrap_child (get_child t true)
  traverse_to_start child remaining_depth (t ∷ stack)

-- `LayerIter::new`
unfoldable pub new : Tree → ℕ → Result LayerIter
unfolding traverse_to_start
new t depth = do stack ← traverse_to_start t depth []; ok (record { stack = stack; depth = depth })

-- The `while` loop, which runs once for each missing level.
unfoldable pub fill : ℕ → List Tree → Result (List Tree)
unfolding get_child
fill zero stack = ok stack
fill (suc missing) [] = panic
fill (suc missing) (parent ∷ stack) = do
  left_child ← unwrap_child (get_child parent true)
  fill missing (left_child ∷ parent ∷ stack)

module _ ⦃h : Hasher⦄ where
  -- `==` on trees
  unfoldable pub same_tree : Tree → Tree → Result Bool
  unfolding tree_hash
  same_tree t u = do x ← tree_hash t; y ← tree_hash u; ok (is_eq (cmp x y))

  -- The `loop`: up to the next parent whose left child was popped, and down again on its right.
  unfoldable pub climb : ℕ → List Tree → Tree → Result (List Tree)
  unfolding fill get_child same_tree
  climb depth [] popped = ok []
  climb depth (parent ∷ stack) popped = do
    left_child ← unwrap_child (get_child parent true)
    right_child ← unwrap_child (get_child parent false)
    same ← same_tree left_child popped
    let higher = climb depth stack parent
    if same
        then fill (suc depth - length (right_child ∷ parent ∷ stack)) (right_child ∷ parent ∷ stack)
        else higher

  -- `Iterator::next`
  unfoldable pub next : LayerIter → Result (Option Tree × LayerIter)
  unfolding climb
  next iter = elim iter.stack [
    | [] ↦ ok (none, iter)
    | item ∷ stack ↦ do
      stack' ← climb iter.depth stack item
      ok (some item, record iter { stack = stack' })
  ]

  -- `collect` on the iterator; the fuel bounds the calls of `next`.
  unfoldable pub collect : ℕ → LayerIter → Result (List Tree)
  unfolding next
  collect zero iter = stuck
  collect (suc fuel) iter = do
    (item, iter') ← next iter
    let rest = collect fuel iter'
    elim item [ none ↦ ok [] | some t ↦ (rest >>= λ ts. ok (t ∷ ts)) ]
