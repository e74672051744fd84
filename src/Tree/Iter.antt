-- ===== src/Tree/Iter.antt =====
-- The iterator over the nodes in memory (src/tree/iter.rs). The stack's top is the head of the list.
pub mod Entries
use liftedmerk.Base.{
  ℕ, zero, suc, ◌≡◌, ◌∙◌, ◌∷◌, [], ◌++◌, refl, ap, List, Bytes, Bool, true, false, Option, none,
  some, Result, ok, stuck, ◌>>=◌, expect, append_assoc, append-nil, >>=_assoc,
}
use liftedmerk.Tree.Types.{
  Kv, Tree, node, Slot, vacant, holds, Link, reference, modified, uncommitted, loaded,
}
use liftedmerk.Tree.Link
use liftedmerk.Tree.Node

abbrev pub Entry : Type 0
Entry = Bytes × Bytes

-- `StackItem`, with the three fields of `traversed`.
pub record StackItem : Type 0 where
  pub tree : Tree
  pub left_done : Bool
  pub self_done : Bool
  pub right_done : Bool

abbrev pub is_none : Option Tree → Bool
is_none none = true
is_none (some t) = false

-- `StackItem::new`
unfoldable pub new_item : Tree → StackItem
unfolding Node.child
new_item t = record {
  tree = t;
  left_done = is_none (Node.child t true);
  self_done = false;
  right_done = is_none (Node.child t false);
}

unfoldable pub to_entry : StackItem → Entry
unfolding Link.tree_key Node.value
to_entry item = (Link.tree_key item.tree, Node.value item.tree)

-- `Iter::new`
unfoldable pub iter : Tree → List StackItem
unfolding new_item
iter t = new_item t ∷ []

-- What one pass through `next` does: it ends, yields, or calls itself on a changed stack.
pub data Step : Type 0 where
  ended : Step
  yielded : Entry → List StackItem → Step
  moved : List StackItem → Step

abbrev pub visit_left : StackItem → List StackItem → Result Step
visit_left item stack = do
  child ← expect (Node.child item.tree true)
  ok (moved (new_item child ∷ record item { left_done = true } ∷ stack))

abbrev pub visit_right : StackItem → List StackItem → Result Step
visit_right item stack = do
  child ← expect (Node.child item.tree false)
  ok (moved (new_item child ∷ record item { right_done = true } ∷ stack))

abbrev pub next_for : Bool → Bool → Bool → StackItem → List StackItem → Result Step
next_for false self_done right_done item stack = visit_left item stack
next_for true false right_done item stack =
    ok (yielded (to_entry item) (record item { self_done = true } ∷ stack))
next_for true true false item stack = visit_right item stack
next_for true true true item stack = ok (moved stack)

unfoldable pub next : List StackItem → Result Step
unfolding new_item to_entry Node.child
next [] = ok ended
next (item ∷ stack) = next_for item.left_done item.self_done item.right_done item stack

abbrev pub resume : (List StackItem → Result (List Entry)) → Step → Result (List Entry)
resume later ended = ok []
resume later (yielded entry stack) = later stack >>= λ rest. ok (entry ∷ rest)
resume later (moved stack) = later stack

-- All items of the iterator; the fuel bounds the passes through `next`.
unfoldable pub collect : ℕ → List StackItem → Result (List Entry)
unfolding next
collect zero stack = stuck
collect (suc fuel) stack = next stack >>= resume (collect fuel)
