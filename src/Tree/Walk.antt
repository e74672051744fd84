-- ===== src/Tree/Walk.antt =====
-- Traversal with a source for pruned nodes: `Tree::load` (src/tree/mod.rs), `Walker`
-- (src/tree/walk/mod.rs) and `RefWalker` (src/tree/walk/ref_walker.rs). A walker is its tree; its
-- source, the trait `Fetch`, is an argument. `Owner` leaves no trace.
use liftedmerk.Base.{Bool, Option, none, some, Result, ok, panic, ◌>>=◌}
use liftedmerk.Tree.Types.{
  Tree, Slot, vacant, holds, Link, reference, modified, uncommitted, loaded,
}
use liftedmerk.Tree.Node

-- `Fetch::fetch`
abbrev pub Fetch : Type 0
Fetch = Link → Result Tree

abbrev pub load_slot : Fetch → Slot → Result Slot
load_slot fetch vacant = panic
load_slot fetch (holds (reference h c k)) = do
  t ← fetch (reference h c k)
  ok (holds (loaded h c t))
load_slot fetch (holds _) = panic

-- `Tree::load`: the child of a reference is fetched and kept. Panics at any other slot.
unfoldable pub load : Fetch → Tree → Bool → Result Tree
unfolding Node.link Node.set_slot
load fetch t left = do s ← load_slot fetch (Node.link t left); ok (Node.set_slot t left s)

abbrev pub detach_slot : Fetch → Slot → Tree → Bool → Result (Tree × Option Tree)
detach_slot fetch vacant t left = ok (t, none)
detach_slot fetch (holds (reference h c k)) t left = do
  child ← fetch (reference h c k)
  ok (Node.set_slot t left vacant, some child)
detach_slot fetch (holds (modified p c child)) t left = ok (Node.detach t left)
detach_slot fetch (holds (uncommitted h c child)) t left = ok (Node.detach t left)
detach_slot fetch (holds (loaded h c child)) t left = ok (Node.detach t left)

-- `Walker::detach`
unfoldable pub detach : Fetch → Tree → Bool → Result (Tree × Option Tree)
unfolding Node.link Node.set_slot Node.detach
detach fetch t left = detach_slot fetch (Node.link t left) t left

unfoldable pub detach_expect : Fetch → Tree → Bool → Result (Tree × Tree)
unfolding detach
detach_expect fetch t left = do r ← detach fetch t left; Node.expect_child r

unfoldable pub walk : Fetch → Tree → Bool → (Option Tree → Result (Option Tree)) → Result Tree
unfolding detach Node.attach
walk fetch t left f = do
  (rest, maybe_child) ← detach fetch t left
  new_child ← f maybe_child
  Node.attach rest left new_child

unfoldable pub walk_expect : Fetch → Tree → Bool → (Tree → Result (Option Tree)) → Result Tree
unfolding detach_expect Node.attach
walk_expect fetch t left f = do
  (rest, child) ← detach_expect fetch t left
  new_child ← f child
  Node.attach rest left new_child

abbrev pub ref_walk_slot : Fetch → Slot → Tree → Bool → Result (Tree × Option Tree)
ref_walk_slot fetch vacant t left = ok (t, none)
ref_walk_slot fetch (holds (reference h c k)) t left = do
  t' ← load fetch t left
  ok (t', Node.child t' left)
ref_walk_slot fetch (holds (modified p c child)) t left = panic
ref_walk_slot fetch (holds (uncommitted h c child)) t left = ok (t, some child)
ref_walk_slot fetch (holds (loaded h c child)) t left = ok (t, some child)

-- `RefWalker::walk`: the tree, with its child loaded, and the child.
unfoldable pub ref_walk : Fetch → Tree → Bool → Result (Tree × Option Tree)
unfolding Node.link load Node.child
ref_walk fetch t left = ref_walk_slot fetch (Node.link t left) t left

abbrev pub replace_in_link : Link → Tree → Link
replace_in_link (reference h c k) child = reference h c k
replace_in_link (modified p c t) child = modified p c child
replace_in_link (uncommitted h c t) child = uncommitted h c child
replace_in_link (loaded h c t) child = loaded h c child

abbrev pub replace_in_slot : Slot → Tree → Slot
replace_in_slot vacant child = vacant
replace_in_slot (holds l) child = holds (replace_in_link l child)

-- What happens to the tree when its child is changed through the borrow that `walk` hands out.
unfoldable pub replace_child : Tree → Bool → Tree → Tree
unfolding Node.link Node.set_slot
replace_child t left child = Node.set_slot t left (replace_in_slot (Node.link t left) child)
