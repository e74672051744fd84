-- ===== src/Tree/Node.antt =====
-- The methods of `Tree` (src/tree/mod.rs) but for `commit` and `load`, and `Link::from_modified_tree`.
use liftedmerk.Base.{
  ℕ, ◌+◌, ◌%◌, max, Bytes, Bool, true, false, Option, none, some, Result, ok, panic, ◌>>=◌,
}
use liftedmerk.Tree.Hash.{Hash, Hasher, node_hash, null_hash}
use liftedmerk.Tree.Types.{Kv, Tree, node, Slot, vacant, holds, Link, modified}
use liftedmerk.Tree.Kv
use liftedmerk.Tree.Link

-- The fields.
unfoldable pub kv : Tree → Kv
kv (node l r e) = e

unfoldable pub value : Tree → Bytes
value (node l r e) = e.value

unfoldable pub kv_hash : Tree → Hash
kv_hash (node l r e) = e.hash

unfoldable pub from_fields : Bytes → Bytes → Hash → Slot → Slot → Tree
unfolding Kv.from_fields
from_fields key value hash left right = node left right (Kv.from_fields key value hash)

-- `Tree::link` and `link_mut`: the slot on a side; `true` is the left.
unfoldable pub link : Tree → Bool → Slot
link (node l r e) true = l
link (node l r e) false = r

-- A write through `slot_mut`.
unfoldable pub set_slot : Tree → Bool → Slot → Tree
set_slot (node l r e) true s = node s r e
set_slot (node l r e) false s = node l s e

abbrev pub slot_tree : Slot → Option Tree
slot_tree vacant = none
slot_tree (holds l) = Link.tree l

unfoldable pub child : Tree → Bool → Option Tree
unfolding link Link.tree
child t left = slot_tree (link t left)

abbrev pub slot_height : Slot → ℕ
slot_height vacant = 0
slot_height (holds l) = Link.height l

unfoldable pub child_height : Tree → Bool → ℕ
unfolding link Link.height
child_height t left = slot_height (link t left)

unfoldable pub child_heights : Tree → ℕ × ℕ
unfolding child_height
child_heights t = (child_height t true, child_height t false)

unfoldable pub height : Tree → ℕ
unfolding child_height
height t = (1 + max (child_height t true) (child_height t false)) % 256

unfoldable pub balance_factor : Tree → ℕ
unfolding child_height
balance_factor t = Link.sub_i8 (child_height t false) (child_height t true)

abbrev pub slot_pending_writes : Slot → ℕ
slot_pending_writes (holds (modified p c t)) = p
slot_pending_writes _ = 0

unfoldable pub child_pending_writes : Tree → Bool → ℕ
unfolding link
child_pending_writes t left = slot_pending_writes (link t left)

-- `Link::from_modified_tree`
unfoldable pub from_modified_tree : Tree → Link
unfolding child_pending_writes child_heights
from_modified_tree t =
    modified (1 + child_pending_writes t true + child_pending_writes t false) (child_heights t) t

unfoldable pub maybe_from_modified_tree : Option Tree → Slot
unfolding from_modified_tree
maybe_from_modified_tree none = vacant
maybe_from_modified_tree (some t) = holds (from_modified_tree t)

-- Puts the new link into an empty slot; panics if the slot is taken.
abbrev pub attach_slot : Slot → Tree → Bool → Option Tree → Result Tree
attach_slot vacant t left maybe_child = ok (set_slot t left (maybe_from_modified_tree maybe_child))
attach_slot (holds l) t left maybe_child = panic

unfoldable pub attach : Tree → Bool → Option Tree → Result Tree
unfolding link set_slot maybe_from_modified_tree
attach t left maybe_child = attach_slot (link t left) t left maybe_child

-- Empties the slot. The child is `none` also where the slot held a reference.
unfoldable pub detach : Tree → Bool → Tree × Option Tree
unfolding child set_slot
detach t left = (set_slot t left vacant, child t left)

abbrev pub expect_child : Tree × Option Tree → Result (Tree × Tree)
expect_child (t, none) = panic
expect_child (t, some c) = ok (t, c)

unfoldable pub detach_expect : Tree → Bool → Result (Tree × Tree)
unfolding detach
detach_expect t left = expect_child (detach t left)

unfoldable pub walk : Tree → Bool → (Option Tree → Option Tree) → Result Tree
unfolding detach attach
walk t left f = let (rest, maybe_child) = detach t left in attach rest left (f maybe_child)

unfoldable pub walk_expect : Tree → Bool → (Tree → Option Tree) → Result Tree
unfolding detach_expect attach
walk_expect t left f = do (rest, c) ← detach_expect t left; attach rest left (f c)

abbrev pub slot_hash : Slot → Result Hash
slot_hash vacant = ok null_hash
slot_hash (holds l) = Link.hash l

unfoldable pub child_hash : Tree → Bool → Result Hash
unfolding link Link.hash
child_hash t left = slot_hash (link t left)

module _ ⦃h : Hasher⦄ where
  unfoldable pub new : Bytes → Bytes → Result Tree
  unfolding Kv.new
  new key value = do e ← Kv.new key value; ok (node vacant vacant e)

  unfoldable pub with_value : Tree → Bytes → Result Tree
  unfolding Kv.with_value
  with_value (node l r e) value = do e' ← Kv.with_value e value; ok (node l r e')

  -- Panics if a child was modified since its hash was computed.
  unfoldable pub hash : Tree → Result Hash
  unfolding child_hash kv_hash
  hash t = do
    left ← child_hash t true
    right ← child_hash t false
    ok (node_hash (kv_hash t) left right)
