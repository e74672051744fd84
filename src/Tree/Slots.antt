-- ===== src/Tree/Slots.antt =====
-- Reading and writing the slots of a node (src/tree/mod.rs), and walking through one
-- (src/tree/walk/ref_walker.rs).
use liftedmerk.Base.{◌≡◌, refl, Bool, true, false, not, some, ok}
use liftedmerk.Tree.Hash.{Hasher}
use liftedmerk.Tree.Types.{Tree, node, Slot, holds, Link, reference, modified, uncommitted, loaded}
use liftedmerk.Tree.Link
use liftedmerk.Tree.Node
use liftedmerk.Tree.Walk.{Fetch, ref_walk, load, replace_child}
use liftedmerk.Tree.Shape.{Resolves}

pub link-set_slot :
    (t : Tree) (left : Bool) (s : Slot) → Node.link (Node.set_slot t left s) left ≡ s
unfolding Node.link Node.set_slot
link-set_slot (node l r e) true s = refl
link-set_slot (node l r e) false s = refl

pub link-set_slot_other :
    (t : Tree) (left : Bool) (s : Slot)
    → Node.link (Node.set_slot t left s) (not left) ≡ Node.link t (not left)
unfolding Node.link Node.set_slot
link-set_slot_other (node l r e) true s = refl
link-set_slot_other (node l r e) false s = refl

pub set_slot-set_slot :
    (t : Tree) (left : Bool) (s s' : Slot)
    → Node.set_slot (Node.set_slot t left s) left s' ≡ Node.set_slot t left s'
unfolding Node.set_slot
set_slot-set_slot (node l r e) true s s' = refl
set_slot-set_slot (node l r e) false s s' = refl

pub set_slot-link : (t : Tree) (left : Bool) → Node.set_slot t left (Node.link t left) ≡ t
unfolding Node.link Node.set_slot
set_slot-link (node l r e) true = refl
set_slot-link (node l r e) false = refl

-- A slot write leaves the key, the value and their hash alone.
pub pair-set_slot :
    (t : Tree) (left : Bool) (s : Slot)
    → (Link.tree_key (Node.set_slot t left s) ≡ Link.tree_key t)
      × (Node.value (Node.set_slot t left s) ≡ Node.value t)
      × (Node.kv_hash (Node.set_slot t left s) ≡ Node.kv_hash t)
unfolding Link.tree_key Node.value Node.kv_hash Node.set_slot
pair-set_slot (node l r e) true s = (refl, refl, refl)
pair-set_slot (node l r e) false s = (refl, refl, refl)

-- The link with the tree that it resolves to, in memory.
abbrev pub resolved : Link → Tree → Link
resolved (reference x c k) t = loaded x c t
resolved (modified p c t') t = modified p c t
resolved (uncommitted x c t') t = uncommitted x c t
resolved (loaded x c t') t = loaded x c t

module _ ⦃h : Hasher⦄ (fetch : Fetch) where
  -- Walking to a child hands it out, and what is written back through the borrow ends up in the slot.
  pub ref_walk-Resolves :
      (link : Link) (t c : Tree) (left : Bool)
      → Node.link t left ≡ holds link
      → Resolves fetch link c
      → (t1 : Tree) × (ref_walk fetch t left ≡ ok (t1, some c))
        × ((c' : Tree) → replace_child t1 left c' ≡ Node.set_slot t left (holds (resolved link c')))
  unfolding ref_walk load replace_child
  ref_walk-Resolves (reference x cc k) t c left e res =
      let t1 = Node.set_slot t left (holds (loaded x cc c)) in
      let walked : ref_walk fetch t left ≡ ok (t1, some c) =
        rw (e, e, res, link-set_slot t left (holds (loaded x cc c))) in
      (
        t1,
        walked,
        λ c'.
            rw (link-set_slot t left (holds (loaded x cc c)))
              (set_slot-set_slot t left (holds (loaded x cc c)) (holds (loaded x cc c'))),
      )
  ref_walk-Resolves (modified p cc c0) t c left e res = absurd res
  ref_walk-Resolves (uncommitted x cc c0) t c left e res = (t, rw (e, res), λ c'. rw e)
  ref_walk-Resolves (loaded x cc c0) t c left e res = (t, rw (e, res), λ c'. rw e)
