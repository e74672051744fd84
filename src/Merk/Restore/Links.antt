-- ===== src/Merk/Restore/Links.antt =====
-- The links of the nodes that a `Restorer` (src/merk/restore.rs) writes of an accepted chunk, and of the
-- parent above it.
use liftedmerk.Base.{
  ℕ, ◌%◌, ◌≡◌, refl, sym, ap, Bytes, Bool, Option, none, some, ok, >>=-eq-ok, expect,
}
use liftedmerk.Ed.{Ed}
use liftedmerk.Tree.Hash.{Hash, Hasher}
use liftedmerk.Tree.Types as Stored
use liftedmerk.Tree.Types.{Slot, vacant, holds, reference, modified, uncommitted, loaded}
use liftedmerk.Tree.Node
use liftedmerk.Tree.Encoding.{encode}
use liftedmerk.Tree.Shape.{Shape, leaf, fork, height, root_hash}
use liftedmerk.Proofs.Verify.Defs as Verify
use liftedmerk.Proofs.Verify.Defs.{Tree, MaybeChild, key}
use liftedmerk.Proofs.Chunk.Full.{FullSlot, FullTree}
use liftedmerk.Merk.Store.{fetch_node}
use liftedmerk.Merk.Apply.{Rocks, main}
use liftedmerk.Merk.Restore.Nodes.{height_of, as_link, link_slot, rekeyed, rewritten_parent}

module _ ⦃h : Hasher⦄ where
  -- The link to a tree in a database: its Merkle root, the heights of its sides in a byte each, and
  -- the key of its root.
  abbrev pub chunk_link : Shape → Slot
  chunk_link leaf = vacant
  chunk_link (fork l k v r) =
      holds (reference (root_hash (fork l k v r)) (height l % 256, height r % 256) k)

  height_of-FullSlot : (s : Shape) (c : MaybeChild) → FullSlot s c → height_of c ≡ height s % 256
  unfolding Verify.height
  height_of-FullSlot leaf c full = rw full refl
  height_of-FullSlot (fork l k v r) c (cl, cr, n, is_c, high, fl, fr) =
      rw is_c (ap (λ x. x % 256) high)

  pub link_slot-FullSlot : (s : Shape) (c : MaybeChild) → FullSlot s c → link_slot c ≡ chunk_link s
  unfolding as_link Verify.root
  link_slot-FullSlot leaf c full = rw full refl
  link_slot-FullSlot (fork l k v r) c (cl, cr, n, is_c, high, fl, fr) =
      rw (is_c, height_of-FullSlot l cl fl, height_of-FullSlot r cr fr) refl

  pub root_of :
      (s : Shape) (t : Tree) (k : Bytes)
      → FullTree s t
      → key t ≡ ok k
      → (l : Shape) × (v : Bytes) × (r : Shape) × (s ≡ fork l k v r)
  unfolding key Verify.root
  root_of leaf t k full e = absurd full
  root_of (fork l k' v r) t k (cl, cr, n, is_t, high, fl, fr) e =
      let same : k' ≡ k = cc (rw is_t at e) in (l, v, r, ap (λ x. fork l x v r) same)

pub expect_ok : {A : Type 0} (o : Option A) (a : A) → expect o ≡ ok a → o ≡ some a
expect_ok none a e = cc e
expect_ok (some b) a e = let same : b ≡ a = cc e in ap some same

rekeyed_ok :
    (slot slot' : Slot) (k : Bytes)
    → rekeyed slot k ≡ ok slot'
    → (x : Hash) × (c : ℕ × ℕ) × (old : Bytes) × (slot ≡ holds (reference x c old))
      × (slot' ≡ holds (reference x c k))
rekeyed_ok vacant slot' k e = cc e
rekeyed_ok (holds (modified n c t)) slot' k e = cc e
rekeyed_ok (holds (uncommitted x c t)) slot' k e = cc e
rekeyed_ok (holds (loaded x c t)) slot' k e = cc e
rekeyed_ok (holds (reference x c old)) slot' k e =
    let same : holds (reference x c k) ≡ slot' = cc e in (x, c, old, refl, sym same)

module _ {D : Type 0} (rocks : Rocks D) ⦃e : Ed⦄ where
  -- The stored parent has a reference on a side; `bytes` are those of the same node with another key in
  -- that reference.
  abbrev pub Relinked : D → Bytes → Bool → Bytes → Bytes → Type 0
  Relinked db p left k bytes =
      (parent : Stored.Tree) × (x : Hash) × (c : ℕ × ℕ) × (old : Bytes) × (fetch_node
          (main rocks db) p
        ≡ ok (some parent))
      × (Node.link parent left ≡ holds (reference x c old))
      × (encode (Node.set_slot parent left (holds (reference x c k))) ≡ ok bytes)

  pub rewritten_parent-Relinked :
      (db : D) (p : Bytes) (left : Bool) (k bytes : Bytes) (parent : Stored.Tree)
      → fetch_node (main rocks db) p ≡ ok (some parent)
      → rewritten_parent parent left k ≡ ok bytes
      → Relinked db p left k bytes
  unfolding rewritten_parent
  rewritten_parent-Relinked db p left k bytes parent fetched done =
      let (slot, e1, e2) = >>=-eq-ok (rekeyed (Node.link parent left) k) _ done in
      let (x, c, old, is_link, is_slot) = rekeyed_ok (Node.link parent left) slot k e1 in
      (parent, x, c, old, fetched, is_link, rw is_slot at e2)
