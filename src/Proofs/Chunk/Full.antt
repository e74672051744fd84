-- ===== src/Proofs/Chunk/Full.antt =====
-- Proof trees (src/proofs/verify.rs) that have all keys and values of a shape, and attaching one to
-- another.
use liftedmerk.Base.{
  ℕ, ◌+◌, max, ◌≡◌, ◌∷◌, ◌++◌, [], refl, sym, append_assoc, Bytes, Bool, true, false, ok, >>=-eq-ok,
  arith,
}
use liftedmerk.Tree.Hash.{Hash, Hasher}
use liftedmerk.Tree.Hash as TreeHash
use liftedmerk.Tree.Shape as Shape
use liftedmerk.Tree.Shape.{Shape, leaf, fork, kv_digest, root_hash}
use liftedmerk.Tree.Ops.Contents.{contents}
use liftedmerk.Proofs.Op.{kv}
use liftedmerk.Proofs.Verify.Defs.{
  Tree, tree, MaybeChild, absent, present, tree_hash, compute_hash, child_hash, get_child, attach,
  height, root,
}

pub kv_hash_ok :
    ⦃h : Hasher⦄ → (k v : Bytes) (x : Hash) → TreeHash.kv_hash k v ≡ ok x → x ≡ kv_digest k v
unfolding TreeHash.kv_hash kv_digest
kv_hash_ok k v x e = ground arith

module _ ⦃h : Hasher⦄ where
  abbrev pub FullSlot : Shape → MaybeChild → Type 0
  FullSlot leaf c = c ≡ absent
  FullSlot (fork l k v r) c =
      (cl : MaybeChild) × (cr : MaybeChild) × (n : ℕ) × (c
        ≡ present (tree (kv k v) cl cr n) (root_hash (fork l k v r)))
      × (n ≡ Shape.height (fork l k v r))
      × FullSlot l cl
      × FullSlot r cr

  -- A proof tree that has all keys and values of a shape, and its height.
  abbrev pub FullTree : Shape → Tree → Type 0
  FullTree leaf t = ⊥
  FullTree (fork l k v r) t =
      (cl : MaybeChild) × (cr : MaybeChild) × (n : ℕ) × (t ≡ tree (kv k v) cl cr n)
      × (n ≡ Shape.height (fork l k v r))
      × FullSlot l cl
      × FullSlot r cr

  pub height-FullTree : (s : Shape) (t : Tree) → FullTree s t → height t ≡ Shape.height s
  unfolding height
  height-FullTree leaf t full = absurd full
  height-FullTree (fork l k v r) t (cl, cr, n, is_t, high, fl, fr) = rw is_t high

  child_hash-FullSlot :
      (s : Shape) (t : Tree) (left : Bool)
      → FullSlot s (get_child t left)
      → child_hash t left ≡ root_hash s
  unfolding child_hash root_hash
  child_hash-FullSlot leaf t left e = rw e
  child_hash-FullSlot (fork l k v r) t left (cl, cr, n, e, high, fl, fr) = rw e

  pub tree_hash-FullTree :
      (s : Shape) (t : Tree) (x : Hash) → FullTree s t → tree_hash t ≡ ok x → x ≡ root_hash s
  unfolding tree_hash compute_hash root root_hash get_child
  tree_hash-FullTree leaf t x full e = absurd full
  tree_hash-FullTree (fork l k v r) t x (cl, cr, n, is_t, high, fl, fr) e =
      let (y, e1, e2) = >>=-eq-ok (TreeHash.kv_hash k v) _ (rw is_t at e) in
      let digest = kv_hash_ok k v y e1 in
      let left = child_hash-FullSlot l (tree (kv k v) cl cr n) true fl in
      let right = child_hash-FullSlot r (tree (kv k v) cl cr n) false fr in
      rw (← left, ← right, ← digest) (sym (cc e2))

  present-FullSlot :
      (s : Shape) (t : Tree) (x : Hash) → FullTree s t → x ≡ root_hash s → FullSlot s (present t x)
  present-FullSlot leaf t x full e = absurd full
  present-FullSlot (fork l k v r) t x (cl, cr, n, is_t, high, fl, fr) e =
      (cl, cr, n, rw (is_t, e) refl, high, fl, fr)

  pub attach_left :
      (s0 s : Shape) (below top t : Tree)
      → FullTree s0 below
      → FullTree s top
      → attach top true below ≡ ok t
      → (s' : Shape) × FullTree s' t × (contents s' ≡ contents s0 ++ contents s)
  unfolding attach get_child height contents
  attach_left s0 leaf below top t full0 full e = absurd full
  attach_left s0 (fork (fork a k2 v2 b) k v r) below top t full0
        (cl, cr, n, is_top, high, (al, ar, m, is_cl, high', fa, fb), fr) e =
      cc (rw (is_top, is_cl) at e)
  attach_left s0 (fork leaf k v r) below top t full0 (cl, cr, n, is_top, high, fl, fr) e =
      let (x, e1, e2) = >>=-eq-ok (tree_hash below) _ (rw (is_top, fl) at e) in
      let slot = present-FullSlot s0 below x full0 (tree_hash-FullTree s0 below x full0 e1) in
      let is_t : t ≡ tree (kv k v) (present below x) cr (max n (height below + 1)) = cc e2 in
      let tall = height-FullTree s0 below full0 in
      (fork s0 k v r, (present below x, cr, _, is_t, omega (arith, high, tall), slot, fr), refl)

  pub attach_right :
      (s s1 : Shape) (below top t : Tree)
      → FullTree s below
      → FullTree s1 top
      → attach below false top ≡ ok t
      → (s' : Shape) × FullTree s' t × (contents s' ≡ contents s ++ contents s1)
  unfolding attach get_child height contents
  attach_right leaf s1 below top t full full1 e = absurd full
  attach_right (fork l k v (fork a k2 v2 b)) s1 below top t
        (cl, cr, n, is_below, high, fl, (al, ar, m, is_cr, high', fa, fb)) full1 e =
      cc (rw (is_below, is_cr) at e)
  attach_right (fork l k v leaf) s1 below top t (cl, cr, n, is_below, high, fl, fr) full1 e =
      let (x, e1, e2) = >>=-eq-ok (tree_hash top) _ (rw (is_below, fr) at e) in
      let slot = present-FullSlot s1 top x full1 (tree_hash-FullTree s1 top x full1 e1) in
      let is_t : t ≡ tree (kv k v) cl (present top x) (max n (height top + 1)) = cc e2 in
      let tall = height-FullTree s1 top full1 in
      (
        fork l k v s1,
        (cl, present top x, _, is_t, omega (arith, high, tall), fl, slot),
        sym (append_assoc (contents l) ((k, v) ∷ []) (contents s1)),
      )
