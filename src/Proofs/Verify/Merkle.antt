-- ===== src/Proofs/Verify/Merkle.antt =====
-- The hash that a well-bracketed proof executes to (src/proofs/verify.rs).
use liftedmerk.Base.{
  ℕ, ◌+◌, ◌≡◌, ◌∷◌, [], ◌∙◌, refl, max, map, append-nil, Bytes, Bool, true, false, Option, none,
  some, Result, ok, ◌>>=◌, >>=-eq-ok,
}
use liftedmerk.Tree.Hash.{Hash, Hasher, null_hash, node_hash}
use liftedmerk.Tree.Hash as TreeHash
use liftedmerk.Proofs.Op.{Node, hash, kv_hash, kv}
use liftedmerk.Proofs.Verify.Defs.{
  Tree, tree, MaybeChild, absent, present, from_node, height, attach, into_hash, tree_hash,
  hash_or_null, execute, execute_loop,
}
use liftedmerk.Proofs.Verify.Outline.{
  Outline, tip, fork, ops, nodes, scan, hang, grow, grow_fork, execute_loop-ops,
}

module _ ⦃h : Hasher⦄ where
  -- The hash of a node, from those of its subtrees.
  abbrev pub combine : Node → Hash → Hash → Result Hash
  combine (hash hash') hl hr = ok hash'
  combine (kv_hash kvh) hl hr = ok (node_hash kvh hl hr)
  combine (kv k v) hl hr = do kvh ← TreeHash.kv_hash k v; ok (node_hash kvh hl hr)

  unfoldable pub outline_hash : Outline → Result Hash
  outline_hash tip = ok null_hash
  outline_hash (fork l n r) = do hl ← outline_hash l; hr ← outline_hash r; combine n hl hr

  abbrev pub opt_hash : Option Tree → Result Hash
  opt_hash none = ok null_hash
  opt_hash (some t) = tree_hash t

module _ ⦃h : Hasher⦄ where
  hang_left_some :
      (b : Bool) (n : Node) (cr : MaybeChild) (ht : ℕ) (c : Tree) (hl : Hash)
      → tree_hash c ≡ ok hl
      → (cl : MaybeChild) × (ht' : ℕ) × (hang b (tree n absent cr ht) true (some c)
          ≡ ok (tree n cl cr ht'))
        × (hash_or_null cl ≡ hl)
  unfolding attach into_hash
  hang_left_some true n cr ht c hl e = (present (from_node (hash hl)) hl, max ht 2, rw e, refl)
  hang_left_some false n cr ht c hl e = (present c hl, max ht (height c + 1), rw e, refl)

  hang_left :
      (b : Bool) (n : Node) (cr : MaybeChild) (ht : ℕ) (ml : Option Tree) (hl : Hash)
      → opt_hash ml ≡ ok hl
      → (cl : MaybeChild) × (ht' : ℕ) × (hang b (tree n absent cr ht) true ml
          ≡ ok (tree n cl cr ht'))
        × (hash_or_null cl ≡ hl)
  hang_left b n cr ht none hl e = (absent, ht, refl, cc)
  hang_left b n cr ht (some c) hl e = hang_left_some b n cr ht c hl e

  hang_right_some :
      (b : Bool) (n : Node) (cl : MaybeChild) (ht : ℕ) (c : Tree) (hr : Hash)
      → tree_hash c ≡ ok hr
      → (cr : MaybeChild) × (ht' : ℕ) × (hang b (tree n cl absent ht) false (some c)
          ≡ ok (tree n cl cr ht'))
        × (hash_or_null cr ≡ hr)
  unfolding attach into_hash
  hang_right_some true n cl ht c hr e = (present (from_node (hash hr)) hr, max ht 2, rw e, refl)
  hang_right_some false n cl ht c hr e = (present c hr, max ht (height c + 1), rw e, refl)

  hang_right :
      (b : Bool) (n : Node) (cl : MaybeChild) (ht : ℕ) (ml : Option Tree) (hr : Hash)
      → opt_hash ml ≡ ok hr
      → (cr : MaybeChild) × (ht' : ℕ) × (hang b (tree n cl absent ht) false ml
          ≡ ok (tree n cl cr ht'))
        × (hash_or_null cr ≡ hr)
  hang_right b n cl ht none hr e = (absent, ht, refl, cc)
  hang_right b n cl ht (some c) hr e = hang_right_some b n cl ht c hr e

  -- A tree with the node's children in place has the combined hash.
  tree_hash-combine :
      (n : Node) (cl cr : MaybeChild) (ht : ℕ) (hl hr : Hash)
      → hash_or_null cl ≡ hl
      → hash_or_null cr ≡ hr
      → tree_hash (tree n cl cr ht) ≡ combine n hl hr
  unfolding tree_hash
  tree_hash-combine (hash x) cl cr ht hl hr el er = refl
  tree_hash-combine (kv_hash x) cl cr ht hl hr el er = rw (el, er)
  tree_hash-combine (kv k v) cl cr ht hl hr el er = rw (el, er)

  -- If the hash of an outline can be computed, its tree can be built and has that hash.
  pub grow-outline_hash :
      (b : Bool) (o : Outline) (root_hash : Hash)
      → outline_hash o ≡ ok root_hash
      → (mt : Option Tree) × (grow b o ≡ ok mt) × (opt_hash mt ≡ ok root_hash)
  unfolding outline_hash grow from_node
  grow-outline_hash b tip root_hash e = (none, refl, e)
  grow-outline_hash b (fork l n r) root_hash e =
      let (hl, el, after1) = >>=-eq-ok (outline_hash l) _ e in
      let (hr, er, e3) = >>=-eq-ok (outline_hash r) _ after1 in
      let (ml, gl, tl) = grow-outline_hash b l hl el in
      let (mr, gr, tr) = grow-outline_hash b r hr er in
      let (cl, ht1, hang1, hash1) = hang_left b n absent 1 ml hl tl in
      let (cr, ht2, hang2, hash2) = hang_right b n cl ht1 mr hr tr in
      (
        some (tree n cl cr ht2),
        rw (gl, hang1, gr, hang2),
        tree_hash-combine n cl cr ht2 hl hr hash1 hash2 ∙ e3,
      )

  execute_loop-whole :
      {S : Type 0} (b : Bool) (visit_node : S → Node → Result S) (o : Outline)
      (last_key : Option Bytes) (s s' : S) (t : Tree)
      → scan visit_node (nodes o) none s ≡ ok (last_key, s')
      → grow b o ≡ ok (some t)
      → execute_loop b visit_node (map ok (ops o)) [] none s ≡ ok (t ∷ [], s')
  execute_loop-whole b visit_node o last_key s s' t seen g =
      rw append-nil at (execute_loop-ops b visit_node o [] [] none last_key s s' (some t) seen g)
      ∙ unfold execute_loop in refl

  -- Executing the operators of an outline whose hash can be computed, and whose nodes pass the checks
  -- on keys and the visitor, succeeds with the visitor's last state and a tree that has that hash.
  pub execute-ops :
      {S : Type 0} (b : Bool) (visit_node : S → Node → Result S) (l r : Outline) (n : Node)
      (s s' : S) (last_key : Option Bytes) (root_hash : Hash)
      → outline_hash (fork l n r) ≡ ok root_hash
      → scan visit_node (nodes (fork l n r)) none s ≡ ok (last_key, s')
      → (t : Tree) × (execute b visit_node (map ok (ops (fork l n r))) s ≡ ok (t, s'))
        × (tree_hash t ≡ ok root_hash)
  unfolding execute
  execute-ops b visit_node l r n s s' last_key root_hash e seen =
      let (mt, g, hashed) = grow-outline_hash b (fork l n r) root_hash e in
      let (ml, t1, mr, t, g1, g2, g3, g4, is_t) = grow_fork b visit_node l r n mt g in
      let whole : execute_loop b visit_node (map ok (ops (fork l n r))) [] none s
          ≡ ok (t ∷ [], s') =
        execute_loop-whole b visit_node (fork l n r) last_key s s' t seen (rw is_t at g) in
      (t, rw whole, rw is_t at hashed)
