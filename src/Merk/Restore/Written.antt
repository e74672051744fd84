-- ===== src/Merk/Restore/Written.antt =====
-- What a `Restorer` (src/merk/restore.rs) writes of an accepted chunk.
use liftedmerk.Base.{
  ℕ, ◌%◌, ◌==◌, ◌≡◌, ◌∷◌, [], ◌++◌, ◌∙◌, refl, sym, ap, append_assoc, append-nil, List, Bytes, true,
  false, some, ok, >>=-eq-ok, length,
}
use liftedmerk.Ed.{Ed}
use liftedmerk.Tree.Hash.{Hash, Hasher}
use liftedmerk.Tree.Types as Stored
use liftedmerk.Tree.Types.{node, vacant}
use liftedmerk.Tree.Kv
use liftedmerk.Tree.Node
use liftedmerk.Tree.Hash as TreeHash
use liftedmerk.Tree.Encoding.{encode}
use liftedmerk.Tree.Shape.{Shape, leaf, fork, root_hash}
use liftedmerk.Tree.Ops.Contents.{contents}
use liftedmerk.Tree.Ops.Holds.{pair}
use liftedmerk.Tree.Ops.Update.Cuts.{IsAscending}
use liftedmerk.Proofs.Op.{kv}
use liftedmerk.Proofs.Encoding.{decode_all}
use liftedmerk.Proofs.Verify.Defs.{Tree, tree, MaybeChild}
use liftedmerk.Proofs.Layer.{visit_refs, visit_refs_below}
use liftedmerk.Proofs.Chunk.Full.{FullSlot, FullTree, kv_hash_ok}
use liftedmerk.Proofs.Chunk.Sound.{verify_leaf-FullTree}
use liftedmerk.Merk.Apply.{Rocks, Write, put_cf, default}
use liftedmerk.Merk.Restore.State.{Restorer}
use liftedmerk.Merk.Restore.Nodes.{link_slot, write_node, chunk_writes}
use liftedmerk.Merk.Restore.{process_ops, process_chunk}
use liftedmerk.Merk.Restore.Links.{chunk_link, link_slot-FullSlot, root_of, Relinked}
use liftedmerk.Merk.Restore.Leaf.{keys_after, leaf_ran, process_leaf-LeafRan}

module _ ⦃h : Hasher⦄ ⦃e : Ed⦄ where
  -- One write for each node of a tree, in the order of the keys: of a node that has the pair, with its
  -- hash, and the links to the roots of both sides.
  abbrev pub Restores : Shape → List Write → Type 0
  Restores leaf ws = ws ≡ []
  Restores (fork l k v r) ws =
      (low : List Write) × (bytes : Bytes) × (high : List Write) × (ws
        ≡ low ++ (put_cf default k bytes ∷ high))
      × (encode (node (chunk_link l) (chunk_link r) (pair k v)) ≡ ok bytes)
      × Restores l low
      × Restores r high

  new_ok : (k v : Bytes) (t : Stored.Tree) → Node.new k v ≡ ok t → t ≡ node vacant vacant (pair k v)
  unfolding Node.new Kv.new
  new_ok k v t made =
      let (pair', e1, e2) = >>=-eq-ok (Kv.new k v) _ made in
      let (hash, e3, e4) = >>=-eq-ok (TreeHash.kv_hash k v) _ e1 in
      let digest = kv_hash_ok k v hash e3 in
      let is_pair : pair' ≡ pair k v =
        sym (cc e4) ∙ ap (λ x. record { key = k; value = v; hash = x }) digest in
      sym (cc e2) ∙ ap (λ x. node vacant vacant x) is_pair

  -- The visitor on a `KV` node.
  write_node_ok :
      (l r : Shape) (batch batch' : List Write) (k v : Bytes) (cl cr : MaybeChild) (n : ℕ)
      → FullSlot l cl
      → FullSlot r cr
      → write_node batch (tree (kv k v) cl cr n) ≡ ok batch'
      → (bytes : Bytes) × (encode (node (chunk_link l) (chunk_link r) (pair k v)) ≡ ok bytes)
        × (batch' ≡ batch ++ (put_cf default k bytes ∷ []))
  unfolding write_node Node.set_slot
  write_node_ok l r batch batch' k v cl cr n fl fr wrote =
      let (t, e1, e2) = >>=-eq-ok (Node.new k v) _ wrote in
      let is_t = new_ok k v t e1 in
      let (bytes, e3, e4) =
        >>=-eq-ok
          (encode (Node.set_slot (Node.set_slot t true (link_slot cl)) false (link_slot cr))) _
          e2 in
      (bytes, rw (is_t, link_slot-FullSlot l cl fl, link_slot-FullSlot r cr fr) at e3, sym (cc e4))

  -- More writes behind a batch, for a tree.
  abbrev Extends : List Write → List Write → Shape → Type 0
  Extends batch batch' s = (ws : List Write) × (batch' ≡ batch ++ ws) × Restores s ws

  around_node :
      (l r : Shape) (k v : Bytes) (cl cr : MaybeChild) (n : ℕ) (batch b1 b2 batch' : List Write)
      → FullSlot l cl
      → FullSlot r cr
      → Extends batch b1 l
      → write_node b1 (tree (kv k v) cl cr n) ≡ ok b2
      → Extends b2 batch' r
      → Extends batch batch' (fork l k v r)
  around_node l r k v cl cr n batch b1 b2 batch' fl fr (ws, is_b1, low) wrote (vs, is_last, high) =
      let (bytes, encoded, is_b2) = write_node_ok l r b1 b2 k v cl cr n fl fr wrote in
      (
        ws ++ (put_cf default k bytes ∷ vs),
        is_last
            ∙ ap (λ b. b ++ vs) (is_b2 ∙ ap (λ b. b ++ (put_cf default k bytes ∷ [])) is_b1)
            ∙ append_assoc (batch ++ ws) (put_cf default k bytes ∷ []) vs
            ∙ append_assoc batch ws (put_cf default k bytes ∷ vs),
        (ws, bytes, vs, refl, encoded, low, high),
      )

  visited :
      (s : Shape) (c : MaybeChild) (batch batch' : List Write)
      → FullSlot s c
      → visit_refs_below write_node c batch ≡ ok batch'
      → Extends batch batch' s
  unfolding visit_refs_below visit_refs
  visited leaf c batch batch' full done =
      let same : batch ≡ batch' = cc (rw full at done) in
      ([], sym same ∙ sym (append-nil batch), refl)
  visited (fork l k v r) c batch batch' (cl, cr, n, is_c, tall, fl, fr) done =
      let (b1, e1, f1) = >>=-eq-ok (visit_refs_below write_node cl batch) _ (rw is_c at done) in
      let (b2, e2, e3) = >>=-eq-ok (write_node b1 (tree (kv k v) cl cr n)) _ f1 in
      around_node l r k v cl cr n batch b1 b2 batch' fl fr (visited l cl batch b1 fl e1) e2
        (visited r cr b2 batch' fr e3)

  pub chunk_writes-Restores :
      (s : Shape) (t : Tree) (batch : List Write)
      → FullTree s t
      → chunk_writes t ≡ ok batch
      → Restores s batch
  unfolding chunk_writes visit_refs
  chunk_writes-Restores leaf t batch full done = absurd full
  chunk_writes-Restores (fork l k v r) t batch (cl, cr, n, is_t, tall, fl, fr) done =
      let (b1, e1, f1) = >>=-eq-ok (visit_refs_below write_node cl []) _ (rw is_t at done) in
      let (b2, e2, e3) = >>=-eq-ok (write_node b1 (tree (kv k v) cl cr n)) _ f1 in
      let (ws, is_batch, restored) =
        around_node l r k v cl cr n [] b1 b2 batch fl fr (visited l cl [] b1 fl e1) e2
          (visited r cr b2 batch fr e3) in
      rw is_batch restored

module _ {D : Type 0} (rocks : Rocks D) ⦃h : Hasher⦄ ⦃e : Ed⦄ where
  -- If a restorer that knows its leaf hashes accepts a chunk, then these have a first hash, which is
  -- the Merkle root of a tree with sorted entries. The database was written to twice. The first write
  -- is of the next parent key: the stored parent has a reference on the left if the number of leaf
  -- hashes is even, else on the right, and is written as it was but for that reference's key, which is
  -- now the key of the tree's root. The second has one node for each entry of the tree in order, with
  -- the key, the value and their hash, and with the links to both sides: their Merkle roots, the
  -- heights of their own sides in a byte each, and their roots' keys. What remains are the other leaf
  -- hashes, and their number is returned; the parent key remains if its left link was written.
  pub process_chunk-Restores :
      (chunk_bytes : Bytes) (r r' : Restorer D) (n : ℕ) (hashes : List Hash)
      → r.leaf_hashes ≡ some hashes
      → process_chunk rocks chunk_bytes r ≡ (ok n, r')
      → (left : Shape) × (k : Bytes) × (v : Bytes) × (right : Shape) × (xs : List Hash)
        × (p : Bytes) × (ps : List Bytes) × (bytes : Bytes) × (batch : List Write) × (db1 : D)
        × (hashes ≡ root_hash (fork left k v right) ∷ xs)
        × IsAscending (contents (fork left k v right))
        × (r.parent_keys ≡ some (p ∷ ps))
        × Relinked rocks r.merk.db p (length hashes % 2 == 0) k bytes
        × (rocks.write_opt r.merk.db (put_cf default p bytes ∷ []) ≡ ok db1)
        × Restores (fork left k v right) batch
        × (rocks.write_opt db1 batch ≡ ok r'.merk.db)
        × (r'.leaf_hashes ≡ some xs)
        × (r'.parent_keys ≡ some (keys_after (length hashes) p ps))
        × (n ≡ length xs)
  unfolding process_chunk
  process_chunk-Restores chunk_bytes r r' n hashes known done =
      elim (process_leaf-LeafRan rocks (decode_all chunk_bytes) r r' n
        (ap (λ o. process_ops rocks o (decode_all chunk_bytes) r) (sym known) ∙ done)) [
          | leaf_ran x xs p ps chunk bytes batch db1 db2 first keys accepted (k, rooted, linked) put
                made wrote is_last counted ↦
              let (s, full, sorted, root) =
                verify_leaf-FullTree (decode_all chunk_bytes) x chunk accepted in
              let (left, v, right, is_s) = root_of s chunk k full rooted in
              let same : hashes ≡ x ∷ xs = cc (sym known ∙ first) in
              let count = ap length same in
              (
                left,
                k,
                v,
                right,
                xs,
                p,
                ps,
                bytes,
                batch,
                db1,
                same ∙ ap (λ y. y ∷ xs) (sym root ∙ ap root_hash is_s),
                rw is_s at sorted,
                keys,
                rw count linked,
                put,
                rw is_s at (chunk_writes-Restores s chunk batch full made),
                rw is_last wrote,
                ap (λ q. q.leaf_hashes) is_last,
                ap (λ q. q.parent_keys) is_last ∙ ap (λ m. some (keys_after m p ps)) (sym count),
                counted,
              )
        ]
