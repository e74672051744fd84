-- ===== src/Merk/Apply/Rows.antt =====
-- What committing (src/tree/mod.rs) writes with the store's committer (src/merk/mod.rs): the stored
-- form of every node behind a modified link.
use liftedmerk.Base.{
  ◌≡◌, ◌⊎◌, ◌<◌, ◌∷◌, ◌++◌, [], ◌∙◌, refl, ap, List, Bytes, Bool, true, false, some, ok, length,
  inl, inr,
}
use liftedmerk.Ed.{Ed}
use liftedmerk.Tree.Hash.{Hasher, node_hash}
use liftedmerk.Tree.Types.{node, Slot, vacant, holds, loaded}
use liftedmerk.Tree.Link
use liftedmerk.Tree.Node
use liftedmerk.Tree.Shape.{Shape, leaf, fork, height, AllKeys, kv_digest, root_hash}
use liftedmerk.Tree.Encoding.{decode}
use liftedmerk.Tree.Encoding.RoundTrip.{stored_slot, SlotFits, decode-encode_tree}
use liftedmerk.Tree.Commit.{prune_slot}
use liftedmerk.Tree.Ops.Holds.{pair, Holds, IsStored, reference_to}
use liftedmerk.Merk.Store as Store
use liftedmerk.Merk.Store.{Db, source, Committer, merk_committer}
use liftedmerk.Merk.Apply.{Change}

-- Keys that fit a length byte.
abbrev pub HasShortKeys : Shape → Type 0
HasShortKeys s = AllKeys (λ k. length k < 256) s

abbrev pub HasKey : Shape → Bytes → Type 0
HasKey leaf q = ⊥
HasKey (fork l k v r) q = (q ≡ k) ⊎ (HasKey l q ⊎ HasKey r q)

abbrev pub Changes : List Change → Bytes → Type 0
Changes [] q = ⊥
Changes (c ∷ cs) q = (q ≡ c.0) ⊎ Changes cs q

pub Changes-append :
    (cs ds : List Change) (q : Bytes) → Changes cs q ⊎ Changes ds q → Changes (cs ++ ds) q
Changes-append [] ds q (inl a) = absurd a
Changes-append [] ds q (inr b) = b
Changes-append (c ∷ cs) ds q (inl (inl same)) = inl same
Changes-append (c ∷ cs) ds q (inl (inr a)) = inr (Changes-append cs ds q (inl a))
Changes-append (c ∷ cs) ds q (inr b) = inr (Changes-append cs ds q (inr b))

module _ ⦃h : Hasher⦄ ⦃e : Ed⦄ where
  -- The bytes decode to the node of the shape that has the key, with references.
  abbrev pub IsRow : Shape → Bytes → Bytes → Type 0
  IsRow leaf q bytes = ⊥
  IsRow (fork l k v r) q bytes =
      ((q ≡ k) × (decode k bytes ≡ ok (node (reference_to l) (reference_to r) (pair k v))))
      ⊎ (IsRow l q bytes ⊎ IsRow r q bytes)

  abbrev pub RowChange : Shape → Change → Type 0
  RowChange s c = (bytes : Bytes) × (c.1 ≡ some bytes) × IsRow s c.0 bytes

  -- The slot stands for the shape on every database that has the shape.
  abbrev pub Reholds : Shape → Slot → Type 0
  Reholds s slot = (now : Db) → IsStored (source now) s → Holds (source now) s slot

  -- A side after it was committed.
  abbrev pub IsClean : Shape → Slot → Type 0
  IsClean leaf slot = slot ≡ vacant
  IsClean (fork l k v r) slot =
      (slot ≡ reference_to (fork l k v r))
      ⊎ ((sl : Slot) × (sr : Slot) × (slot
            ≡ holds
                (loaded (root_hash (fork l k v r)) (height l, height r) (node sl sr (pair k v))))
          × Reholds l sl
          × Reholds r sr)

  length-root_hash : (s : Shape) → length (root_hash s) ≡ 20
  unfolding root_hash node_hash
  length-root_hash leaf = refl
  length-root_hash (fork l k v r) = h.length-digest _

  pub clean_slot :
      (s : Shape) (slot : Slot)
      → HasShortKeys s
      → IsClean s slot
      → SlotFits slot
        × (stored_slot slot ≡ reference_to s)
        × (Node.slot_hash slot ≡ ok (root_hash s))
  unfolding Link.tree_key Link.hash root_hash
  clean_slot leaf slot short e = rw e (tt, refl, refl)
  clean_slot (fork l k v r) slot (short, sl, sr) (inl e) =
      rw e ((length-root_hash (fork l k v r), short), refl, refl)
  clean_slot (fork l k v r) slot (short, shl, shr) (inr (sl, sr, e, cl, cr)) =
      rw e ((length-root_hash (fork l k v r), short), refl, refl)

  pub pruned_slot :
      (b : Bool) (s : Shape) (slot : Slot)
      → IsClean s slot
      → (slot' : Slot) × (prune_slot b slot ≡ ok slot') × IsClean s slot'
  unfolding prune_slot Link.into_reference Link.tree_key
  pruned_slot false s slot clean = (slot, refl, clean)
  pruned_slot true leaf slot e = (vacant, rw e refl, refl)
  pruned_slot true (fork l k v r) slot (inl e) = (reference_to (fork l k v r), rw e refl, inl refl)
  pruned_slot true (fork l k v r) slot (inr (sl, sr, e, cl, cr)) =
      (reference_to (fork l k v r), rw e refl, inl refl)

  -- The committer's write of a node with clean sides.
  pub row_written :
      (l r : Shape) (k v : Bytes) (sl sr : Slot) (c : Committer)
      → HasShortKeys l
      → HasShortKeys r
      → IsClean l sl
      → IsClean r sr
      → (bytes : Bytes) × (merk_committer.write c (node sl sr (pair k v))
          ≡ ok (record c { batch = c.batch ++ ((k, some bytes) ∷ []) }))
        × (decode k bytes ≡ ok (node (reference_to l) (reference_to r) (pair k v)))
  unfolding merk_committer Store.write Link.tree_key kv_digest
  row_written l r k v sl sr c short_l short_r cl cr =
      let (fits_l, same_l, hashed_l) = clean_slot l sl short_l cl in
      let (fits_r, same_r, hashed_r) = clean_slot r sr short_r cr in
      let (bytes, encoded, decoded) =
        decode-encode_tree sl sr (pair k v) fits_l fits_r (h.length-digest _) in
      (
        bytes,
        rw encoded refl,
        decoded
            ∙ ap (λ q. ok (node q (stored_slot sr) (pair k v))) same_l
            ∙ ap (λ q. ok (node (reference_to l) q (pair k v))) same_r,
      )
