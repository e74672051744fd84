-- ===== src/Merk/Apply/Commits.antt =====
-- `Tree::commit` (src/tree/mod.rs) with the store's committer (src/merk/mod.rs), on a tree that stands
-- for a shape through the database.
use liftedmerk.Base.{
  ◌≡◌, ◌⊎◌, ◌∷◌, ◌++◌, [], ◌∙◌, refl, sym, ap, append_assoc, append-nil, List, Bytes, some, ok, All,
  inl, inr,
}
use liftedmerk.Ed.{Ed}
use liftedmerk.Tree.Hash.{Hasher}
use liftedmerk.Tree.Types.{node, Slot, holds, reference, modified, uncommitted, loaded}
use liftedmerk.Tree.Link
use liftedmerk.Tree.Node
use liftedmerk.Tree.Shape.{Shape, leaf, fork, root_hash}
use liftedmerk.Tree.Commit.{commit, commit_slot, finish}
use liftedmerk.Tree.Ops.Holds.{pair, Holds, IsStored, reference_to}
use liftedmerk.Tree.Ops.Update.Split.{All-append}
use liftedmerk.Tree.Search.Sorted.{All-imp}
use liftedmerk.Merk.Store.{Db, source, Committer, merk_committer}
use liftedmerk.Merk.Apply.{Change}
use liftedmerk.Merk.Apply.Rows.{
  HasShortKeys, HasKey, Changes, Changes-append, RowChange, IsClean, clean_slot, pruned_slot,
  row_written,
}
use liftedmerk.Merk.Apply.Saves.{HasRow, IsStored-HasRow, Holds-Reholds, clean-Reholds, source-key}

module _ ⦃h : Hasher⦄ ⦃e : Ed⦄ (db : Db) where
  -- Every key of the shape is changed, or has its row already.
  abbrev pub IsCovered : Shape → List Change → Type 0
  IsCovered s changes = (q : Bytes) → HasKey s q → Changes changes q ⊎ HasRow db s q

  data SlotSaved (s : Shape) (slot : Slot) (c : Committer) : Type 0 where
    slot_saved :
        (slot' : Slot) (c' : Committer) (more : List Change)
        → commit_slot merk_committer slot c ≡ ok (slot', c')
        → c'.batch ≡ c.batch ++ more
        → All (RowChange s) more
        → IsCovered s more
        → IsClean s slot'
        → SlotSaved s slot c

  pub data TreeSaved (l : Shape) (k v : Bytes) (r : Shape) (sl sr : Slot) (c : Committer)
      : Type 0 where
    tree_saved :
        (sl' sr' : Slot) (c' : Committer) (more : List Change)
        → commit merk_committer (node sl sr (pair k v)) c ≡ ok (node sl' sr' (pair k v), c')
        → c'.batch ≡ c.batch ++ more
        → All (RowChange (fork l k v r)) more
        → IsCovered (fork l k v r) more
        → IsClean l sl'
        → IsClean r sr'
        → Node.hash (node sl' sr' (pair k v)) ≡ ok (root_hash (fork l k v r))
        → TreeSaved l k v r sl sr c

  -- A key below a node is changed, or has its row, as a key of the node.
  lifted_l :
      (l r : Shape) (k v q : Bytes) (changes others : List Change)
      → Changes changes q ⊎ HasRow db l q
      → Changes (changes ++ others) q ⊎ HasRow db (fork l k v r) q
  lifted_l l r k v q changes others (inl a) = inl (Changes-append changes others q (inl a))
  lifted_l l r k v q changes others (inr (bytes, found, row)) = inr (bytes, found, inr (inl row))

  lifted_r :
      (l r : Shape) (k v q : Bytes) (firsts changes lasts : List Change)
      → Changes changes q ⊎ HasRow db r q
      → Changes (firsts ++ (changes ++ lasts)) q ⊎ HasRow db (fork l k v r) q
  lifted_r l r k v q firsts changes lasts (inl a) =
      inl
        (Changes-append firsts (changes ++ lasts) q (inr (Changes-append changes lasts q (inl a))))
  lifted_r l r k v q firsts changes lasts (inr (bytes, found, row)) =
      inr (bytes, found, inr (inr row))

  node-IsCovered :
      (l r : Shape) (k v bytes : Bytes) (ml mr : List Change)
      → IsCovered l ml
      → IsCovered r mr
      → IsCovered (fork l k v r) (ml ++ (mr ++ ((k, some bytes) ∷ [])))
  node-IsCovered l r k v bytes ml mr cl cr q (inl same) =
      inl (Changes-append ml _ q (inr (Changes-append mr _ q (inr (inl same)))))
  node-IsCovered l r k v bytes ml mr cl cr q (inr (inl below)) =
      lifted_l l r k v q ml (mr ++ ((k, some bytes) ∷ [])) (cl q below)
  node-IsCovered l r k v bytes ml mr cl cr q (inr (inr below)) =
      lifted_r l r k v q ml mr ((k, some bytes) ∷ []) (cr q below)

  node_saved :
      (l r : Shape) (k v : Bytes) (sl sr : Slot) (c : Committer)
      → HasShortKeys l
      → HasShortKeys r
      → SlotSaved l sl c
      → ((c1 : Committer) → SlotSaved r sr c1)
      → TreeSaved l k v r sl sr c
  unfolding commit finish Node.hash root_hash
  node_saved l r k v sl sr c short_l short_r (slot_saved sl1 c1 ml e1 b1 al cov_l cl) saved_r =
      elim (saved_r c1) [
        | slot_saved sr1 c2 mr e2 b2 ar cov_r cr ↦
            let (bytes, wrote, decoded) = row_written l r k v sl1 sr1 c2 short_l short_r cl cr in
            let c3 : Committer = record c2 { batch = c2.batch ++ ((k, some bytes) ∷ []) } in
            let pruned = merk_committer.prune c3 (node sl1 sr1 (pair k v)) in
            let (sl2, e3, cl2) = pruned_slot pruned.0 l sl1 cl in
            let (sr2, e4, cr2) = pruned_slot pruned.1 r sr1 cr in
            let hashed_l = (clean_slot l sl2 short_l cl2).2 in
            let hashed_r = (clean_slot r sr2 short_r cr2).2 in
            tree_saved sl2 sr2 c3 (ml ++ (mr ++ ((k, some bytes) ∷ [])))
              (rw (e1, e2, wrote, e3, e4) refl)
              (ap (λ b. b ++ ((k, some bytes) ∷ [])) (b2 ∙ ap (λ b. b ++ mr) b1)
                ∙ append_assoc (c.batch ++ ml) mr ((k, some bytes) ∷ [])
                ∙ append_assoc c.batch ml (mr ++ ((k, some bytes) ∷ [])))
              (All-append (RowChange (fork l k v r)) ml _
                (All-imp (RowChange l) (RowChange (fork l k v r))
                  (λ x (b, is_b, row). (b, is_b, inr (inl row))) ml al)
                (All-append (RowChange (fork l k v r)) mr _
                  (All-imp (RowChange r) (RowChange (fork l k v r))
                    (λ x (b, is_b, row). (b, is_b, inr (inr row))) mr ar)
                  ((bytes, refl, inl (refl, decoded)), tt)))
              (node-IsCovered l r k v bytes ml mr cov_l cov_r) cl2 cr2
              (rw (hashed_l, hashed_r) refl)
      ]

  -- A slot that is left as it is.
  kept_slot :
      (s : Shape) (slot : Slot) (c : Committer)
      → commit_slot merk_committer slot c ≡ ok (slot, c)
      → IsStored (source db) s
      → IsClean s slot
      → SlotSaved s slot c
  kept_slot s slot c e1 stored clean =
      slot_saved slot c [] e1 (sym (append-nil c.batch)) tt
        (λ q found. inr (IsStored-HasRow db s q stored found)) clean

  commit_slot-SlotSaved :
      (s : Shape) (slot : Slot) (c : Committer)
      → HasShortKeys s
      → Holds (source db) s slot
      → SlotSaved s slot c
  unfolding commit commit_slot Link.child_heights
  commit_slot-SlotSaved leaf slot c short e = kept_slot leaf slot c (rw e refl) tt e
  commit_slot-SlotSaved (fork l k v r) slot c short
        (reference x cc q, sl, sr, e, got, fresh, hs, hl, hr) =
      let same : holds (reference x cc q) ≡ reference_to (fork l k v r) =
        rw (fresh.0, hs, source-key db x cc q sl sr k v got) refl in
      kept_slot (fork l k v r) slot c (rw e refl) fresh.1 (inl (e ∙ same))
  commit_slot-SlotSaved (fork l k v r) slot c (short, short_l, short_r)
        (modified p cc t, sl, sr, e, got, fresh, hs, hl, hr) =
      elim (node_saved l r k v sl sr c short_l short_r (commit_slot-SlotSaved l sl c short_l hl)
        (λ c1. commit_slot-SlotSaved r sr c1 short_r hr)) [
          | tree_saved sl' sr' c' more e1 batched rows covered cl cr hashed ↦
              slot_saved (holds (loaded (root_hash (fork l k v r)) cc (node sl' sr' (pair k v)))) c'
                more (rw (e, got, e1, hashed) refl) batched rows covered
                (inr (sl', sr', rw hs refl, clean-Reholds l sl' cl, clean-Reholds r sr' cr))
        ]
  commit_slot-SlotSaved (fork l k v r) slot c short
        (uncommitted x cc t, sl, sr, e, got, fresh, hs, hl, hr) =
      absurd got
  commit_slot-SlotSaved (fork l k v r) slot c short
        (loaded x cc t, sl, sr, e, got, fresh, hs, hl, hr) =
      kept_slot (fork l k v r) slot c (rw e refl) fresh.1 (
        inr (
          sl,
          sr,
          rw (e, fresh.0, hs, got) refl,
          Holds-Reholds db l sl hl,
          Holds-Reholds db r sr hr,
        ))

  pub commit-TreeSaved :
      (l r : Shape) (k v : Bytes) (sl sr : Slot) (c : Committer)
      → HasShortKeys (fork l k v r)
      → Holds (source db) l sl
      → Holds (source db) r sr
      → TreeSaved l k v r sl sr c
  commit-TreeSaved l r k v sl sr c (short, short_l, short_r) hl hr =
      node_saved l r k v sl sr c short_l short_r (commit_slot-SlotSaved l sl c short_l hl)
        (λ c1. commit_slot-SlotSaved r sr c1 short_r hr)
