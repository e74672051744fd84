-- ===== src/Merk/Apply/Saves.antt =====
-- Committing a side (src/tree/mod.rs) with the store's committer (src/merk/mod.rs) changes exactly the
-- rows that the database does not have.
use liftedmerk.Base.{ℕ, ◌≡◌, ◌∙◌, refl, sym, ap, Bytes, Option, none, some, ok, >>=-eq-ok, inl, inr}
use liftedmerk.Ed.{Ed}
use liftedmerk.Tree.Hash.{Hash, Hasher}
use liftedmerk.Tree.Types.{Tree, node, Slot, holds, reference, modified, uncommitted, loaded}
use liftedmerk.Tree.Link
use liftedmerk.Tree.Shape.{Shape, leaf, fork, height, root_hash}
use liftedmerk.Tree.Encoding.{decode}
use liftedmerk.Tree.Encoding.Stored.{decode-Referring}
use liftedmerk.Tree.Ops.Holds.{pair, Holds, IsStored, reference_to}
use liftedmerk.Merk.Store.{Db, source, fetch_existing_node, fetch_node, decode_stored}
use liftedmerk.Merk.Store.Reads.{existing-some}
use liftedmerk.Merk.Apply.Rows.{HasKey, IsRow, Reholds, IsClean}

module _ ⦃h : Hasher⦄ ⦃e : Ed⦄ where
  decode_stored_ok :
      (db : Db) (q : Bytes) (o : Option Bytes) (t : Tree)
      → decode_stored db q o ≡ ok (some t)
      → (bytes : Bytes) × (o ≡ some bytes) × (decode q bytes ≡ ok t)
  decode_stored_ok db q none t done =
      let same : ◌≡◌ {A = Option Tree} none (some t) = cc done in cc same
  decode_stored_ok db q (some bytes) t done =
      let (u, e1, e2) = >>=-eq-ok (decode q bytes) _ done in
      let same : ◌≡◌ {A = Option Tree} (some u) (some t) = cc e2 in
      let same_tree : u ≡ t = cc same in (bytes, refl, rw same_tree at e1)

  module _ (db : Db) where
    pub source_ok :
        (x : Hash) (c : ℕ × ℕ) (q : Bytes) (t : Tree)
        → source db (reference x c q) ≡ ok t
        → (bytes : Bytes) × (db q ≡ ok (some bytes)) × (decode q bytes ≡ ok t)
    unfolding source fetch_existing_node fetch_node Link.key
    source_ok x c q t done =
        let (o, e1, e2) = >>=-eq-ok (fetch_node db q) _ done in
        let (stored, e3, e4) = >>=-eq-ok (db q) _ e1 in
        let (bytes, found, decoded) =
          decode_stored_ok db q stored t (e4 ∙ ap ok (existing-some db o t e2)) in
        (bytes, e3 ∙ ap ok found, decoded)

    -- The source finds what the database has.
    pub source_found :
        (x : Hash) (c : ℕ × ℕ) (q bytes : Bytes) (t : Tree)
        → db q ≡ ok (some bytes)
        → decode q bytes ≡ ok t
        → source db (reference x c q) ≡ ok t
    unfolding source fetch_existing_node fetch_node Link.key
    source_found x c q bytes t found decoded = rw (found, decoded) refl

    pub source-key :
        (x : Hash) (c : ℕ × ℕ) (q : Bytes) (sl sr : Slot) (k v : Bytes)
        → source db (reference x c q) ≡ ok (node sl sr (pair k v))
        → q ≡ k
    unfolding Link.tree_key
    source-key x c q sl sr k v got =
        let (bytes, found, decoded) = source_ok x c q (node sl sr (pair k v)) got in
        sym (decode-Referring q bytes (node sl sr (pair k v)) decoded).0

    abbrev pub HasRow : Shape → Bytes → Type 0
    HasRow s q = (bytes : Bytes) × (db q ≡ ok (some bytes)) × IsRow s q bytes

    pub IsStored-HasRow : (s : Shape) (q : Bytes) → IsStored (source db) s → HasKey s q → HasRow s q
    IsStored-HasRow leaf q stored found = absurd found
    IsStored-HasRow (fork l k v r) q (here, sl, sr) (inl same) =
        let (bytes, found, decoded) =
          source_ok (root_hash (fork l k v r)) (height l, height r) k _ here in
        (bytes, rw same found, inl (same, decoded))
    IsStored-HasRow (fork l k v r) q (here, sl, sr) (inr (inl below)) =
        let (bytes, found, row) = IsStored-HasRow l q sl below in (bytes, found, inr (inl row))
    IsStored-HasRow (fork l k v r) q (here, sl, sr) (inr (inr below)) =
        let (bytes, found, row) = IsStored-HasRow r q sr below in (bytes, found, inr (inr row))

  -- A reference to what a database has.
  pub reference_to-Holds :
      (s : Shape) (db : Db) → IsStored (source db) s → Holds (source db) s (reference_to s)
  unfolding Link.child_heights
  reference_to-Holds leaf db stored = refl
  reference_to-Holds (fork l k v r) db (here, sl, sr) = (
    reference (root_hash (fork l k v r)) (height l, height r) k,
    reference_to l,
    reference_to r,
    refl,
    here,
    (refl, (here, sl, sr)),
    refl,
    reference_to-Holds l db sl,
    reference_to-Holds r db sr,
  )

  pub clean-Reholds : (s : Shape) (slot : Slot) → IsClean s slot → Reholds s slot
  unfolding Link.child_heights
  clean-Reholds leaf slot e now stored = e
  clean-Reholds (fork l k v r) slot (inl e) now stored =
      rw e (reference_to-Holds (fork l k v r) now stored)
  clean-Reholds (fork l k v r) slot (inr (sl, sr, e, hl, hr)) now (here, stl, str) = (
    loaded (root_hash (fork l k v r)) (height l, height r) (node sl sr (pair k v)),
    sl,
    sr,
    e,
    refl,
    (refl, (here, stl, str)),
    refl,
    hl now stl,
    hr now str,
  )

  pub Holds-Reholds :
      (db : Db) (s : Shape) (slot : Slot) → Holds (source db) s slot → Reholds s slot
  unfolding Link.child_heights
  Holds-Reholds db leaf slot held now stored = held
  Holds-Reholds db (fork l k v r) slot (reference x c q, sl, sr, e, got, fresh, hs, hl, hr) now
        stored =
      let same : holds (reference x c q) ≡ reference_to (fork l k v r) =
        rw (fresh.0, hs, source-key db x c q sl sr k v got) refl in
      clean-Reholds (fork l k v r) slot (inl (e ∙ same)) now stored
  Holds-Reholds db (fork l k v r) slot (modified p c t, sl, sr, e, got, fresh, hs, hl, hr) now
        (here, stl, str) =
      (
        modified p c t,
        sl,
        sr,
        e,
        got,
        tt,
        hs,
        Holds-Reholds db l sl hl now stl,
        Holds-Reholds db r sr hr now str,
      )
  Holds-Reholds db (fork l k v r) slot (uncommitted x c t, sl, sr, e, got, fresh, hs, hl, hr) now
        stored =
      absurd got
  Holds-Reholds db (fork l k v r) slot (loaded x c t, sl, sr, e, got, fresh, hs, hl, hr) now
        (here, stl, str) =
      (
        loaded x c t,
        sl,
        sr,
        e,
        got,
        (fresh.0, (here, stl, str)),
        hs,
        Holds-Reholds db l sl hl now stl,
        Holds-Reholds db r sr hr now str,
      )
