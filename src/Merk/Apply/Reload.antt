-- ===== src/Merk/Apply/Reload.antt =====
-- `Merk::commit`, and `Merk::load_root` on the database that it leaves (src/merk/mod.rs).
use liftedmerk.Base.{
  ◌≡◌, ◌⊎◌, ◌∷◌, [], ◌∙◌, refl, sym, ap, List, Bytes, Option, none, some, ok, All, inl, inr,
  cmp_refl,
}
use liftedmerk.Ed.{Ed}
use liftedmerk.Tree.Hash.{Hasher}
use liftedmerk.Tree.Types.{node}
use liftedmerk.Tree.Link
use liftedmerk.Tree.Node
use liftedmerk.Tree.Shape.{Shape, leaf, fork, root_hash}
use liftedmerk.Tree.Ops.{Batch}
use liftedmerk.Tree.Ops.Contents.{contents}
use liftedmerk.Tree.Ops.Holds.{pair, IsStored, StandsMaybe, reference_to}
use liftedmerk.Tree.Ops.Update.Cuts.{IsAscending}
use liftedmerk.Merk.Store as Store
use liftedmerk.Merk.Store.{
  Db, source, fetch_existing_node, fetch_node, new_committer, merk_committer,
}
use liftedmerk.Merk.Apply.{
  Family, default, internal_family, Write, put_cf, delete_cf, root_key_key, Rocks, Change, Merk,
  Outcome, main, sort, change_write, aux_write, writes, write, commit_tree, commit_store, load_root,
}
use liftedmerk.Merk.Apply.Rows.{
  HasShortKeys, HasKey, Changes, Changes-append, IsRow, RowChange, clean_slot,
}
use liftedmerk.Merk.Apply.Saves.{HasRow, reference_to-Holds, clean-Reholds}
use liftedmerk.Merk.Apply.Commits.{IsCovered, tree_saved, commit-TreeSaved}
use liftedmerk.Merk.Apply.Database.{IsReliable, last_write, IsGood}
use liftedmerk.Merk.Apply.Durable.{contents-IsOrdered, rows-IsStored}
use liftedmerk.Merk.Apply.Changed.{Changes-IsGood, writes_default, writes_root}

module _ ⦃h : Hasher⦄ ⦃e : Ed⦄ {D : Type 0} (rocks : Rocks D) (reliable : IsReliable rocks) where
  -- The new database has every row.
  rows_there :
      (s : Shape) (db db' : D) (w : Write) (changes : List Change) (deleted : List Bytes)
      (aux : Batch)
      → ((old : Option Bytes) (q : Bytes) → last_write old default q (w ∷ []) ≡ old)
      → rocks.write_opt db (writes w changes deleted aux) ≡ ok db'
      → All (RowChange s) changes
      → All (λ k. ¬ HasKey s k) deleted
      → IsCovered (main rocks db) s changes
      → (q : Bytes) → HasKey s q
      → HasRow (main rocks db') s q
  rows_there s db db' w changes deleted aux skipped wrote rows gone covered q found =
      let (old, read) = reliable.reads db default q in
      let (bytes, is_some, row) =
        Changes-IsGood s q changes deleted old found rows gone (known (covered q found) old read) in
      (
        bytes,
        reliable.reads_back db db' (writes w changes deleted aux) default q old wrote read
            ∙ ap ok (writes_default w changes deleted aux old q (skipped old q) ∙ is_some),
        row,
      )
    where
      known :
          Changes changes q ⊎ HasRow (main rocks db) s q
          → (old : Option Bytes) → rocks.get_cf db default q ≡ ok old
          → Changes changes q ⊎ IsGood (IsRow s q) q old
      known (inl changed) old read = inl changed
      known (inr (bytes, there, row)) old read =
          let same : ok old ≡ ok (some bytes) = sym read ∙ there in inr (bytes, cc same, row)

  root_read :
      (db db' : D) (w : Write) (changes : List Change) (deleted : List Bytes) (aux : Batch)
      (o : Option Bytes)
      → rocks.write_opt db (writes w changes deleted aux) ≡ ok db'
      → ((old : Option Bytes) → last_write old internal_family root_key_key (w ∷ []) ≡ o)
      → rocks.get_cf db' internal_family root_key_key ≡ ok o
  root_read db db' w changes deleted aux o wrote sets =
      let (old, read) = reliable.reads db internal_family root_key_key in
      reliable.reads_back db db' (writes w changes deleted aux) internal_family root_key_key old
        wrote read
      ∙ ap ok (writes_root w changes deleted aux old ∙ sets old)

  -- What `load_root` finds.
  reloaded :
      (l r : Shape) (k v : Bytes) (db : D)
      → HasShortKeys (fork l k v r)
      → rocks.get_cf db internal_family root_key_key ≡ ok (some k)
      → IsStored (source (main rocks db)) (fork l k v r)
      → (load_root rocks (record { tree = none; db = db }) ≡ (
        record { tree = some (node (reference_to l) (reference_to r) (pair k v)); db = db },
        ok tt,
      ))
        × StandsMaybe
            (source (main rocks db))
            (fork l k v r)
            (some (node (reference_to l) (reference_to r) (pair k v)))
        × (Store.root_hash (some (node (reference_to l) (reference_to r) (pair k v)))
            ≡ ok (root_hash (fork l k v r)))
  unfolding load_root source Store.root_hash Node.hash root_hash Link.key
  reloaded l r k v db (short, short_l, short_r) rooted (here, sl, sr) = (
    rw (rooted, here) refl,
    (
      reference_to l,
      reference_to r,
      refl,
      reference_to-Holds l (main rocks db) sl,
      reference_to-Holds r (main rocks db) sr,
    ),
    rw (hashed l short_l, hashed r short_r) refl,
  )
    where
      hashed : (s : Shape) → HasShortKeys s → Node.slot_hash (reference_to s) ≡ ok (root_hash s)
      hashed s short = (clean_slot s (reference_to s) short (is_reference s)).2
        where
          is_reference : (s : Shape) → liftedmerk.Merk.Apply.Rows.IsClean s (reference_to s)
          is_reference leaf = refl
          is_reference (fork l k v r) = inl refl

  -- The same with what was written.
  pub commit_store_works :
      (merk : Merk D) (s : Shape) (deleted : List Bytes) (aux : Batch)
      → StandsMaybe (source (main rocks merk.db)) s merk.tree
      → IsAscending (contents s)
      → HasShortKeys s
      → All (λ k. ¬ HasKey s k) deleted
      → (merk' : Merk D) × (reopened : Merk D) × (commit_store rocks merk deleted aux
          ≡ (merk', ok tt))
        × StandsMaybe (source (main rocks merk'.db)) s merk'.tree
        × (Store.root_hash merk'.tree ≡ ok (root_hash s))
        × (load_root rocks (record { tree = none; db = merk'.db }) ≡ (reopened, ok tt))
        × StandsMaybe (source (main rocks merk'.db)) s reopened.tree
        × (Store.root_hash reopened.tree ≡ ok (root_hash s))
        × (w : Write) × (more : List Change) × ((old : Option Bytes) (q : Bytes)
            → last_write old default q (w ∷ []) ≡ old)
        × (rocks.write_opt merk.db (writes w more deleted aux) ≡ ok merk'.db)
        × All (RowChange s) more
  unfolding commit_store commit_tree write load_root Store.root_hash root_hash
  commit_store_works merk leaf deleted aux stands ordered short gone =
      let w = delete_cf internal_family root_key_key in
      let (db', wrote) = reliable.writes merk.db (writes w [] deleted aux) in
      let rooted =
        root_read merk.db db' w [] deleted aux none wrote
          (λ old. rw (cmp_refl root_key_key) refl) in
      (
        record { tree = none; db = db' },
        record { tree = none; db = db' },
        rw (stands, wrote) refl,
        refl,
        refl,
        rw rooted refl,
        refl,
        refl,
        w,
        [],
        λ old q. refl,
        wrote,
        tt,
      )
  commit_store_works merk (fork l k v r) deleted aux (sl, sr, is_some, hl, hr) ordered short gone =
      elim (commit-TreeSaved (main rocks merk.db) l r k v sl sr
        (new_committer (Node.height (node sl sr (pair k v))) 100) short hl hr) [
          | tree_saved sl' sr' c' more e1 batched rows covered cl cr hashed ↦
              let w = put_cf internal_family root_key_key k in
              let (db', wrote) = reliable.writes merk.db (writes w more deleted aux) in
              let rooted =
                root_read merk.db db' w more deleted aux (some k) wrote
                  (λ old. rw (cmp_refl root_key_key) refl) in
              let stored =
                rows-IsStored (main rocks db') (fork l k v r)
                  (contents-IsOrdered (fork l k v r) ordered)
                  (rows_there (fork l k v r) merk.db db' w more deleted aux (λ old q. refl) wrote
                    rows gone covered) in
              let (loads, stands', hashed') = reloaded l r k v db' short rooted stored in
              (
                record { tree = some (node sl' sr' (pair k v)); db = db' },
                record {
                  tree = some (node (reference_to l) (reference_to r) (pair k v));
                  db = db';
                },
                rw (is_some, e1, batched, wrote) refl,
                (
                  sl',
                  sr',
                  refl,
                  clean-Reholds l sl' cl (main rocks db') stored.1,
                  clean-Reholds r sr' cr (main rocks db') stored.2,
                ),
                hashed,
                loads,
                stands',
                hashed',
                w,
                more,
                λ old q. refl,
                wrote,
                rows,
              )
        ]

  -- If the database is reliable, the store's tree stands through it for a tree with sorted entries and
  -- keys of fewer than 256 bytes, or is empty, and none of the deleted keys is in it, then `commit`
  -- succeeds, and the tree in memory stands for the same through the new database. If the store is
  -- opened again, `load_root` succeeds with a tree that stands for the same, and its root hash is the
  -- Merkle root, as is the root hash in memory.
  pub load_root-commit_store :
      (merk : Merk D) (s : Shape) (deleted : List Bytes) (aux : Batch)
      → StandsMaybe (source (main rocks merk.db)) s merk.tree
      → IsAscending (contents s)
      → HasShortKeys s
      → All (λ k. ¬ HasKey s k) deleted
      → (merk' : Merk D) × (reopened : Merk D) × (commit_store rocks merk deleted aux
          ≡ (merk', ok tt))
        × StandsMaybe (source (main rocks merk'.db)) s merk'.tree
        × (Store.root_hash merk'.tree ≡ ok (root_hash s))
        × (load_root rocks (record { tree = none; db = merk'.db }) ≡ (reopened, ok tt))
        × StandsMaybe (source (main rocks merk'.db)) s reopened.tree
        × (Store.root_hash reopened.tree ≡ ok (root_hash s))
  load_root-commit_store merk s deleted aux stands ordered short gone =
      let (
        merk', reopened, commits, stands', hashed, loads, stands_again, hashed_again, w, more,
        skipped, wrote, rows,
      ) =
        commit_store_works merk s deleted aux stands ordered short gone in
      (merk', reopened, commits, stands', hashed, loads, stands_again, hashed_again)
