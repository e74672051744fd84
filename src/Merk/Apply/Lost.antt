-- ===== src/Merk/Apply/Lost.antt =====
-- What `Merk::apply` (src/merk/mod.rs) leaves when deleting a key fails, and what the next batch makes of
-- that.
use liftedmerk.Base.{
  ℕ, ◌*◌, ◌≡◌, ◌≤◌, ◌<◌, ◌∷◌, [], refl, List, Bytes, none, some, ok, err, All, length, arith,
  delete_nonexistent,
}
use liftedmerk.Ed.{Ed}
use liftedmerk.Tree.Hash.{Hasher, null_hash}
use liftedmerk.Tree.Shape.{Shape, leaf, height, root_hash, lookup}
use liftedmerk.Tree.Ops.{Batch, delete}
use liftedmerk.Tree.Ops.Avl.{IsAvl}
use liftedmerk.Tree.Ops.Contents.{contents}
use liftedmerk.Tree.Ops.Holds.{StandsMaybe}
use liftedmerk.Tree.Ops.Rebalance.{limit}
use liftedmerk.Tree.Ops.Update.{Entries, update}
use liftedmerk.Tree.Ops.Update.Cuts.{IsAscending}
use liftedmerk.Tree.Ops.Applied.{Fits}
use liftedmerk.Tree.Ops.Apply.Missing.{apply_to-missing}
use liftedmerk.Merk.Store as Store
use liftedmerk.Merk.Store.{source}
use liftedmerk.Merk.Apply.{Rocks, Write, Merk, main, apply_unchecked, apply}
use liftedmerk.Merk.Apply.Updates.{checked_runs, apply-root_hash}

module _ ⦃h : Hasher⦄ ⦃e : Ed⦄ {D : Type 0} (rocks : Rocks D) where
  delete_missing :
      (n depth : ℕ) (merk : Merk D) (k : Bytes) (aux : Batch) (s : Shape)
      → StandsMaybe (source (main rocks merk.db)) s merk.tree
      → lookup s k ≡ none
      → height s < depth
      → apply rocks n depth merk ((k, delete) ∷ []) aux
        ≡ (record { tree = none; db = merk.db }, err delete_nonexistent)
  unfolding apply_unchecked
  delete_missing n depth merk k aux s stands absent deep =
      let fails =
        apply_to-missing n (source (main rocks merk.db)) k s merk.tree depth stands absent deep in
      rw (checked_runs rocks n depth merk ((k, delete) ∷ []) aux (tt, tt), fails) refl

  -- If a store's tree stands, through the database, for a tree without some key, then `apply` on a
  -- batch that deletes that key returns an error, with depth above the tree's height, and leaves the
  -- database as it was, but the store with the null hash as its root hash. If the database's writes
  -- succeed, then a following `apply` succeeds with a sorted batch that can be carried out on no entries,
  -- with keys and values that are short enough, fewer than 2^63 operations, fuel 386 and depth above 128
  -- for each operation. The root hash is then the Merkle root of a balanced tree with the entries of that
  -- batch alone, whatever entries there were.
  pub apply-delete_missing :
      (n depth : ℕ) (merk : Merk D) (k : Bytes) (aux : Batch) (s : Shape) (batch aux' : Batch)
      (es : Entries)
      → StandsMaybe (source (main rocks merk.db)) s merk.tree
      → lookup s k ≡ none
      → height s < depth
      → ((db : D) (ws : List Write) → (db' : D) × (rocks.write_opt db ws ≡ ok db'))
      → 386 ≤ n
      → IsAscending batch
      → All Fits batch
      → update batch [] ≡ some es
      → length batch < limit
      → 128 * length batch < depth
      → (merk1 : Merk D) × (merk2 : Merk D) × (s' : Shape) × (apply rocks n depth merk
            ((k, delete) ∷ [])
            aux
          ≡ (merk1, err delete_nonexistent))
        × (merk1.db ≡ merk.db)
        × (Store.root_hash merk1.tree ≡ ok null_hash)
        × (apply rocks n depth merk1 batch aux' ≡ (merk2, ok tt))
        × (Store.root_hash merk2.tree ≡ ok (root_hash s'))
        × IsAvl s'
        × (contents s' ≡ es)
  unfolding Store.root_hash contents
  apply-delete_missing n depth merk k aux s batch aux' es stands absent deep write_ok fuel sorted
        fits updates few enough =
      let (merk2, s', applied, hashed, avl, same) =
        apply-root_hash rocks n depth (record { tree = none; db = merk.db }) batch aux' leaf es
          write_ok fuel refl tt tt sorted fits updates (omega (arith, few))
          (omega (arith, enough)) in
      (
        record { tree = none; db = merk.db },
        merk2,
        s',
        delete_missing n depth merk k aux s stands absent deep,
        refl,
        refl,
        applied,
        hashed,
        avl,
        same,
      )
