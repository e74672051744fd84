-- ===== src/Merk/Apply.antt =====
-- Writing to the store: `Merk::apply`, `Merk::apply_unchecked` and `Merk::commit` (src/merk/mod.rs).
-- RocksDB is an interface: it is read by key in a column family, and takes batches of writes. The
-- store is its tree and its database, and an operation returns what it leaves of the store with its
-- result, since an early return leaves the store changed.
pub mod Updates
pub mod Lost
pub mod Rows
pub mod Saves
pub mod Commits
pub mod Database
pub mod Durable
pub mod Changed
pub mod Reload
pub mod Leftovers
pub mod Held
pub mod Sound
pub mod History
pub mod Restart
use liftedmerk.Base.{
  ℕ, ◌∷◌, [], ◌++◌, List, Bytes, Option, none, some, Result, ok, err, panic, stuck, ◌>>=◌, cmp, map,
}
use Prim.Native.Nat.Ordering.{lt, eq, gt}
use liftedmerk.Ed.{Ed}
use liftedmerk.Tree.Hash.{Hasher}
use liftedmerk.Tree.Types.{Tree}
use liftedmerk.Tree.Link
use liftedmerk.Tree.Node
use liftedmerk.Tree.Commit.{commit}
use liftedmerk.Tree.Ops as Ops
use liftedmerk.Tree.Ops.{Batch, Applied, apply_to}
use liftedmerk.Merk.Keys.{check_keys}
use liftedmerk.Merk.Store.{
  Db, source, fetch_existing_node, Committer, new_committer, merk_committer,
}

-- The default column family, `AUX_CF_NAME` and `INTERNAL_CF_NAME`.
pub data Family : Type 0 where
  default : Family
  aux_family : Family
  internal_family : Family

-- The entries of a `WriteBatch`.
pub data Write : Type 0 where
  put_cf : Family → Bytes → Bytes → Write
  delete_cf : Family → Bytes → Write

pub record Rocks (D : Type 0) : Type 0 where
  pub get_cf : D → Family → Bytes → Result (Option Bytes)
  pub write_opt : D → List Write → Result D

-- `ROOT_KEY_KEY`, in ASCII
abbrev pub root_key_key : Bytes
root_key_key = 114 ∷ 111 ∷ 111 ∷ 116 ∷ []

-- A key with its stored bytes, or none if it is deleted.
abbrev pub Change : Type 0
Change = Bytes × Option Bytes

-- `sort_by` of the standard library, which is stable, on the keys.
unfoldable pub insert_sorted : Change → List Change → List Change
insert_sorted c [] = c ∷ []
insert_sorted c (d ∷ ds) =
    let later = insert_sorted c ds in
    elim (cmp c.0 d.0) [ lt ↦ c ∷ d ∷ ds | eq ↦ c ∷ d ∷ ds | gt ↦ d ∷ later ]

unfoldable pub sort : List Change → List Change
unfolding insert_sorted
sort [] = []
sort (c ∷ cs) = insert_sorted c (sort cs)

abbrev pub change_write : Change → Write
change_write (key, some value) = put_cf default key value
change_write (key, none) = delete_cf default key

abbrev pub aux_write : Bytes × Ops.Op → Write
aux_write (key, Ops.put value) = put_cf aux_family key value
aux_write (key, Ops.delete) = delete_cf aux_family key

-- The writes of `commit`, in order.
unfoldable pub writes : Write → List Change → List Bytes → Batch → List Write
unfolding sort
writes root_write to_batch deleted_keys aux =
    (root_write ∷ map change_write (sort (to_batch ++ map (λ key. (key, none)) deleted_keys)))
    ++ map aux_write aux

pub record Merk (D : Type 0) : Type 0 where
  pub tree : Option Tree
  pub db : D

-- What is left of the store, and the result.
abbrev pub Outcome : Type 0 → Type 0
Outcome D = Merk D × Result (Unit {0})

module _ ⦃h : Hasher⦄ ⦃e : Ed⦄ where
  -- The closure of `commit`: the committed tree, the write of the root's key, and the changed nodes.
  unfoldable pub commit_tree : Option Tree → Result (Option Tree × Write × List Change)
  unfolding commit merk_committer new_committer Node.height Link.tree_key
  commit_tree none = ok (none, delete_cf internal_family root_key_key, [])
  commit_tree (some t) = do
    (t', committer) ← commit merk_committer t (new_committer (Node.height t) 100)
    ok (some t', put_cf internal_family root_key_key (Link.tree_key t'), committer.batch)

module _ {D : Type 0} (rocks : Rocks D) where
  -- The default column family, as the tree's source reads it.
  abbrev pub main : D → Db
  main db key = rocks.get_cf db default key

  unfoldable pub get_aux : Merk D → Bytes → Result (Option Bytes)
  get_aux merk key = rocks.get_cf merk.db aux_family key

  abbrev pub written : Merk D → Result D → Outcome D
  written merk (ok db) = (record merk { db = db }, ok tt)
  written merk (err e) = (merk, err e)
  written merk panic = (merk, panic)
  written merk stuck = (merk, stuck)

  -- `Merk::write`
  unfoldable pub write : Merk D → List Write → Outcome D
  write merk batch = written merk (rocks.write_opt merk.db batch)

  unfoldable pub set_root_key : Merk D → Bytes → Outcome D
  unfolding write
  set_root_key merk key = write merk (put_cf internal_family root_key_key key ∷ [])

  module _ ⦃e : Ed⦄ where
    abbrev pub load_node : D → Option Bytes → Result (Option Tree)
    load_node db none = ok none
    load_node db (some root_key) = do t ← fetch_existing_node (main db) root_key; ok (some t)

    abbrev pub loaded_root : Merk D → Result (Option Tree) → Outcome D
    loaded_root merk (ok tree) = (record merk { tree = tree }, ok tt)
    loaded_root merk (err e) = (merk, err e)
    loaded_root merk panic = (merk, panic)
    loaded_root merk stuck = (merk, stuck)

    unfoldable pub load_root : Merk D → Outcome D
    unfolding fetch_existing_node
    load_root merk = loaded_root merk (
        rocks.get_cf merk.db internal_family root_key_key >>= λ root_key.
        load_node merk.db root_key)

  module _ ⦃h : Hasher⦄ ⦃e : Ed⦄ where
    -- What follows the closure. With its committer, `Tree::commit` returns no error.
    abbrev pub finish_commit :
        Merk D → List Bytes → Batch → Result (Option Tree × Write × List Change) → Outcome D
    finish_commit merk deleted_keys aux (ok (tree, root_write, to_batch)) =
        write (record merk { tree = tree }) (writes root_write to_batch deleted_keys aux)
    finish_commit merk deleted_keys aux (err e) = (merk, err e)
    finish_commit merk deleted_keys aux panic = (merk, panic)
    finish_commit merk deleted_keys aux stuck = (merk, stuck)

    -- `Merk::commit`
    unfoldable pub commit_store : Merk D → List Bytes → Batch → Outcome D
    unfolding write writes commit_tree
    commit_store merk deleted_keys aux = finish_commit merk deleted_keys aux (commit_tree merk.tree)

    -- An error of `apply_to` returns after the tree was taken out of the store.
    abbrev pub finish_apply : Merk D → Batch → Result Applied → Outcome D
    finish_apply merk aux (ok (tree, deleted_keys)) =
        commit_store (record merk { tree = tree }) deleted_keys aux
    finish_apply merk aux (err e) = (record merk { tree = none }, err e)
    finish_apply merk aux panic = (record merk { tree = none }, panic)
    finish_apply merk aux stuck = (record merk { tree = none }, stuck)

    -- `Merk::apply_unchecked`; the fuel bounds balancing, and the depth the descent into the tree.
    unfoldable pub apply_unchecked : ℕ → ℕ → Merk D → Batch → Batch → Outcome D
    unfolding apply_to commit_store source
    apply_unchecked fuel depth merk batch aux =
        finish_apply merk aux (apply_to fuel depth (source (main merk.db)) merk.tree batch)

    abbrev pub checked : Merk D → Outcome D → Result (Unit {0}) → Outcome D
    checked merk outcome (ok u) = outcome
    checked merk outcome (err e) = (merk, err e)
    checked merk outcome panic = (merk, panic)
    checked merk outcome stuck = (merk, stuck)

    -- `Merk::apply`
    unfoldable pub apply : ℕ → ℕ → Merk D → Batch → Batch → Outcome D
    unfolding apply_unchecked check_keys
    apply fuel depth merk batch aux =
        checked merk (apply_unchecked fuel depth merk batch aux)
          (check_keys none (map (λ entry. entry.0) batch))
