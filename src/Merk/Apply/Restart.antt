-- ===== src/Merk/Apply/Restart.antt =====
-- `Merk::apply`, and opening the store again (src/merk/mod.rs).
use liftedmerk.Base.{
  ℕ, ◌+◌, ◌*◌, ◌≡◌, ◌≤◌, ◌<◌, ◌∷◌, ◌∙◌, refl, List, Bytes, Option, none, some, ok, All, length,
}
use mathlib.Core.Path.{subst}
use liftedmerk.Ed.{Ed}
use liftedmerk.Tree.Hash.{Hasher}
use liftedmerk.Tree.Types.{Tree}
use liftedmerk.Tree.Shape.{Shape, leaf, fork, height, AllKeys, root_hash}
use liftedmerk.Tree.Search.Sorted.{All-imp}
use liftedmerk.Tree.Ops.{Op, put, Batch, apply_to}
use liftedmerk.Tree.Ops.Avl.{IsAvl}
use liftedmerk.Tree.Ops.Contents.{contents}
use liftedmerk.Tree.Ops.Holds.{StandsMaybe}
use liftedmerk.Tree.Ops.Rebalance.{limit}
use liftedmerk.Tree.Ops.Update.{Entries, update}
use liftedmerk.Tree.Ops.Update.Split.{All-append}
use liftedmerk.Tree.Ops.Update.Steps.{update-All}
use liftedmerk.Tree.Ops.Update.Cuts.{IsAscending}
use liftedmerk.Tree.Ops.Update.Gone.{Deletes, update_gone}
use liftedmerk.Tree.Ops.Applied.{Fits}
use liftedmerk.Tree.Ops.Apply.Run.{apply_to-update}
use liftedmerk.Tree.Ops.Apply.Deleted.{apply_to-Deletes}
use liftedmerk.Merk.Store as Store
use liftedmerk.Merk.Store.{source}
use liftedmerk.Merk.Apply.{Rocks, Merk, main, commit_store, load_root, apply_unchecked, apply}
use liftedmerk.Merk.Apply.Updates.{checked_runs}
use liftedmerk.Merk.Apply.Rows.{HasShortKeys, HasKey}
use liftedmerk.Merk.Apply.Database.{IsReliable}
use liftedmerk.Merk.Apply.Durable.{keys_All, key_of}
use liftedmerk.Merk.Apply.Reload.{load_root-commit_store}

pub contents-All : (P : Bytes → Type 0) (s : Shape) → AllKeys P s → All (λ e. P e.0) (contents s)
unfolding contents
contents-All P leaf a = tt
contents-All P (fork l k v r) (p, al, ar) =
    All-append (λ e. P e.0) (contents l) ((k, v) ∷ contents r) (contents-All P l al)
      (p, contents-All P r ar)

put_short : (b : Bytes × Op) → Fits b → (v : Bytes) → b.1 ≡ put v → length b.0 < 256
put_short b fit v is_put = (subst (λ op. Fits (b.0, op)) is_put fit).0

-- The entries that a batch leaves have short keys, and none that the batch deletes.
pub kept_short :
    (s s' : Shape) (batch : Batch) (es : Entries)
    → HasShortKeys s
    → All Fits batch
    → update batch (contents s) ≡ some es
    → contents s' ≡ es
    → HasShortKeys s'
kept_short s s' batch es short fits updates same =
    keys_All (λ k. length k < 256) s'
      (rw same (
        update-All (λ e. length e.0 < 256) batch (contents s) es
          (All-imp Fits (λ b. (v : Bytes) → b.1 ≡ put v → length b.0 < 256) put_short batch fits)
          (contents-All (λ k. length k < 256) s short) updates))

pub none_deleted :
    (s s' : Shape) (batch : Batch) (es : Entries) (deleted : List Bytes)
    → IsAscending batch
    → IsAscending (contents s)
    → update batch (contents s) ≡ some es
    → contents s' ≡ es
    → All (Deletes batch) deleted
    → All (λ k. ¬ HasKey s' k) deleted
none_deleted s s' batch es deleted sorted ordered updates same reported =
    All-imp (Deletes batch) (λ k. ¬ HasKey s' k)
      (λ k d there.
        key_of (λ x. ¬ (k ≡ x)) s' k
          (keys_All (λ x. ¬ (k ≡ x)) s'
            (rw same (update_gone batch (contents s) es k sorted ordered d updates)))
          there refl)
      deleted reported

module _ ⦃h : Hasher⦄ ⦃e : Ed⦄ {D : Type 0} (rocks : Rocks D) where
  pub unchecked_commits :
      (fuel depth : ℕ) (merk : Merk D) (batch aux : Batch) (o : Option Tree) (deleted : List Bytes)
      → apply_to fuel depth (source (main rocks merk.db)) merk.tree batch ≡ ok (o, deleted)
      → apply_unchecked rocks fuel depth merk batch aux
        ≡ commit_store rocks (record merk { tree = o }) deleted aux
  unfolding apply_unchecked
  unchecked_commits fuel depth merk batch aux o deleted e1 = rw e1 refl

  -- If the database is reliable and the store's tree stands through it for a balanced tree with sorted
  -- entries and keys of fewer than 256 bytes, or is empty, then `apply` succeeds with a sorted batch
  -- whose keys and values are short enough, if carrying the operations out one after the other on the
  -- list of entries does, if entries and operations together are fewer than 2^63, and with fuel 386
  -- and depth above the tree's height plus 128 for each operation. In memory, and in a store that is
  -- opened again with `load_root`, the tree then stands through the new database for one balanced tree
  -- with sorted entries and short keys, those of that list, and has its Merkle root as root hash.
  pub load_root-apply :
      (reliable : IsReliable rocks) (n depth : ℕ) (merk : Merk D) (batch aux : Batch) (s : Shape)
      (es : Entries)
      → 386 ≤ n
      → StandsMaybe (source (main rocks merk.db)) s merk.tree
      → IsAvl s
      → IsAscending (contents s)
      → HasShortKeys s
      → IsAscending batch
      → All Fits batch
      → update batch (contents s) ≡ some es
      → length (contents s) + length batch < limit
      → height s + 128 * length batch < depth
      → (merk' : Merk D) × (reopened : Merk D) × (s' : Shape) × (apply rocks n depth merk batch aux
          ≡ (merk', ok tt))
        × (load_root rocks (record { tree = none; db = merk'.db }) ≡ (reopened, ok tt))
        × StandsMaybe (source (main rocks merk'.db)) s' merk'.tree
        × StandsMaybe (source (main rocks merk'.db)) s' reopened.tree
        × IsAvl s'
        × IsAscending (contents s')
        × HasShortKeys s'
        × (contents s' ≡ es)
        × (Store.root_hash merk'.tree ≡ ok (root_hash s'))
        × (Store.root_hash reopened.tree ≡ ok (root_hash s'))
  load_root-apply reliable n depth merk batch aux s es fuel stands avl ordered short sorted fits
        updates few deep =
      let fetch = source (main rocks merk.db) in
      let (s', o, deleted, e1, stands1, avl', same, ordered') =
        apply_to-update n fuel depth fetch s merk.tree batch es stands avl ordered sorted fits
          updates few deep in
      let reported = apply_to-Deletes n depth fetch merk.tree batch o deleted sorted e1 in
      let short' = kept_short s s' batch es short fits updates same in
      let (merk', reopened, commits, stands', hashed, loads, stands_again, hashed_again) =
        load_root-commit_store rocks reliable (record merk { tree = o }) s' deleted aux stands1
          ordered' short'
          (none_deleted s s' batch es deleted sorted ordered updates same reported) in
      (
        merk',
        reopened,
        s',
        checked_runs rocks n depth merk batch aux sorted
            ∙ unchecked_commits n depth merk batch aux o deleted e1
            ∙ commits,
        loads,
        stands',
        stands_again,
        avl',
        ordered',
        short',
        same,
        hashed,
        hashed_again,
      )
