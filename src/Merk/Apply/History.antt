-- ===== src/Merk/Apply/History.antt =====
-- A store from an empty database on, over batches and restarts (src/merk/mod.rs).
use liftedmerk.Base.{
  ℕ, ◌+◌, ◌*◌, ◌≡◌, ◌≤◌, ◌<◌, [], ◌∙◌, refl, sym, ap, Bytes, Option, none, some, Result, ok, err,
  panic, stuck, All, length,
}
use mathlib.Core.Path.{subst}
use liftedmerk.Ed.{Ed}
use liftedmerk.Tree.Hash.{Hasher}
use liftedmerk.Tree.Types.{Tree}
use liftedmerk.Tree.Shape.{Shape, leaf, lookup, root_hash}
use liftedmerk.Tree.Ops.{Batch}
use liftedmerk.Tree.Ops.Avl.{IsAvl}
use liftedmerk.Tree.Ops.Contents.{contents}
use liftedmerk.Tree.Ops.Rebalance.{limit}
use liftedmerk.Tree.Ops.Update.{Entries, update}
use liftedmerk.Tree.Ops.Update.Cuts.{IsAscending}
use liftedmerk.Tree.Ops.Applied.{Fits}
use liftedmerk.Merk.Store as Store
use liftedmerk.Merk.Store.{get}
use liftedmerk.Merk.Apply.{
  Rocks, Merk, internal_family, root_key_key, main, loaded_root, load_root, apply,
}
use liftedmerk.Merk.Apply.Database.{IsReliable}
use liftedmerk.Merk.Apply.Durable.{contents-IsOrdered}
use liftedmerk.Merk.Apply.Sound.{IsSound, apply-IsSound, found_key}
use liftedmerk.Merk.Apply.Held.{get-StandsMaybe}

-- A store whose tree is not loaded.
abbrev pub closed : {D : Type 0} → D → Merk D
closed db = record { tree = none; db = db }

module _ ⦃h : Hasher⦄ ⦃e : Ed⦄ {D : Type 0} (rocks : Rocks D) where
  -- Batches that succeed, and restarts, with the entries that the operations make one after the other.
  pub data History (first : Merk D) : Merk D → Entries → Type 0 where
    opened : History first first []
    applied :
        (n depth : ℕ) (merk merk' : Merk D) (batch aux : Batch) (es es' : Entries)
        → History first merk es
        → 386 ≤ n
        → IsAscending batch
        → All Fits batch
        → update batch es ≡ some es'
        → length es + length batch < limit
        → 126 + 128 * length batch < depth
        → apply rocks n depth merk batch aux ≡ (merk', ok tt)
        → History first merk' es'
    restarted :
        (merk merk' : Merk D) (es : Entries)
        → History first merk es
        → load_root rocks (closed merk.db) ≡ (merk', ok tt)
        → History first merk' es

  loaded_db :
      (merk : Merk D) (result : Result (Option Tree))
      → (loaded_root rocks merk result).0.db ≡ merk.db
  loaded_db merk (ok t) = refl
  loaded_db merk (err error) = refl
  loaded_db merk panic = refl
  loaded_db merk stuck = refl

  load_root-db : (merk : Merk D) → (load_root rocks merk).0.db ≡ merk.db
  unfolding load_root
  load_root-db merk = loaded_db merk _

  empty-IsSound :
      (db : D)
      → ((q : Bytes) → main rocks db q ≡ ok none)
      → rocks.get_cf db internal_family root_key_key ≡ ok none
      → IsSound rocks (closed db) leaf
  unfolding load_root Store.root_hash root_hash contents
  empty-IsSound db nothing rootless = record {
    stands = refl;
    avl = tt;
    ordered = tt;
    short = tt;
    only = λ q missing. nothing q;
    reopened = closed db;
    reopens = rw rootless refl;
    stands_again = refl;
    hashed = refl;
    hashed_again = refl;
  }

  -- A store that was opened again.
  again :
      (merk merk' : Merk D) (s : Shape)
      → IsSound rocks merk s
      → load_root rocks (closed merk.db) ≡ (merk', ok tt)
      → IsSound rocks merk' s
  again merk merk' s sound done =
      let same : merk' ≡ sound.reopened = ap (λ x. x.0) (sym done ∙ sound.reopens) in
      let same_db : merk'.db ≡ merk.db =
        ap (λ x. x.0.db) (sym done) ∙ load_root-db (closed merk.db) in
      let whole : merk' ≡ record { tree = sound.reopened.tree; db = merk.db } =
        ap (λ d. record { tree = merk'.tree; db = d }) same_db
        ∙ ap (λ m. record { tree = m.tree; db = merk.db }) same in
      subst (λ m. IsSound rocks m s) (sym whole)
        (record {
          stands = sound.stands_again;
          avl = sound.avl;
          ordered = sound.ordered;
          short = sound.short;
          only = sound.only;
          reopened = sound.reopened;
          reopens = sound.reopens;
          stands_again = sound.stands_again;
          hashed = sound.hashed_again;
          hashed_again = sound.hashed_again;
        })

  History-IsSound :
      (reliable : IsReliable rocks) (first merk : Merk D) (es : Entries)
      → IsSound rocks first leaf
      → History first merk es
      → (s : Shape) × IsSound rocks merk s × (contents s ≡ es)
  unfolding contents
  History-IsSound reliable first merk es start opened = (leaf, start, refl)
  History-IsSound reliable first merk es start
        (applied n depth merk0 _ batch aux es0 _ past fuel sorted fits updates few deep done) =
      let (s, sound, same) = History-IsSound reliable first merk0 es0 start past in
      let (merk1, s', runs, sound', same') =
        apply-IsSound rocks reliable n depth merk0 batch aux s es fuel sound sorted fits
          (rw same updates) (rw same few) deep in
      let is_merk : merk1 ≡ merk = ap (λ x. x.0) (sym runs ∙ done) in
      (s', subst (λ m. IsSound rocks m s') is_merk sound', same')
  History-IsSound reliable first merk es start (restarted merk0 _ _ past done) =
      let (s, sound, same) = History-IsSound reliable first merk0 es start past in
      (s, again merk0 merk s sound done, same)

  -- On a reliable database that is empty at first, consider any sequence of restarts with `load_root`
  -- and of batches that `apply` accepts, with enough fuel, where each batch is sorted, its keys and
  -- values are short enough, its operations can be carried out one after the other on the list of
  -- entries so far, and is together with these shorter than 2^63. Afterwards there is a balanced tree
  -- with the sorted entries of the last list. The store's root hash is its Merkle root, and for every
  -- key `get` returns what a lookup in it gives.
  pub get-History :
      (reliable : IsReliable rocks) (db : D) (merk : Merk D) (es : Entries)
      → ((q : Bytes) → main rocks db q ≡ ok none)
      → rocks.get_cf db internal_family root_key_key ≡ ok none
      → History (closed db) merk es
      → (s : Shape) × IsAvl s
        × IsAscending (contents s)
        × (contents s ≡ es)
        × (Store.root_hash merk.tree ≡ ok (root_hash s))
        × ((q : Bytes) → get (main rocks merk.db) merk.tree q ≡ ok (lookup s q))
  get-History reliable db merk es nothing rootless past =
      let (s, sound, same) =
        History-IsSound reliable (closed db) merk es (empty-IsSound db nothing rootless) past in
      (
        s,
        sound.avl,
        sound.ordered,
        same,
        sound.hashed,
        λ q.
            get-StandsMaybe (main rocks merk.db) q s merk.tree sound.stands
              (λ absent. sound.only q (found_key s q (contents-IsOrdered s sound.ordered) absent)),
      )
