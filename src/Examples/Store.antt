-- ===== src/Examples/Store.antt =====
-- Applying batches to a store (src/merk/mod.rs) whose database is the list of its writes.
use liftedmerk.Base.{
  ◌≢◌, ◌∷◌, ◌++◌, [], refl, cmp, Bytes, List, Option, none, some, ok, err, delete_nonexistent,
  arith, Result, ◌↔◌, ◌≡◌, ◌∙◌, sym, ap, inl, inr, All,
}
use liftedmerk.Tree.Hash as Hash
use liftedmerk.Tree.Shape.{leaf, lookup, Shape, root_hash}
use liftedmerk.Tree.Link
use liftedmerk.Tree.Types.{Tree}
use liftedmerk.Tree.Node
use liftedmerk.Tree.Walk as Walk
use liftedmerk.Tree.Search.{binary_search}
use liftedmerk.Tree.Ops.{
  Batch, put, delete, rotate, maybe_double, maybe_balance, remove_edge, promote_edge, remove,
  walk_apply, recurse, build, apply_to,
}
use liftedmerk.Tree.Ops as Ops
use liftedmerk.Tree.Ops.Avl.{IsAvl}
use liftedmerk.Tree.Ops.Contents.{contents}
use liftedmerk.Tree.Ops.Update.{update, step}
use liftedmerk.Tree.Ops.Holds.{StandsMaybe}
use liftedmerk.Tree.Ops.Update.Cuts.{IsAscending}
use liftedmerk.Tree.Ops.Update.Gone.{Deletes}
use liftedmerk.Tree.Ops.Update.{Entries}
use liftedmerk.Tree.Ops.Applied.{Fits}
use liftedmerk.Tree.Ops.Apply.Removed.{IsAmong}
use liftedmerk.Tree.Ops.Apply.Reported.{apply_to-IsAmong}
use liftedmerk.Merk.Apply.History.{closed, History, opened, applied, restarted, get-History}
use liftedmerk.Merk.Apply.Rows.{HasShortKeys}
use liftedmerk.Merk.Apply.Database.{IsReliable, last_write, last_write-append}
use liftedmerk.Merk.Apply.Reload.{load_root-commit_store}
use liftedmerk.Merk.Apply.Restart.{load_root-apply}
use liftedmerk.Merk.Store as Store
use liftedmerk.Merk.Apply.{Family, Write, Rocks, Merk, main, apply, load_root, commit_store}
use liftedmerk.Merk.Apply.Lost.{apply-delete_missing}
use liftedmerk.Merk.Apply.Updates.{apply-root_hash, apply_unsorted}
use liftedmerk.Examples.Sample.{sum_hasher, sample_ed}
use liftedmerk.Examples.Balance.{
  key, val, tall, tall_tree, single_slot, single-Holds, tall-IsAvl, changes,
}

abbrev pub log_rocks : Rocks (List Write)
log_rocks = record {
  get_cf = λ db f k. ok (last_write none f k db);
  write_opt = λ db ws. ok (db ++ ws);
}

log_rocks-IsReliable : IsReliable log_rocks
log_rocks-IsReliable = record {
  reads = λ db f k. (last_write none f k db, refl);
  writes = λ db ws. (db ++ ws, refl);
  reads_back = read_back;
}
  where
    read_back :
        (db db' ws : List Write) (f : Family) (k : Bytes) (o : Option Bytes)
        → ◌≡◌ {A = Result (List Write)} (ok (db ++ ws)) (ok db')
        → ◌≡◌ {A = Result (Option Bytes)} (ok (last_write none f k db)) (ok o)
        → ◌≡◌ {A = Result (Option Bytes)} (ok (last_write none f k db')) (ok (last_write o f k ws))
    read_back db db' ws f k o wrote read =
        let all : db ++ ws ≡ db' = cc wrote in
        let old : last_write none f k db ≡ o = cc read in
        ap ok (
          ap (last_write none f k) (sym all)
          ∙ last_write-append f k db ws none
          ∙ ap (λ x. last_write x f k ws) old)

abbrev store : Merk (List Write)
store = record { tree = some tall_tree; db = [] }

tall_ascending : IsAscending (contents tall)
tall_ascending = unfold contents cmp in ((refl, (refl, tt)), ((refl, tt), (tt, tt)))

apply-root_hash_example :
    (merk' : Merk (List Write)) × (s' : Shape) × (apply log_rocks 386 259 store changes
        ((key 8, put (val 8)) ∷ [])
      ≡ (merk', ok tt))
    × (Store.root_hash merk'.tree ≡ ok (root_hash s'))
    × IsAvl s'
    × (contents s' ≡ (key 1, val 7) ∷ (key 3, val 3) ∷ (key 5, val 5) ∷ [])
apply-root_hash_example =
    apply-root_hash log_rocks 386 259 store changes ((key 8, put (val 8)) ∷ []) tall
      ((key 1, val 7) ∷ (key 3, val 3) ∷ (key 5, val 5) ∷ []) (λ db ws. (db ++ ws, refl))
      (omega arith)
      (
        single_slot 3,
        single_slot 5,
        refl,
        single-Holds (Store.source (main log_rocks [])) 3,
        single-Holds (Store.source (main log_rocks [])) 5,
      )
      tall-IsAvl tall_ascending (unfold cmp in ((refl, tt), (tt, tt)))
      ((omega arith, omega arith), (tt, tt)) (unfold update step contents cmp in refl)
      (unfold contents in omega arith) (omega arith)

tall-HasShortKeys : HasShortKeys tall
tall-HasShortKeys = (omega arith, (omega arith, tt, tt), (omega arith, tt, tt))

load_root-apply_example :
    (merk' : Merk (List Write)) × (reopened : Merk (List Write)) × (s' : Shape) × (apply log_rocks
        386 259 store changes
        ((key 8, put (val 8)) ∷ [])
      ≡ (merk', ok tt))
    × (load_root log_rocks (record { tree = none; db = merk'.db }) ≡ (reopened, ok tt))
    × StandsMaybe (Store.source (main log_rocks merk'.db)) s' merk'.tree
    × StandsMaybe (Store.source (main log_rocks merk'.db)) s' reopened.tree
    × IsAvl s'
    × IsAscending (contents s')
    × HasShortKeys s'
    × (contents s' ≡ (key 1, val 7) ∷ (key 3, val 3) ∷ (key 5, val 5) ∷ [])
    × (Store.root_hash merk'.tree ≡ ok (root_hash s'))
    × (Store.root_hash reopened.tree ≡ ok (root_hash s'))
load_root-apply_example =
    load_root-apply log_rocks log_rocks-IsReliable 386 259 store changes ((key 8, put (val 8)) ∷ [])
      tall ((key 1, val 7) ∷ (key 3, val 3) ∷ (key 5, val 5) ∷ []) (omega arith)
      (
        single_slot 3,
        single_slot 5,
        refl,
        single-Holds (Store.source (main log_rocks [])) 3,
        single-Holds (Store.source (main log_rocks [])) 5,
      )
      tall-IsAvl tall_ascending tall-HasShortKeys (unfold cmp in ((refl, tt), (tt, tt)))
      ((omega arith, omega arith), (tt, tt)) (unfold update step contents cmp in refl)
      (unfold contents in omega arith) (omega arith)

load_root-commit_store_example :
    (merk' : Merk (List Write)) × (reopened : Merk (List Write)) × (commit_store log_rocks store
        (key 9 ∷ [])
        []
      ≡ (merk', ok tt))
    × StandsMaybe (Store.source (main log_rocks merk'.db)) tall merk'.tree
    × (Store.root_hash merk'.tree ≡ ok (root_hash tall))
    × (load_root log_rocks (record { tree = none; db = merk'.db }) ≡ (reopened, ok tt))
    × StandsMaybe (Store.source (main log_rocks merk'.db)) tall reopened.tree
    × (Store.root_hash reopened.tree ≡ ok (root_hash tall))
load_root-commit_store_example =
    load_root-commit_store log_rocks log_rocks-IsReliable store tall (key 9 ∷ []) []
      (
        single_slot 3,
        single_slot 5,
        refl,
        single-Holds (Store.source (main log_rocks [])) 3,
        single-Holds (Store.source (main log_rocks [])) 5,
      )
      tall_ascending tall-HasShortKeys
      (
        λ there. elim there [
          | inl same ↦ cc same
          | inr (inl (inl same)) ↦ cc same
          | inr (inl (inr (inl none_there))) ↦ absurd none_there
          | inr (inl (inr (inr none_there))) ↦ absurd none_there
          | inr (inr (inl same)) ↦ cc same
          | inr (inr (inr (inl none_there))) ↦ absurd none_there
          | inr (inr (inr (inr none_there))) ↦ absurd none_there
        ],
        tt,
      )

root_deleted :
    (o : Option Tree) × (apply_to 6 6
        (Store.source (main log_rocks []))
        (some tall_tree)
        ((key 4, delete) ∷ [])
      ≡ ok (o, key 4 ∷ []))
unfolding apply_to Ops.apply build recurse walk_apply remove promote_edge remove_edge maybe_balance
    maybe_double rotate Ops.panic_source binary_search Walk.detach Walk.detach_expect
    Walk.walk_expect Node.attach Node.detach Node.child Node.link Node.set_slot
    Node.maybe_from_modified_tree Node.from_modified_tree Node.child_pending_writes
    Node.child_heights Node.child_height Node.height Node.balance_factor Link.tree_key Link.tree
    Link.height Link.balance_factor Link.child_heights cmp
root_deleted = (_, refl)

apply_to-IsAmong_example : IsAmong (key 4 ∷ []) (key 4) ↔ Deletes ((key 4, delete) ∷ []) (key 4)
apply_to-IsAmong_example =
    apply_to-IsAmong 6 6 (Store.source (main log_rocks [])) (some tall_tree) ((key 4, delete) ∷ [])
      root_deleted.0 (key 4 ∷ []) (key 4) (tt, tt) root_deleted.1

-- A new store with two keys, which is opened again.
abbrev two_keys : Batch
two_keys = (key 3, put (val 3)) ∷ (key 5, put (val 5)) ∷ []

abbrev two_entries : Entries
two_entries = (key 3, val 3) ∷ (key 5, val 5) ∷ []

two_sorted : IsAscending two_keys
two_sorted = unfold cmp in ((refl, tt), (tt, tt))

two_fit : All Fits two_keys
two_fit = ((omega arith, omega arith), ((omega arith, omega arith), tt))

two_added : update two_keys [] ≡ some two_entries
two_added = unfold update step cmp in refl

first_batch :
    (merk' : Merk (List Write)) × (reopened : Merk (List Write)) × (apply log_rocks 386 400
        (closed [])
        two_keys
        []
      ≡ (merk', ok tt))
    × (load_root log_rocks (closed merk'.db) ≡ (reopened, ok tt))
first_batch =
    let done =
      load_root-apply log_rocks log_rocks-IsReliable 386 400 (closed []) two_keys [] leaf
        two_entries (omega arith) refl tt (unfold contents in tt) tt two_sorted two_fit
        (unfold contents in two_added) (unfold contents in omega arith) (omega arith) in
    (done.0, done.1, done.3, done.4)

two_keys_kept : History log_rocks (closed []) first_batch.1 two_entries
two_keys_kept =
    restarted first_batch.0 first_batch.1 two_entries
      (applied 386 400 (closed []) first_batch.0 two_keys [] [] two_entries opened (omega arith)
        two_sorted two_fit two_added (omega arith) (omega arith) first_batch.2)
      first_batch.3

get-History_example :
    (s : Shape) × IsAvl s
    × IsAscending (contents s)
    × (contents s ≡ two_entries)
    × (Store.root_hash first_batch.1.tree ≡ ok (root_hash s))
    × ((q : Bytes)
        → Store.get (main log_rocks first_batch.1.db) first_batch.1.tree q ≡ ok (lookup s q))
get-History_example =
    get-History log_rocks log_rocks-IsReliable [] first_batch.1 two_entries (λ q. refl) refl
      two_keys_kept

-- Deleting a key that is not there, and then a batch with one entry.
abbrev nine : Batch
nine = (key 9, put (val 9)) ∷ []

apply-delete_missing_example :
    (merk1 : Merk (List Write)) × (merk2 : Merk (List Write)) × (s' : Shape) × (apply log_rocks 386
        259 store
        ((key 9, delete) ∷ [])
        []
      ≡ (merk1, err delete_nonexistent))
    × (merk1.db ≡ [])
    × (Store.root_hash merk1.tree ≡ ok Hash.null_hash)
    × (apply log_rocks 386 259 merk1 nine [] ≡ (merk2, ok tt))
    × (Store.root_hash merk2.tree ≡ ok (root_hash s'))
    × IsAvl s'
    × (contents s' ≡ (key 9, val 9) ∷ [])
apply-delete_missing_example =
    apply-delete_missing log_rocks 386 259 store (key 9) [] tall nine [] ((key 9, val 9) ∷ [])
      (
        single_slot 3,
        single_slot 5,
        refl,
        single-Holds (Store.source (main log_rocks [])) 3,
        single-Holds (Store.source (main log_rocks [])) 5,
      )
      (unfold lookup cmp in refl) (omega arith) (λ db ws. (db ++ ws, refl)) (omega arith) (tt, tt)
      ((omega arith, omega arith), tt) (unfold update step in refl) (omega arith) (omega arith)

abbrev twice : Batch
twice = (key 9, delete) ∷ (key 9, put (val 9)) ∷ []

apply_unsorted_example :
    ((apply log_rocks 6 6 store twice []).0 ≡ store)
    × ((apply log_rocks 6 6 store twice []).1 ≢ ok tt)
apply_unsorted_example =
    apply_unsorted log_rocks 6 6 store twice [] (λ sorted. unfold cmp in (cc (sorted.0.0)))
