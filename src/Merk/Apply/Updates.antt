-- ===== src/Merk/Apply/Updates.antt =====
-- What `Merk::apply` (src/merk/mod.rs) makes of the store: on success, and for a batch that it refuses.
use liftedmerk.Base.{
  ℕ, ◌≢◌, ◌+◌, ◌*◌, ◌≡◌, ◌≤◌, ◌<◌, ◌∷◌, ◌++◌, [], ◌∙◌, refl, ap, List, Bytes, true, false, Option,
  none, some, Result, ok, err, panic, stuck, All, length, map, cmp,
}
use Prim.Native.Nat.Ordering.{lt}
use liftedmerk.Ed.{Ed}
use liftedmerk.Tree.Hash.{Hasher}
use liftedmerk.Tree.Types.{
  Tree, node, Slot, vacant, holds, Link, reference, modified, uncommitted, loaded,
}
use liftedmerk.Tree.Link
use liftedmerk.Tree.Node
use liftedmerk.Tree.Walk.{Fetch}
use liftedmerk.Tree.Encoding.{encode, encode_link, encode_kv, slot_option}
use liftedmerk.Tree.Commit.Hashes.{PrunableSlot, Draft, nothing, clean, changed, commit-root_hash}
use liftedmerk.Tree.Shape.{Shape, leaf, fork, height, root_hash}
use liftedmerk.Tree.Search.Sorted.{IsSorted}
use liftedmerk.Tree.Ops.{Batch, apply_to}
use liftedmerk.Tree.Ops.Avl.{IsAvl}
use liftedmerk.Tree.Ops.Contents.{contents}
use liftedmerk.Tree.Ops.Holds.{pair, Holds, StandsMaybe}
use liftedmerk.Tree.Ops.Rebalance.{limit}
use liftedmerk.Tree.Ops.Update.{Entries, update}
use liftedmerk.Tree.Ops.Update.Cuts.{IsAscending}
use liftedmerk.Tree.Ops.Applied.{Fits}
use liftedmerk.Tree.Ops.Apply.Run.{apply_to-update}
use liftedmerk.Merk.Keys.{check_keys, check_keys-IsSorted}
use liftedmerk.Merk.Store as Store
use liftedmerk.Merk.Store.{Committer, new_committer, merk_committer, source}
use liftedmerk.Merk.Apply.{
  Rocks, Write, put_cf, delete_cf, internal_family, root_key_key, Change, Merk, Outcome, main,
  commit_tree, commit_store, writes, write, apply_unchecked, checked, apply,
}

-- A tree under operations can be committed.
module _ ⦃h : Hasher⦄ where
  Holds-Draft : (fetch : Fetch) (s : Shape) (slot : Slot) → Holds fetch s slot → Draft s slot
  unfolding Link.hash
  Holds-Draft fetch leaf slot e = rw e nothing
  Holds-Draft fetch (fork l k v r) slot (reference x c q, sl, sr, e, got, fresh, hs, hl, hr) =
      rw e (clean (fork l k v r) (reference x c q) (ap ok fresh.0) tt)
  Holds-Draft fetch (fork l k v r) slot (modified p c t, sl, sr, e, got, fresh, hs, hl, hr) =
      rw (e, got)
        (changed l r k v sl sr _ p c refl (Holds-Draft fetch l sl hl) (Holds-Draft fetch r sr hr))
  Holds-Draft fetch (fork l k v r) slot (uncommitted x c t, sl, sr, e, got, fresh, hs, hl, hr) =
      absurd got
  Holds-Draft fetch (fork l k v r) slot (loaded x c t, sl, sr, e, got, fresh, hs, hl, hr) =
      rw e (clean (fork l k v r) (loaded x c t) (ap ok fresh.0) tt)

-- The store's committer writes every node whose links have an encoding.
module _ ⦃e : Ed⦄ where
  encode_slot :
      (s : Slot)
      → PrunableSlot s
      → (bytes : Bytes) × (e.encode_option Link encode_link (slot_option s) ≡ ok bytes)
  unfolding encode_link
  encode_slot vacant fits = (_, e.encode_option_none Link encode_link)
  encode_slot (holds (reference x c k)) fits =
      (_, e.encode_option_some Link encode_link (reference x c k))
  encode_slot (holds (modified p c t)) fits = absurd fits
  encode_slot (holds (uncommitted x c t)) fits = absurd fits
  encode_slot (holds (loaded x c t)) fits =
      (_, e.encode_option_some Link encode_link (loaded x c t))

  write_works :
      (c : Committer) (t : Tree)
      → PrunableSlot (Node.link t true)
      → PrunableSlot (Node.link t false)
      → (c' : Committer) × (merk_committer.write c t ≡ ok c')
  unfolding merk_committer Store.write encode Node.link
  write_works c (node l r kv) fits_l fits_r =
      let (left, el) = encode_slot l fits_l in
      let (right, er) = encode_slot r fits_r in
      (
        record c {
          batch =
              c.batch ++ (Link.tree_key (node l r kv), some (left ++ (right ++ encode_kv kv))) ∷ [];
        },
        rw (el, er) refl,
      )

keys_ascending :
    {A : Type 0} (batch : List (Bytes × A))
    → IsAscending batch
    → IsSorted (map (λ entry. entry.0) batch)
keys_ascending [] a = tt
keys_ascending (b ∷ batch) (above, a) = (keys_above b.0 batch above, keys_ascending batch a)
  where
    keys_above :
        {A : Type 0} (k : Bytes) (batch : List (Bytes × A))
        → All (λ e. cmp k e.0 ≡ lt) batch
        → All (λ x. cmp k x ≡ lt) (map (λ entry. entry.0) batch)
    keys_above k [] a = tt
    keys_above k (c ∷ batch) (p, a) = (p, keys_above k batch a)

module _ ⦃h : Hasher⦄ ⦃e : Ed⦄ where
  committed :
      (fetch : Fetch) (s : Shape) (o : Option Tree)
      → StandsMaybe fetch s o
      → (o' : Option Tree) × (w : Write) × (changes : List Change) × (commit_tree o
          ≡ ok (o', w, changes))
        × (Store.root_hash o' ≡ ok (root_hash s))
  unfolding commit_tree Store.root_hash root_hash
  committed fetch leaf o stands =
      (none, delete_cf internal_family root_key_key, [], rw stands refl, refl)
  committed fetch (fork l k v r) o (sl, sr, is_some, hl, hr) =
      let (t', c', e1, hashed) =
        commit-root_hash merk_committer write_works l r k v sl sr
          (new_committer (Node.height (node sl sr (pair k v))) 100) (Holds-Draft fetch l sl hl)
          (Holds-Draft fetch r sr hr) in
      (
        some t',
        put_cf internal_family root_key_key (Link.tree_key t'),
        c'.batch,
        rw (is_some, e1) refl,
        hashed,
      )

  module _ {D : Type 0} (rocks : Rocks D) where
    unchecked_runs :
        (fuel depth : ℕ) (merk : Merk D) (batch aux : Batch) (o o' : Option Tree)
        (deleted : List Bytes) (w : Write) (changes : List Change) (db : D)
        → apply_to fuel depth (source (main rocks merk.db)) merk.tree batch ≡ ok (o, deleted)
        → commit_tree o ≡ ok (o', w, changes)
        → rocks.write_opt merk.db (writes w changes deleted aux) ≡ ok db
        → apply_unchecked rocks fuel depth merk batch aux ≡ (record { tree = o'; db = db }, ok tt)
    unfolding apply_unchecked commit_store write
    unchecked_runs fuel depth merk batch aux o o' deleted w changes db e1 e2 e3 =
        rw (e1, e2, e3) refl

    pub checked_runs :
        (fuel depth : ℕ) (merk : Merk D) (batch aux : Batch)
        → IsAscending batch
        → apply rocks fuel depth merk batch aux ≡ apply_unchecked rocks fuel depth merk batch aux
    unfolding apply
    checked_runs fuel depth merk batch aux sorted =
        rw ((check_keys-IsSorted (map (λ entry. entry.0) batch)).1 (keys_ascending batch sorted))

    -- If the database's writes succeed, then on a store whose tree stands, through the database, for a
    -- balanced tree with sorted entries, or which is empty, `apply` succeeds with a sorted batch whose
    -- keys and values are short enough, if carrying the operations out one after the other on the list
    -- of entries does, if entries and operations together are fewer than 2^63, and with fuel 386 and
    -- depth above the tree's height plus 128 for each operation. The root hash of the store that it
    -- leaves is the Merkle root of a balanced tree with the entries of that list.
    pub apply-root_hash :
        (n depth : ℕ) (merk : Merk D) (batch aux : Batch) (s : Shape) (es : Entries)
        → ((db : D) (ws : List Write) → (db' : D) × (rocks.write_opt db ws ≡ ok db'))
        → 386 ≤ n
        → StandsMaybe (source (main rocks merk.db)) s merk.tree
        → IsAvl s
        → IsAscending (contents s)
        → IsAscending batch
        → All Fits batch
        → update batch (contents s) ≡ some es
        → length (contents s) + length batch < limit
        → height s + 128 * length batch < depth
        → (merk' : Merk D) × (s' : Shape) × (apply rocks n depth merk batch aux ≡ (merk', ok tt))
          × (Store.root_hash merk'.tree ≡ ok (root_hash s'))
          × IsAvl s'
          × (contents s' ≡ es)
    apply-root_hash n depth merk batch aux s es write_ok fuel stands avl ordered sorted fits updates
          few deep =
        let fetch = source (main rocks merk.db) in
        let (s', o, deleted, e1, stands', avl', same, ordered') =
          apply_to-update n fuel depth fetch s merk.tree batch es stands avl ordered sorted fits
            updates few deep in
        let (o', w, changes, e2, hashed) = committed fetch s' o stands' in
        let (db, e3) = write_ok merk.db (writes w changes deleted aux) in
        (
          record { tree = o'; db = db },
          s',
          checked_runs n depth merk batch aux sorted
              ∙ unchecked_runs n depth merk batch aux o o' deleted w changes db e1 e2 e3,
          hashed,
          avl',
          same,
        )

module _ ⦃h : Hasher⦄ ⦃e : Ed⦄ {D : Type 0} (rocks : Rocks D) where
  check_fails :
      (merk : Merk D) (outcome : Outcome D) (result : Result (Unit {0}))
      → result ≢ ok tt
      → ((checked rocks merk outcome result).0 ≡ merk)
        × ((checked rocks merk outcome result).1 ≢ ok tt)
  check_fails merk outcome (ok u) wrong = absurd (wrong refl)
  check_fails merk outcome (err error) wrong = (refl, wrong)
  check_fails merk outcome panic wrong = (refl, wrong)
  check_fails merk outcome stuck wrong = (refl, wrong)

  -- `apply` on a batch whose keys are not sorted and unique leaves the store as it was, and does not
  -- succeed.
  pub apply_unsorted :
      (fuel depth : ℕ) (merk : Merk D) (batch aux : Batch)
      → ¬ IsSorted (map (λ entry. entry.0) batch)
      → ((apply rocks fuel depth merk batch aux).0 ≡ merk)
        × ((apply rocks fuel depth merk batch aux).1 ≢ ok tt)
  unfolding apply
  apply_unsorted fuel depth merk batch aux unsorted =
      check_fails merk _ (check_keys none (map (λ entry. entry.0) batch))
        (λ passed. unsorted ((check_keys-IsSorted (map (λ entry. entry.0) batch)).0 passed))
