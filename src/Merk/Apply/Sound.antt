-- ===== src/Merk/Apply/Sound.antt =====
-- A store that can be opened again (src/merk/mod.rs), and a batch on it.
use liftedmerk.Base.{
  ℕ, ◌+◌, ◌*◌, ◌≡◌, ◌⊎◌, ◌≤◌, ◌<◌, ◌∷◌, ◌∙◌, Bytes, none, some, ok, All, length, inl, inr, cmp,
  cmp-cases, cmp_refl, gt_of_lt, eq_of_cmp, Option-cases, arith,
}
use Prim.Native.Nat.Ordering.{lt, gt}
use liftedmerk.Ed.{Ed}
use liftedmerk.Tree.Hash.{Hasher}
use liftedmerk.Tree.Shape.{Shape, leaf, fork, lookup, IsOrdered, root_hash}
use liftedmerk.Tree.Ops.{Batch}
use liftedmerk.Tree.Ops.Avl.{IsAvl}
use liftedmerk.Tree.Ops.Contents.{contents}
use liftedmerk.Tree.Ops.Holds.{StandsMaybe}
use liftedmerk.Tree.Ops.Rebalance.{limit, low_enough}
use liftedmerk.Tree.Ops.Update.{Entries, update}
use liftedmerk.Tree.Ops.Update.Cuts.{IsAscending}
use liftedmerk.Tree.Ops.Update.Gone.{Deletes}
use liftedmerk.Tree.Ops.Update.Kept.{HasEntry, HasEntry-append, HasEntry-split, update_kept}
use liftedmerk.Tree.Ops.Applied.{Fits}
use liftedmerk.Tree.Ops.Apply.Run.{apply_to-update}
use liftedmerk.Tree.Ops.Apply.Deleted.{apply_to-Deletes}
use liftedmerk.Tree.Ops.Apply.Reported.{apply_to-IsAmong}
use liftedmerk.Merk.Store as Store
use liftedmerk.Merk.Store.{source, get}
use liftedmerk.Merk.Apply.{Rocks, Merk, main, load_root, apply}
use liftedmerk.Merk.Apply.Updates.{checked_runs}
use liftedmerk.Merk.Apply.Rows.{HasShortKeys, HasKey}
use liftedmerk.Merk.Apply.Database.{IsReliable}
use liftedmerk.Merk.Apply.Durable.{key_of, contents-IsOrdered}
use liftedmerk.Merk.Apply.Reload.{commit_store_works}
use liftedmerk.Merk.Apply.Leftovers.{rows_gone}
use liftedmerk.Merk.Apply.Restart.{kept_short, none_deleted, unchecked_commits}

-- A key that is there is found.
pub found_key : (s : Shape) (q : Bytes) → IsOrdered s → lookup s q ≡ none → ¬ HasKey s q
unfolding lookup
found_key leaf q ordered missing there = absurd there
found_key (fork l k v r) q (below, above, ol, or) missing there = elim (cmp-cases q k) [
  | inl low ↦ found_key l q ol (rw (low, lookup) at missing) (on_left low there)
  | inr (inl same) ↦ cc (rw (same, lookup) at missing)
  | inr (inr high) ↦ found_key r q or (rw (high, lookup) at missing) (on_right high there)
]
  where
    on_left : cmp q k ≡ lt → HasKey (fork l k v r) q → HasKey l q
    on_left low (inl same) = cc (rw (same, cmp_refl k) at low)
    on_left low (inr (inl x)) = x
    on_left low (inr (inr x)) =
        cc (rw (gt_of_lt k q (key_of (λ y. cmp k y ≡ lt) r q above x)) at low)

    on_right : cmp q k ≡ gt → HasKey (fork l k v r) q → HasKey r q
    on_right high (inl same) = cc (rw (same, cmp_refl k) at high)
    on_right high (inr (inl x)) = cc (rw (key_of (λ y. cmp y k ≡ lt) l q below x) at high)
    on_right high (inr (inr x)) = x

key-HasEntry : (s : Shape) (q : Bytes) → HasKey s q → HasEntry (contents s) q
unfolding contents
key-HasEntry leaf q there = there
key-HasEntry (fork l k v r) q (inl same) =
    HasEntry-append (contents l) ((k, v) ∷ contents r) q (inr (inl same))
key-HasEntry (fork l k v r) q (inr (inl below)) =
    HasEntry-append (contents l) ((k, v) ∷ contents r) q (inl (key-HasEntry l q below))
key-HasEntry (fork l k v r) q (inr (inr below)) =
    HasEntry-append (contents l) ((k, v) ∷ contents r) q (inr (inr (key-HasEntry r q below)))

entry-HasKey : (s : Shape) (q : Bytes) → HasEntry (contents s) q → HasKey s q
unfolding contents
entry-HasKey leaf q there = there
entry-HasKey (fork l k v r) q there =
    elim (HasEntry-split (contents l) ((k, v) ∷ contents r) q there) [
      | inl low ↦ inr (inl (entry-HasKey l q low))
      | inr (inl same) ↦ inl same
      | inr (inr high) ↦ inr (inr (entry-HasKey r q high))
    ]

lookup-HasKey : (s : Shape) (q v : Bytes) → lookup s q ≡ some v → HasKey s q
unfolding lookup
lookup-HasKey leaf q v found = cc found
lookup-HasKey (fork l k w r) q v found = elim (cmp-cases q k) [
  | inl low ↦ inr (inl (lookup-HasKey l q v (rw (low, lookup) at found)))
  | inr (inl same) ↦ inl (eq_of_cmp q k same)
  | inr (inr high) ↦ inr (inr (lookup-HasKey r q v (rw (high, lookup) at found)))
]

-- A key that is not there after a batch was deleted by it, or was not there.
accounted :
    (s s' : Shape) (batch : Batch) (es : Entries) (q : Bytes)
    → IsAscending (contents s)
    → update batch (contents s) ≡ some es
    → contents s' ≡ es
    → ¬ HasKey s' q
    → Deletes batch q ⊎ (¬ HasKey s q)
accounted s s' batch es q ordered updates same missing = elim (Option-cases (lookup s q)) [
  | inl absent ↦ inr (found_key s q (contents-IsOrdered s ordered) absent)
  | inr (v, present) ↦
      elim (update_kept batch (contents s) es q updates
        (key-HasEntry s q (lookup-HasKey s q v present))) [
          | inl kept ↦ absurd (missing (entry-HasKey s' q (rw same kept)))
          | inr d ↦ inl d
        ]
]

module _ ⦃h : Hasher⦄ ⦃e : Ed⦄ {D : Type 0} (rocks : Rocks D) where
  -- In memory and, once it is opened again, from the database, the store stands for a balanced tree;
  -- the database has no other keys.
  pub record IsSound (merk : Merk D) (s : Shape) : Type 0 where
    pub stands : StandsMaybe (source (main rocks merk.db)) s merk.tree
    pub avl : IsAvl s
    pub ordered : IsAscending (contents s)
    pub short : HasShortKeys s
    pub only : (q : Bytes) → ¬ HasKey s q → main rocks merk.db q ≡ ok none
    pub reopened : Merk D
    pub reopens : load_root rocks (record { tree = none; db = merk.db }) ≡ (reopened, ok tt)
    pub stands_again : StandsMaybe (source (main rocks merk.db)) s reopened.tree
    pub hashed : Store.root_hash merk.tree ≡ ok (root_hash s)
    pub hashed_again : Store.root_hash reopened.tree ≡ ok (root_hash s)

  pub apply-IsSound :
      (reliable : IsReliable rocks) (n depth : ℕ) (merk : Merk D) (batch aux : Batch) (s : Shape)
      (es : Entries)
      → 386 ≤ n
      → IsSound merk s
      → IsAscending batch
      → All Fits batch
      → update batch (contents s) ≡ some es
      → length (contents s) + length batch < limit
      → 126 + 128 * length batch < depth
      → (merk' : Merk D) × (s' : Shape) × (apply rocks n depth merk batch aux ≡ (merk', ok tt))
        × IsSound merk' s'
        × (contents s' ≡ es)
  apply-IsSound reliable n depth merk batch aux s es fuel sound sorted fits updates few deep =
      let fetch = source (main rocks merk.db) in
      let (s', o, deleted, e1, stands1, avl', same, ordered') =
        apply_to-update n fuel depth fetch s merk.tree batch es sound.stands sound.avl sound.ordered
          sorted fits updates few
          (omega (arith, low_enough s sound.avl (omega (arith, few)), deep)) in
      let short' = kept_short s s' batch es sound.short fits updates same in
      let (
        merk', reopened, commits, stands', hashed, loads, stands_again, hashed_again, w, more,
        skipped, wrote, rows,
      ) =
        commit_store_works rocks reliable (record merk { tree = o }) s' deleted aux stands1 ordered'
          short'
          (none_deleted s s' batch es deleted sorted sound.ordered updates same
            (apply_to-Deletes n depth fetch merk.tree batch o deleted sorted e1)) in
      (
        merk',
        s',
        checked_runs rocks n depth merk batch aux sorted
            ∙ unchecked_commits rocks n depth merk batch aux o deleted e1
            ∙ commits,
        record {
          stands = stands';
          avl = avl';
          ordered = ordered';
          short = short';
          only = λ q missing.
              rows_gone rocks reliable s' merk.db merk'.db w more deleted aux skipped wrote rows q
                missing
                (elim (accounted s s' batch es q sound.ordered updates same missing) [
                  | inl d ↦
                      inl
                        ((apply_to-IsAmong n depth fetch merk.tree batch o deleted q sorted e1).1 d)
                  | inr absent ↦ inr (sound.only q absent)
                ]);
          reopened = reopened;
          reopens = loads;
          stands_again = stands_again;
          hashed = hashed;
          hashed_again = hashed_again;
        },
        same,
      )
