-- ===== src/Tree/Ops/Apply/Run.antt =====
-- `apply`, `build` and `apply_to` (src/tree/ops.rs) on balanced trees.
use liftedmerk.Base.{
  ℕ, zero, suc, ◌+◌, ◌*◌, ◌/◌, ◌≡◌, ◌≤◌, ◌<◌, ◌∷◌, ◌++◌, [], ◌∙◌, refl, sym, ap, List, Bytes,
  Option, some, Result, ok, err, panic, stuck, ◌>>=◌, All, take, drop, get_elem?, length,
  length-append, arith,
}
use mathlib.Core.Path.{subst}
use liftedmerk.Tree.Hash.{Hasher}
use liftedmerk.Tree.Types.{Tree, node, Slot, vacant}
use liftedmerk.Tree.Link
use liftedmerk.Tree.Walk.{Fetch}
use liftedmerk.Tree.Search.{Search, found}
use liftedmerk.Tree.Shape.{Shape, leaf, fork, height}
use liftedmerk.Tree.Ops.{
  Op, put, delete, Batch, Applied, panic_source, recurse, build_entry, build, apply_entry,
  apply_found, apply, apply_to,
}
use liftedmerk.Tree.Ops.Avl.{IsAvl}
use liftedmerk.Tree.Ops.Contents.{contents}
use liftedmerk.Tree.Ops.Holds.{pair, Holds, StandsMaybe}
use liftedmerk.Tree.Ops.Rebalance.{limit}
use liftedmerk.Tree.Ops.Update.{Entries, update}
use liftedmerk.Tree.Ops.Update.Split.{IsBelow, IsAbove, split_build}
use liftedmerk.Tree.Ops.Update.Cuts.{
  IsAscending, All-split, IsAscending-middle, Cut, hit, gap, binary_search-Cut, around, look-Around,
  update-IsAscending,
}
use liftedmerk.Tree.Ops.Applied.{Fits, Ready, Applies, applies, Works, recurse_works}
use liftedmerk.Tree.Ops.Sides.{any_source_maybe, new-pair, with_value-pair, Ready-sides}
use liftedmerk.Tree.Ops.Apply.{gap_works, put_works, delete_works}

-- A result without deleted keys.
abbrev bare : Result (Option Tree) → Result Applied
bare r = r >>= λ o. ok (o, [])

abbrev without_keys : Result Applied → Result Applied
without_keys r = r >>= λ x. ok (x.0, [])

module _ ⦃h : Hasher⦄ (n : ℕ) (fuel : 386 ≤ n) where
  module _ (fetch : Fetch) (apply_child : Option Tree → Batch → Result Applied) (bound : ℕ)
      (works : Works fetch apply_child bound) where
    entry_works :
        (depth : ℕ) (l r : Shape) (k v : Bytes) (sl sr : Slot) (i : ℕ) (batch first second : Batch)
        (op : Op) (es : Entries)
        → Holds fetch l sl
        → Holds fetch r sr
        → Ready (suc bound) (fork l k v r) batch es
        → bound ≤ depth
        → batch ≡ first ++ ((k, op) ∷ second)
        → take i batch ≡ first
        → drop (suc i) batch ≡ second
        → IsBelow first k
        → IsAbove second k
        → Applies fetch
            (apply_entry n depth apply_child fetch (node sl sr (pair k v)) batch i op)
            es
    entry_works depth l r k v sl sr i batch first second delete es hl hr ready deep whole is_first
          is_second low high =
        delete_works n fuel fetch apply_child bound works depth l r k v sl sr i batch first second
          es hl hr ready deep whole is_first is_second low high
    entry_works depth l r k v sl sr i batch first second (put v2) es hl hr ready deep whole is_first
          is_second low high =
        let (fits1, fits_rest) =
          All-split Fits first ((k, put v2) ∷ second) (rw whole at ready.fits) in
        let (fit, fits2) = fits_rest in
        rw (with_value-pair sl sr k v v2 fit.0 fit.1) (
          put_works n fuel fetch apply_child bound works l r k v v2 sl sr i batch first second es hl
            hr ready whole is_first is_second low high)

    found_works :
        (depth : ℕ) (l r : Shape) (k v : Bytes) (sl sr : Slot) (batch : Batch) (search : Search)
        (es : Entries)
        → Holds fetch l sl
        → Holds fetch r sr
        → Ready (suc bound) (fork l k v r) batch es
        → bound ≤ depth
        → Cut k batch search
        → Applies fetch
            (apply_found n depth apply_child fetch (node sl sr (pair k v)) batch search)
            es
    found_works depth l r k v sl sr batch search es hl hr ready deep
          (gap i first second whole is_first is_second low high) =
        gap_works n fuel fetch apply_child bound works l r k v sl sr i batch first second es hl hr
          ready whole is_first is_second low high
    found_works depth l r k v sl sr batch search es hl hr ready deep
          (hit i first second op whole is_first is_second here low high) =
        rw here (
          entry_works depth l r k v sl sr i batch first second op es hl hr ready deep whole is_first
            is_second low high)

    apply_works :
        (depth : ℕ) (l r : Shape) (k v : Bytes) (sl sr : Slot) (batch : Batch) (es : Entries)
        → Holds fetch l sl
        → Holds fetch r sr
        → Ready (suc bound) (fork l k v r) batch es
        → bound ≤ depth
        → Applies fetch (apply n depth apply_child fetch (node sl sr (pair k v)) batch) es
    unfolding apply Link.tree_key
    apply_works depth l r k v sl sr batch es hl hr ready deep =
        found_works depth l r k v sl sr batch _ es hl hr ready deep
          (binary_search-Cut k batch ready.sorted)

  module _ (apply_child : Option Tree → Batch → Result Applied) (bound : ℕ)
      (works : Works panic_source apply_child bound) where
    forget_keys :
        (fetch : Fetch) (result : Result Applied) (es : Entries)
        → Applies panic_source result es
        → Applies fetch (without_keys result) es
    forget_keys fetch result es (applies s o deleted e stands avl same) =
        applies s o [] (rw e) (any_source_maybe fetch s o stands) avl same

    only_tree : (r : Result Applied) → bare (r >>= λ x. ok x.0) ≡ without_keys r
    only_tree (ok x) = refl
    only_tree (err e) = refl
    only_tree panic = refl
    only_tree stuck = refl

    build_entry_runs :
        (i : ℕ) (k v : Bytes) (op : Op) (batch : Batch)
        → op ≡ put v
        → length k < 256
        → length v < 65536
        → bare (build_entry n apply_child batch i (k, op))
          ≡ without_keys
              (recurse n apply_child panic_source (node vacant vacant (pair k v)) batch (found i))
    build_entry_runs i k v op batch is_put hk hv =
        rw (is_put, new-pair k v hk hv)
          (only_tree
            (recurse n apply_child panic_source (node vacant vacant (pair k v)) batch (found i)))

    build_entry_works :
        (fetch : Fetch) (i : ℕ) (k : Bytes) (op : Op) (batch first second : Batch) (es : Entries)
        → Ready (suc bound) leaf batch es
        → batch ≡ first ++ ((k, op) ∷ second)
        → take i batch ≡ first
        → drop (suc i) batch ≡ second
        → Applies fetch (bare (build_entry n apply_child batch i (k, op))) es
    unfolding contents
    build_entry_works fetch i k op batch first second es ready whole is_first is_second =
        let (sorted1, low, high, sorted2) =
          IsAscending-middle first (k, op) second (rw whole at ready.sorted) in
        let (fits1, fits_rest) = All-split Fits first ((k, op) ∷ second) (rw whole at ready.fits) in
        let (fit, fits2) = fits_rest in
        let size : length batch ≡ length first + suc (length second) =
          ap length whole ∙ length-append first ((k, op) ∷ second) in
        let (v, xs, ys, is_put, u1, u2, same) =
          split_build first second es k op low high (rw whole at ready.updates) in
        let (hk, hv) = subst (λ o. Fits (k, o)) is_put fit in
        let (ready_l, ready_r) =
          Ready-sides bound leaf leaf first second xs ys tt tt tt tt sorted1 sorted2 fits1 fits2 u1
            u2 (omega (arith, ready.few, size)) (omega (arith, ready.deep, size)) in
        rw same (
          subst (λ x. Applies fetch x (xs ++ ((k, v) ∷ ys)))
            (sym (build_entry_runs i k v op batch is_put hk hv))
            (forget_keys fetch _ (xs ++ ((k, v) ∷ ys)) (
              recurse_works panic_source apply_child bound works n fuel leaf leaf k v vacant vacant
                batch (found i) first second xs ys is_first is_second refl refl ready_l ready_r
                (omega (arith, ready.few, size)))))

    build_runs :
        (batch : Batch) (b e : Bytes × Op) (es : Entries) (fetch : Fetch)
        → get_elem? (b ∷ batch) (length (b ∷ batch) / 2) ≡ some e
        → Applies fetch (bare (build_entry n apply_child (b ∷ batch) (length (b ∷ batch) / 2) e)) es
        → Applies fetch (bare (build n apply_child (b ∷ batch))) es
    unfolding build
    build_runs batch b e es fetch here done = rw here done

    build_works :
        (fetch : Fetch) (b : Bytes × Op) (batch : Batch) (es : Entries)
        → Ready (suc bound) leaf (b ∷ batch) es
        → Applies fetch (bare (build n apply_child (b ∷ batch))) es
    build_works fetch b batch es ready =
        elim (look-Around (b ∷ batch) (length (b ∷ batch) / 2) (omega arith)) [
          | around first second e whole is_first is_second here ↦
              build_runs batch b e es fetch here (
                build_entry_works fetch (length (b ∷ batch) / 2) e.0 e.1 (b ∷ batch) first second es
                  ready whole is_first is_second)
        ]

  unchanged :
      (fetch : Fetch) (s : Shape) (o : Option Tree) (es : Entries) (result : Result Applied)
      → StandsMaybe fetch s o
      → IsAvl s
      → update [] (contents s) ≡ some es
      → result ≡ ok (o, [])
      → Applies fetch result es
  unfolding update
  unchanged fetch s o es result stands avl e done =
      let same : contents s ≡ es = cc in applies s o [] done stands avl same

  apply_to-Works : (depth : ℕ) (fetch : Fetch) → Works fetch (apply_to n depth fetch) depth
  unfolding apply_to build contents
  apply_to-Works depth fetch s o [] es stands ready =
      unchanged fetch s o es _ stands ready.avl ready.updates refl
  apply_to-Works zero fetch s o (b ∷ batch) es stands ready = absurd (omega (arith, ready.deep))
  apply_to-Works (suc depth) fetch leaf o (b ∷ batch) es e ready = rw e (
      build_works (apply_to n depth panic_source) depth (apply_to-Works depth panic_source) fetch b
        batch es ready)
  apply_to-Works (suc depth) fetch (fork l k v r) o (b ∷ batch) es (sl, sr, e, hl, hr) ready =
      rw e (
        apply_works fetch (apply_to n depth fetch) depth (apply_to-Works depth fetch) depth l r k v
          sl sr (b ∷ batch) es hl hr ready (omega arith))

  -- A sorted batch, whose keys and values are short enough, is applied to a balanced tree with sorted
  -- entries, or to no tree; together they have fewer than 2^63 entries. If carrying the operations out
  -- one after the other on the list of entries succeeds, then `apply_to` with fuel 386 and depth above
  -- the tree's height plus 128 for each operation succeeds, and what it leaves stands for a balanced
  -- tree, or for nothing, with the entries of that list.
  pub apply_to-update :
      (depth : ℕ) (fetch : Fetch) (s : Shape) (o : Option Tree) (batch : Batch) (es : Entries)
      → StandsMaybe fetch s o
      → IsAvl s
      → IsAscending (contents s)
      → IsAscending batch
      → All Fits batch
      → update batch (contents s) ≡ some es
      → length (contents s) + length batch < limit
      → height s + 128 * length batch < depth
      → (s' : Shape) × (o' : Option Tree) × (deleted : List Bytes) × (apply_to n depth fetch o batch
          ≡ ok (o', deleted))
        × StandsMaybe fetch s' o'
        × IsAvl s'
        × (contents s' ≡ es)
        × IsAscending (contents s')
  apply_to-update depth fetch s o batch es stands avl ordered sorted fits updates few deep =
      elim (apply_to-Works depth fetch s o batch es stands (record {
        avl = avl;
        ordered = ordered;
        sorted = sorted;
        fits = fits;
        updates = updates;
        few = few;
        deep = deep;
      })) [
        | applies s' o' deleted e stands' avl' same ↦ (
          s',
          o',
          deleted,
          e,
          stands',
          avl',
          same,
          rw same (update-IsAscending batch (contents s) es ordered updates),
        )
      ]
