-- ===== src/Tree/Ops/Apply.antt =====
-- `apply_to` (src/tree/ops.rs) on balanced trees: a sorted batch updates the entries.
pub mod Run
pub mod Deleted
pub mod Removed
pub mod Reported
pub mod Missing
use liftedmerk.Base.{
  ℕ, zero, suc, ◌+◌, ◌*◌, ◌/◌, ◌≡◌, ◌≤◌, ◌<◌, ◌∷◌, ◌++◌, [], ◌∙◌, refl, sym, ap, List, Bytes,
  Option, none, some, Result, ok, ◌>>=◌, expect, All, take, drop, get_elem?, length, length-append,
  max, arith,
}
use mathlib.Core.Path.{subst}
use liftedmerk.Tree.Hash.{Hasher}
use liftedmerk.Tree.Types.{Tree, node, Slot, vacant, reference, modified, uncommitted, loaded}
use liftedmerk.Tree.Kv
use liftedmerk.Tree.Link
use liftedmerk.Tree.Node
use liftedmerk.Tree.Walk.{Fetch}
use liftedmerk.Tree.Search.{Search, found, missing, binary_search}
use liftedmerk.Tree.Shape.{Shape, leaf, fork, height, kv_hash-kv_digest}
use liftedmerk.Tree.Ops.{
  Op, put, delete, Batch, Applied, panic_source, recurse, remove, build_entry, build, apply_entry,
  apply_found, apply, apply_to,
}
use liftedmerk.Tree.Ops.Avl.{IsAvl}
use liftedmerk.Tree.Ops.Contents.{contents}
use liftedmerk.Tree.Ops.Holds.{pair, Obtains, Holds, StandsMaybe}
use liftedmerk.Tree.Ops.Rebalance.{limit, length-contents, low_enough}
use liftedmerk.Tree.Ops.Remove.Root.{remove-contents}
use liftedmerk.Tree.Ops.Update.{Entries, update}
use liftedmerk.Tree.Ops.Update.Steps.{length-update}
use liftedmerk.Tree.Ops.Update.Split.{
  IsBelow, IsAbove, split_missing, split_put, split_delete, split_build,
}
use liftedmerk.Tree.Ops.Update.Cuts.{
  IsAscending, All-split, IsAscending-append, IsAscending-middle, IsAscending-skip, Cut, hit, gap,
  binary_search-Cut, around, look-Around, update-IsAscending,
}
use liftedmerk.Tree.Ops.Sides.{Ready-sides}
use liftedmerk.Tree.Ops.Applied.{Fits, Ready, Applies, applies, Works, recurse_works}

module _ ⦃h : Hasher⦄ where
  module _ (n : ℕ) (fuel : 386 ≤ n) (fetch : Fetch)
      (apply_child : Option Tree → Batch → Result Applied) (bound : ℕ)
      (works : Works fetch apply_child bound) where
    -- No operation on the root's key.
    pub gap_works :
        (l r : Shape) (k v : Bytes) (sl sr : Slot) (i : ℕ) (batch first second : Batch)
        (es : Entries)
        → Holds fetch l sl
        → Holds fetch r sr
        → Ready (suc bound) (fork l k v r) batch es
        → batch ≡ first ++ second
        → take i batch ≡ first
        → drop i batch ≡ second
        → IsBelow first k
        → IsAbove second k
        → Applies fetch (recurse n apply_child fetch (node sl sr (pair k v)) batch (missing i)) es
    unfolding contents
    gap_works l r k v sl sr i batch first second es hl hr ready whole is_first is_second low high =
        let (al, below, above, ar) =
          IsAscending-middle (contents l) (k, v) (contents r) ready.ordered in
        let (sorted1, sorted2) = IsAscending-append first second (rw whole at ready.sorted) in
        let (fits1, fits2) = All-split Fits first second (rw whole at ready.fits) in
        let size : length batch ≡ length first + length second =
          ap length whole ∙ length-append first second in
        let parts = length-contents l r k v in
        let (xs, ys, u1, u2, same) =
          split_missing first second (contents l) (contents r) es k v low high below above
            (rw whole at ready.updates) in
        let (tilt_l, tilt_r, avl_l, avl_r) = ready.avl in
        let (ready_l, ready_r) =
          Ready-sides bound l r first second xs ys avl_l avl_r al ar sorted1 sorted2 fits1 fits2 u1
            u2 (omega (arith, ready.few, parts, size)) (omega (arith, ready.deep, size)) in
        rw same (
          recurse_works fetch apply_child bound works n fuel l r k v sl sr batch (missing i) first
            second xs ys is_first is_second hl hr ready_l ready_r
            (omega (arith, ready.few, parts, size)))

    -- The root's value is replaced.
    pub put_works :
        (l r : Shape) (k v v2 : Bytes) (sl sr : Slot) (i : ℕ) (batch first second : Batch)
        (es : Entries)
        → Holds fetch l sl
        → Holds fetch r sr
        → Ready (suc bound) (fork l k v r) batch es
        → batch ≡ first ++ ((k, put v2) ∷ second)
        → take i batch ≡ first
        → drop (suc i) batch ≡ second
        → IsBelow first k
        → IsAbove second k
        → Applies fetch (recurse n apply_child fetch (node sl sr (pair k v2)) batch (found i)) es
    unfolding contents
    put_works l r k v v2 sl sr i batch first second es hl hr ready whole is_first is_second low
          high =
        let (al, below, above, ar) =
          IsAscending-middle (contents l) (k, v) (contents r) ready.ordered in
        let (sorted1, under, over, sorted2) =
          IsAscending-middle first (k, put v2) second (rw whole at ready.sorted) in
        let (fits1, fits_rest) =
          All-split Fits first ((k, put v2) ∷ second) (rw whole at ready.fits) in
        let (fit, fits2) = fits_rest in
        let size : length batch ≡ length first + suc (length second) =
          ap length whole ∙ length-append first ((k, put v2) ∷ second) in
        let parts = length-contents l r k v in
        let (xs, ys, u1, u2, same) =
          split_put first second (contents l) (contents r) es k v v2 low high below above
            (rw whole at ready.updates) in
        let (tilt_l, tilt_r, avl_l, avl_r) = ready.avl in
        let (ready_l, ready_r) =
          Ready-sides bound l r first second xs ys avl_l avl_r al ar sorted1 sorted2 fits1 fits2 u1
            u2 (omega (arith, ready.few, parts, size)) (omega (arith, ready.deep, size)) in
        rw same (
          recurse_works fetch apply_child bound works n fuel l r k v2 sl sr batch (found i) first
            second xs ys is_first is_second hl hr ready_l ready_r
            (omega (arith, ready.few, parts, size)))

    delete_runs :
        (depth i : ℕ) (t : Tree) (batch first second : Batch) (o o1 o2 : Option Tree)
        (del1 del2 : List Bytes)
        → take i batch ≡ first
        → drop (suc i) batch ≡ second
        → remove n fetch depth t ≡ ok o
        → apply_child o first ≡ ok (o1, del1)
        → apply_child o1 second ≡ ok (o2, del2)
        → apply_entry n depth apply_child fetch t batch i delete
          ≡ ok (o2, del1 ++ (del2 ++ (Link.tree_key t ∷ [])))
    delete_runs depth i t batch first second o o1 o2 del1 del2 is_first is_second e1 e2 e3 =
        rw (is_first, is_second, e1, e2, e3)

    -- The root is removed; the operations on lower and on higher keys follow.
    pub delete_works :
        (depth : ℕ) (l r : Shape) (k v : Bytes) (sl sr : Slot) (i : ℕ) (batch first second : Batch)
        (es : Entries)
        → Holds fetch l sl
        → Holds fetch r sr
        → Ready (suc bound) (fork l k v r) batch es
        → bound ≤ depth
        → batch ≡ first ++ ((k, delete) ∷ second)
        → take i batch ≡ first
        → drop (suc i) batch ≡ second
        → IsBelow first k
        → IsAbove second k
        → Applies fetch
            (apply_entry n depth apply_child fetch (node sl sr (pair k v)) batch i delete)
            es
    unfolding contents
    delete_works depth l r k v sl sr i batch first second es hl hr ready deep whole is_first
          is_second low high =
        let (al, below, above, ar) =
          IsAscending-middle (contents l) (k, v) (contents r) ready.ordered in
        let (sorted1, under, over, sorted2) =
          IsAscending-middle first (k, delete) second (rw whole at ready.sorted) in
        let (fits1, fits_rest) =
          All-split Fits first ((k, delete) ∷ second) (rw whole at ready.fits) in
        let (fit, fits2) = fits_rest in
        let size : length batch ≡ length first + suc (length second) =
          ap length whole ∙ length-append first ((k, delete) ∷ second) in
        let parts = length-contents l r k v in
        let (zs, u1, u2) =
          split_delete first second (contents l) (contents r) es k v low high below above
            (rw whole at ready.updates) in
        let (tilt_l, tilt_r, avl_l, avl_r) = ready.avl in
        let (s, o, e, stands, avl, same) =
          remove-contents fetch n fuel depth l r k v sl sr avl_l avl_r hl hr
            (omega (arith, ready.deep)) (omega (arith, ready.deep)) (omega (arith, ready.few)) in
        let start : update first (contents s) ≡ some zs = rw same u1 in
        let kept : length (contents s) ≡ length (contents l) + length (contents r) =
          ap length same ∙ length-append (contents l) (contents r) in
        let ready1 : Ready bound s first zs = record {
          avl = avl;
          ordered = rw same (IsAscending-skip (contents l) (k, v) (contents r) ready.ordered);
          sorted = sorted1;
          fits = fits1;
          updates = start;
          few = omega (arith, kept, ready.few, size, parts);
          deep =
              omega
                (arith, low_enough s avl (omega (arith, kept, ready.few, parts)), ready.deep, size);
        } in
        elim (works s o first zs stands ready1) [
          | applies s1 o1 del1 e1 stands1 avl1 same1 ↦
              let grown = length-update first (contents s) zs start in
              let ready2 : Ready bound s1 second es = record {
                avl = avl1;
                ordered = rw same1 (update-IsAscending first (contents s) zs ready1.ordered start);
                sorted = sorted2;
                fits = fits2;
                updates = rw same1 u2;
                few = omega (arith, ap length same1, grown, kept, ready.few, size, parts);
                deep = omega (
                  arith,
                  low_enough s1 avl1
                      (omega (arith, ap length same1, grown, kept, ready.few, size, parts)),
                  ready.deep,
                  size,
                );
              } in
              elim (works s1 o1 second es stands1 ready2) [
                | applies s2 o2 del2 e2 stands2 avl2 same2 ↦
                    applies s2 o2 _
                      (delete_runs depth i (node sl sr (pair k v)) batch first second o o1 o2 del1
                        del2 is_first is_second e e1 e2)
                      stands2 avl2 same2
              ]
        ]
