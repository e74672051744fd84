-- ===== src/Tree/Ops/Applied.antt =====
-- The parts of `apply_to` (src/tree/ops.rs), given that it works on a smaller problem: `walk_apply` on
-- a side of a node, and `recurse` on both.
use liftedmerk.Base.{
  ℕ, suc, ◌+◌, ◌*◌, ◌≡◌, ◌≤◌, ◌<◌, ◌∷◌, ◌++◌, [], ◌∙◌, refl, sym, ap, List, Bytes, Bool, true,
  false, Option, some, Result, ok, All, length, arith,
}
use liftedmerk.Tree.Hash.{Hasher}
use liftedmerk.Tree.Types.{Tree, node, Slot, vacant}
use liftedmerk.Tree.Node
use liftedmerk.Tree.Walk.{Fetch, detach}
use liftedmerk.Tree.Search.{Search, before, behind}
use liftedmerk.Tree.Slots.{link-set_slot, set_slot-set_slot, set_slot-link}
use liftedmerk.Tree.Shape.{Shape, fork, height}
use liftedmerk.Tree.Ops.{Op, put, delete, Batch, Applied, maybe_balance, walk_apply, recurse}
use liftedmerk.Tree.Ops.Avl.{IsAvl}
use liftedmerk.Tree.Ops.Contents.{contents}
use liftedmerk.Tree.Ops.Holds.{pair, Holds, StandsMaybe, detach-Holds, attach-Holds}
use liftedmerk.Tree.Ops.Refines.{some-Stands}
use liftedmerk.Tree.Ops.Rebalance.{limit, length-contents, low_enough, rebalance}
use liftedmerk.Tree.Ops.Update.{Entries, update}
use liftedmerk.Tree.Ops.Update.Steps.{length-update}
use liftedmerk.Tree.Ops.Update.Cuts.{IsAscending}

-- The lengths that `kv_hash` does not panic at.
abbrev pub Fits : Bytes × Op → Type 0
Fits (k, put v) = (length k < 256) × (length v < 65536)
Fits (k, delete) = Unit {0}

-- What `apply_to` is called with, for calls of less than this depth.
pub record Ready (bound : ℕ) (s : Shape) (batch : Batch) (es : Entries) : Type 0 where
  pub avl : IsAvl s
  pub ordered : IsAscending (contents s)
  pub sorted : IsAscending batch
  pub fits : All Fits batch
  pub updates : update batch (contents s) ≡ some es
  pub few : length (contents s) + length batch < limit
  pub deep : height s + 128 * length batch < bound

module _ ⦃h : Hasher⦄ where
  -- The function succeeds, and what it leaves stands for a balanced tree with these entries.
  pub data Applies (fetch : Fetch) (result : Result Applied) (es : Entries) : Type 0 where
    applies :
        (s : Shape) (o : Option Tree) (deleted : List Bytes)
        → result ≡ ok (o, deleted)
        → StandsMaybe fetch s o
        → IsAvl s
        → contents s ≡ es
        → Applies fetch result es

  abbrev pub Works : Fetch → (Option Tree → Batch → Result Applied) → ℕ → Type 0
  Works fetch apply_child bound =
      (s : Shape) (o : Option Tree) (batch : Batch) (es : Entries)
      → StandsMaybe fetch s o
      → Ready bound s batch es
      → Applies fetch (apply_child o batch) es

  pub data Walked (fetch : Fetch) (t : Tree) (left : Bool) (result : Result (Tree × List Bytes))
      (es : Entries) : Type 0 where
    walked :
        (s : Shape) (slot : Slot) (deleted : List Bytes)
        → result ≡ ok (Node.set_slot t left slot, deleted)
        → Holds fetch s slot
        → IsAvl s
        → contents s ≡ es
        → Walked fetch t left result es

  module _ (fetch : Fetch) (apply_child : Option Tree → Batch → Result Applied) (bound : ℕ)
      (works : Works fetch apply_child bound) where
    walk_runs :
        (t t1 : Tree) (left : Bool) (b : Bytes × Op) (batch : Batch) (o o1 : Option Tree)
        (deleted : List Bytes)
        → detach fetch t left ≡ ok (Node.set_slot t left vacant, o)
        → apply_child o (b ∷ batch) ≡ ok (o1, deleted)
        → Node.attach (Node.set_slot t left vacant) left o1 ≡ ok t1
        → walk_apply apply_child fetch t left (b ∷ batch) ≡ ok (t1, deleted)
    unfolding walk_apply
    walk_runs t t1 left b batch o o1 deleted e1 e2 e3 = rw (e1, e2, e3)

    -- Attaching what the operations left.
    attached :
        (t : Tree) (left : Bool) (b : Bytes × Op) (batch : Batch) (o : Option Tree) (es : Entries)
        → detach fetch t left ≡ ok (Node.set_slot t left vacant, o)
        → length es < limit
        → Applies fetch (apply_child o (b ∷ batch)) es
        → Walked fetch t left (walk_apply apply_child fetch t left (b ∷ batch)) es
    attached t left b batch o es e few (applies s o1 deleted e1 stands avl same) =
        let low = low_enough s avl (rw same few) in
        let (slot, e2, held) =
          attach-Holds fetch s (Node.set_slot t left vacant) left o1 (link-set_slot t left vacant)
            stands (omega (arith, low)) in
        let at_once = set_slot-set_slot t left vacant slot in
        walked s slot deleted
          (walk_runs t (Node.set_slot t left slot) left b batch o o1 deleted e e1
            (e2 ∙ ap ok at_once))
          held avl same

    pub walk_works :
        (s : Shape) (t : Tree) (left : Bool) (batch : Batch) (es : Entries)
        → Holds fetch s (Node.link t left)
        → Ready bound s batch es
        → Walked fetch t left (walk_apply apply_child fetch t left batch) es
    unfolding walk_apply update
    walk_works s t left [] es held ready =
        let same : contents s ≡ es = cc (ready.updates) in
        walked s (Node.link t left) [] (ap (λ x. ok (x, [])) (sym (set_slot-link t left))) held
          ready.avl same
    walk_works s t left (b ∷ batch) es held ready =
        let (o, e, stands) = detach-Holds fetch s t left held in
        attached t left b batch o es e
          (omega (arith, length-update (b ∷ batch) (contents s) es ready.updates, ready.few))
          (works s o (b ∷ batch) es stands ready)

    recurse_runs :
        (n : ℕ) (t t1 t2 t3 : Tree) (batch : Batch) (cut_at : Search) (first second : Batch)
        (del1 del2 : List Bytes)
        → before cut_at batch ≡ first
        → behind cut_at batch ≡ second
        → walk_apply apply_child fetch t true first ≡ ok (t1, del1)
        → walk_apply apply_child fetch t1 false second ≡ ok (t2, del2)
        → maybe_balance n fetch t2 ≡ ok t3
        → recurse n apply_child fetch t batch cut_at ≡ ok (some t3, del1 ++ del2)
    unfolding recurse
    recurse_runs n t t1 t2 t3 batch cut_at first second del1 del2 is_first is_second e1 e2 e3 =
        rw (is_first, is_second, e1, e2, e3)

    balanced :
        (n : ℕ) (fuel : 386 ≤ n) (t : Tree) (k v : Bytes) (sl sr : Slot) (l1 r1 : Shape)
        (result : Result Applied) (deleted : List Bytes) (xs ys : Entries)
        → ((t3 : Tree)
            → maybe_balance n fetch (node sl sr (pair k v)) ≡ ok t3
            → result ≡ ok (some t3, deleted))
        → Holds fetch l1 sl
        → Holds fetch r1 sr
        → IsAvl l1
        → IsAvl r1
        → contents l1 ≡ xs
        → contents r1 ≡ ys
        → length xs + suc (length ys) < limit
        → Applies fetch result (xs ++ ((k, v) ∷ ys))
    unfolding contents
    balanced n fuel t k v sl sr l1 r1 result deleted xs ys runs hl hr al ar same_l same_r few =
        let size : length (contents (fork l1 k v r1)) < limit =
          rw (length-contents l1 r1 k v, same_l, same_r) few in
        let (s', t3, e, stands, avl, same) =
          rebalance fetch n l1 r1 k v sl sr fuel al ar size hl hr in
        applies s' (some t3) deleted (runs t3 e) (some-Stands fetch s' t3 stands) avl
          (same ∙ (rw (same_l, same_r) refl))

    -- Both sides, and balancing.
    pub recurse_works :
        (n : ℕ) (fuel : 386 ≤ n) (l r : Shape) (k v : Bytes) (sl sr : Slot) (batch : Batch)
        (cut_at : Search) (first second : Batch) (xs ys : Entries)
        → before cut_at batch ≡ first
        → behind cut_at batch ≡ second
        → Holds fetch l sl
        → Holds fetch r sr
        → Ready bound l first xs
        → Ready bound r second ys
        → length (contents l) + length first + suc (length (contents r) + length second) < limit
        → Applies fetch
            (recurse n apply_child fetch (node sl sr (pair k v)) batch cut_at)
            (xs ++ ((k, v) ∷ ys))
    unfolding Node.link Node.set_slot
    recurse_works n fuel l r k v sl sr batch cut_at first second xs ys is_first is_second hl hr
          ready_l ready_r few =
        elim (walk_works l (node sl sr (pair k v)) true first xs hl ready_l) [
          | walked l1 sl1 del1 e1 hl1 al1 same_l ↦
              elim (walk_works r (node sl1 sr (pair k v)) false second ys hr ready_r) [
                | walked r1 sr1 del2 e2 hr1 ar1 same_r ↦
                    balanced n fuel (node sl sr (pair k v)) k v sl1 sr1 l1 r1 _ (del1 ++ del2) xs ys
                      (λ t3 e3.
                        recurse_runs n _ _ _ t3 batch cut_at first second del1 del2 is_first
                          is_second e1 e2 e3)
                      hl1 hr1 al1 ar1 same_l same_r
                      (omega (
                        arith,
                        length-update first (contents l) xs ready_l.updates,
                        length-update second (contents r) ys ready_r.updates,
                        few,
                      ))
              ]
        ]
