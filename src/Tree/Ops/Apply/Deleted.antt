-- ===== src/Tree/Ops/Apply/Deleted.antt =====
-- The keys that `apply_to` (src/tree/ops.rs) reports as deleted.
use liftedmerk.Base.{
  ℕ, zero, suc, ◌≡◌, ◌⊎◌, ◌∷◌, ◌++◌, [], refl, sym, ap, List, Bytes, Bool, true, false, Option,
  none, some, Result, ok, >>=-eq-ok, All, take, drop, inl, inr,
}
use liftedmerk.Tree.Hash.{Hasher}
use liftedmerk.Tree.Types.{Tree}
use liftedmerk.Tree.Link
use liftedmerk.Tree.Node
use liftedmerk.Tree.Walk.{Fetch, detach}
use liftedmerk.Tree.Search.{Search, found, missing, before, behind, binary_search}
use liftedmerk.Tree.Search.Sorted.{All-imp}
use liftedmerk.Tree.Ops.{
  Op, put, delete, Batch, Applied, panic_source, walk_apply, recurse, remove, maybe_balance, build,
  apply_entry, apply_found, apply, apply_to,
}
use liftedmerk.Tree.Ops.Update.Gone.{Deletes}
use liftedmerk.Tree.Ops.Update.Split.{All-append}
use liftedmerk.Tree.Ops.Update.Cuts.{
  IsAscending, IsAscending-append, IsAscending-middle, Cut, hit, gap, binary_search-Cut,
}

Deletes-append :
    (first second : Batch) (q : Bytes)
    → Deletes first q ⊎ Deletes second q
    → Deletes (first ++ second) q
Deletes-append [] second q (inl d) = absurd d
Deletes-append [] second q (inr d) = d
Deletes-append (b ∷ first) second q (inl (inl here)) = inl here
Deletes-append (b ∷ first) second q (inl (inr later)) =
    inr (Deletes-append first second q (inl later))
Deletes-append (b ∷ first) second q (inr d) = inr (Deletes-append first second q (inr d))

-- Keys that a part of a batch deletes.
from_first :
    (first second : Batch) (qs : List Bytes)
    → All (Deletes first) qs
    → All (Deletes (first ++ second)) qs
from_first first second qs a =
    All-imp (Deletes first) (Deletes (first ++ second))
      (λ q d. Deletes-append first second q (inl d)) qs a

from_second :
    (first second : Batch) (qs : List Bytes)
    → All (Deletes second) qs
    → All (Deletes (first ++ second)) qs
from_second first second qs a =
    All-imp (Deletes second) (Deletes (first ++ second))
      (λ q d. Deletes-append first second q (inr d)) qs a

from_rest :
    (b : Bytes × Op) (batch : Batch) (qs : List Bytes)
    → All (Deletes batch) qs
    → All (Deletes (b ∷ batch)) qs
from_rest b batch qs a = All-imp (Deletes batch) (Deletes (b ∷ batch)) (λ q d. inr d) qs a

abbrev pub Reports : (Option Tree → Batch → Result Applied) → Type 0
Reports apply_child =
    (o : Option Tree) (batch : Batch) (o' : Option Tree) (deleted : List Bytes)
    → IsAscending batch
    → apply_child o batch ≡ ok (o', deleted)
    → All (Deletes batch) deleted

module _ (apply_child : Option Tree → Batch → Result Applied) (reports : Reports apply_child) where
  walk_apply-Deletes :
      (fetch : Fetch) (t t' : Tree) (left : Bool) (batch : Batch) (deleted : List Bytes)
      → IsAscending batch
      → walk_apply apply_child fetch t left batch ≡ ok (t', deleted)
      → All (Deletes batch) deleted
  unfolding walk_apply
  walk_apply-Deletes fetch t t' left [] deleted sorted done =
      let same : ◌≡◌ {A = Tree × List Bytes} (t, []) (t', deleted) = cc done in
      rw (sym (ap (λ x. x.1) same)) tt
  walk_apply-Deletes fetch t t' left (b ∷ batch) deleted sorted done =
      let ((rest, maybe_child), e1, f1) = >>=-eq-ok (detach fetch t left) _ done in
      let ((new_child, deleted_keys), e2, f2) =
        >>=-eq-ok (apply_child maybe_child (b ∷ batch)) _ f1 in
      let (t1, e3, f3) = >>=-eq-ok (Node.attach rest left new_child) _ f2 in
      let same : ◌≡◌ {A = Tree × List Bytes} (t1, deleted_keys) (t', deleted) = cc f3 in
      rw (sym (ap (λ x. x.1) same))
        (reports maybe_child (b ∷ batch) new_child deleted_keys sorted e2)

  recurse-Deletes :
      (n : ℕ) (fetch : Fetch) (t : Tree) (batch first second : Batch) (search : Search)
      (o' : Option Tree) (deleted : List Bytes)
      → before search batch ≡ first
      → behind search batch ≡ second
      → IsAscending first
      → IsAscending second
      → recurse n apply_child fetch t batch search ≡ ok (o', deleted)
      → (del1 : List Bytes) × (del2 : List Bytes) × (deleted ≡ del1 ++ del2)
        × All (Deletes first) del1
        × All (Deletes second) del2
  unfolding recurse
  recurse-Deletes n fetch t batch first second search o' deleted is_first is_second sorted1 sorted2
        done =
      let ((t1, del1), e1, f1) =
        >>=-eq-ok (walk_apply apply_child fetch t true first) _
          (rw (is_first, is_second) at done) in
      let ((t2, del2), e2, f2) = >>=-eq-ok (walk_apply apply_child fetch t1 false second) _ f1 in
      let (t3, e3, f3) = >>=-eq-ok (maybe_balance n fetch t2) _ f2 in
      let same : ◌≡◌ {A = Applied} (some t3, del1 ++ del2) (o', deleted) = cc f3 in
      (
        del1,
        del2,
        ap (λ x. x.1) (sym same),
        walk_apply-Deletes fetch t t1 true first del1 sorted1 e1,
        walk_apply-Deletes fetch t1 t2 false second del2 sorted2 e2,
      )

  -- The root is deleted, and what the calls for both sides report.
  deleted_both :
      (k : Bytes) (first second : Batch) (del1 del2 : List Bytes)
      → All (Deletes first) del1
      → All (Deletes second) del2
      → All (Deletes (first ++ ((k, delete) ∷ second))) (del1 ++ (del2 ++ (k ∷ [])))
  deleted_both k first second del1 del2 a1 a2 =
      All-append (Deletes (first ++ ((k, delete) ∷ second))) del1 (del2 ++ (k ∷ []))
        (from_first first ((k, delete) ∷ second) del1 a1)
        (from_second first ((k, delete) ∷ second) (del2 ++ (k ∷ [])) (
          All-append (Deletes ((k, delete) ∷ second)) del2 (k ∷ [])
            (from_rest (k, delete) second del2 a2) (inl (refl, refl), tt)))

  module _ ⦃h : Hasher⦄ (n : ℕ) (fetch : Fetch) (depth : ℕ) where
    apply_entry-Deletes :
        (t : Tree) (batch first second : Batch) (i : ℕ) (op : Op) (o' : Option Tree)
        (deleted : List Bytes)
        → batch ≡ first ++ ((Link.tree_key t, op) ∷ second)
        → take i batch ≡ first
        → drop (suc i) batch ≡ second
        → IsAscending batch
        → apply_entry n depth apply_child fetch t batch i op ≡ ok (o', deleted)
        → All (Deletes batch) deleted
    apply_entry-Deletes t batch first second i (put v) o' deleted whole is_first is_second sorted
          done =
        let (sorted1, low, high, sorted2) =
          IsAscending-middle first (Link.tree_key t, put v) second (rw whole at sorted) in
        let (t', e1, f1) = >>=-eq-ok (Node.with_value t v) _ done in
        let (del1, del2, both, a1, a2) =
          recurse-Deletes n fetch t' batch first second (found i) o' deleted is_first is_second
            sorted1 sorted2 f1 in
        rw (whole, both)
          (All-append (Deletes (first ++ ((Link.tree_key t, put v) ∷ second))) del1 del2
            (from_first first ((Link.tree_key t, put v) ∷ second) del1 a1)
            (from_second first ((Link.tree_key t, put v) ∷ second) del2
              (from_rest (Link.tree_key t, put v) second del2 a2)))
    apply_entry-Deletes t batch first second i delete o' deleted whole is_first is_second sorted
          done =
        let (sorted1, low, high, sorted2) =
          IsAscending-middle first (Link.tree_key t, delete) second (rw whole at sorted) in
        let (o1, e1, f1) = >>=-eq-ok (remove n fetch depth t) _ done in
        let ((o2, del1), e2, f2) = >>=-eq-ok (apply_child o1 (take i batch)) _ f1 in
        let ((o3, del2), e3, f3) = >>=-eq-ok (apply_child o2 (drop (suc i) batch)) _ f2 in
        let same : ◌≡◌ {A = Applied} (o3, del1 ++ (del2 ++ (Link.tree_key t ∷ []))) (o', deleted) =
          cc f3 in
        rw (whole, sym (ap (λ x. x.1) same))
          (deleted_both (Link.tree_key t) first second del1 del2
            (reports o1 first o2 del1 sorted1 (rw is_first at e2))
            (reports o2 second o3 del2 sorted2 (rw is_second at e3)))

    apply_found-Deletes :
        (t : Tree) (batch : Batch) (search : Search) (o' : Option Tree) (deleted : List Bytes)
        → Cut (Link.tree_key t) batch search
        → IsAscending batch
        → apply_found n depth apply_child fetch t batch search ≡ ok (o', deleted)
        → All (Deletes batch) deleted
    apply_found-Deletes t batch search o' deleted
          (gap i first second whole is_first is_second low high) sorted done =
        let (sorted1, sorted2) = IsAscending-append first second (rw whole at sorted) in
        let (del1, del2, both, a1, a2) =
          recurse-Deletes n fetch t batch first second (missing i) o' deleted is_first is_second
            sorted1 sorted2 done in
        rw (whole, both)
          (All-append (Deletes (first ++ second)) del1 del2 (from_first first second del1 a1)
            (from_second first second del2 a2))
    apply_found-Deletes t batch search o' deleted
          (hit i first second op whole is_first is_second here low high) sorted done =
        apply_entry-Deletes t batch first second i op o' deleted whole is_first is_second sorted
          (rw here at done)

module _ ⦃h : Hasher⦄ (n : ℕ) where
  pub apply_to-Deletes : (depth : ℕ) (fetch : Fetch) → Reports (apply_to n depth fetch)
  unfolding apply_to apply
  apply_to-Deletes depth fetch o [] o' deleted sorted done =
      let same : ◌≡◌ {A = Applied} (o, []) (o', deleted) = cc done in
      rw (sym (ap (λ x. x.1) same)) tt
  apply_to-Deletes zero fetch o (b ∷ batch) o' deleted sorted done = cc done
  apply_to-Deletes (suc depth) fetch none (b ∷ batch) o' deleted sorted done =
      let (built, e1, f1) =
        >>=-eq-ok (build n (apply_to n depth panic_source) (b ∷ batch)) _ done in
      let same : ◌≡◌ {A = Applied} (built, []) (o', deleted) = cc f1 in
      rw (sym (ap (λ x. x.1) same)) tt
  apply_to-Deletes (suc depth) fetch (some t) (b ∷ batch) o' deleted sorted done =
      apply_found-Deletes (apply_to n depth fetch) (apply_to-Deletes depth fetch) n fetch depth t
        (b ∷ batch) (binary_search (λ entry. entry.0) (b ∷ batch) (Link.tree_key t)) o' deleted
        (binary_search-Cut (Link.tree_key t) (b ∷ batch) sorted) sorted done
