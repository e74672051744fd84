-- ===== src/Tree/Ops/Apply/Reported.antt =====
-- The keys that `apply_to` (src/tree/ops.rs) reports are those that its batch deletes.
use liftedmerk.Base.{
  ℕ, zero, suc, ◌≡◌, ◌⊎◌, ◌↔◌, ◌∷◌, ◌++◌, [], sym, ap, List, Bytes, Option, none, some, Result, ok,
  >>=-eq-ok, All, take, drop, inl, inr,
}
use liftedmerk.Tree.Hash.{Hasher}
use liftedmerk.Tree.Types.{Tree}
use liftedmerk.Tree.Link
use liftedmerk.Tree.Node
use liftedmerk.Tree.Walk.{Fetch}
use liftedmerk.Tree.Search.{Search, found, missing, binary_search}
use liftedmerk.Tree.Ops.{
  Op, put, delete, Batch, Applied, panic_source, remove, build, apply_entry, apply_found, apply,
  apply_to,
}
use liftedmerk.Tree.Ops.Update.Gone.{Deletes}
use liftedmerk.Tree.Ops.Update.Cuts.{
  IsAscending, IsAscending-append, IsAscending-middle, Cut, hit, gap, binary_search-Cut,
}
use liftedmerk.Tree.Ops.Apply.Deleted.{apply_to-Deletes}
use liftedmerk.Tree.Ops.Apply.Removed.{
  IsAmong, IsAmong-append, Deletes-split, OnlyPuts, build_puts, IsComplete, recurse-IsAmong,
}

All-IsAmong : (P : Bytes → Type 0) (ks : List Bytes) (q : Bytes) → All P ks → IsAmong ks q → P q
All-IsAmong P [] q a among = absurd among
All-IsAmong P (k ∷ ks) q (p, a) (inl same) = rw same p
All-IsAmong P (k ∷ ks) q (p, a) (inr later) = All-IsAmong P ks q a later

-- What three parts of a deletion report.
three_parts :
    (del1 del2 : List Bytes) (k q : Bytes)
    → IsAmong del1 q ⊎ (IsAmong del2 q ⊎ (q ≡ k))
    → IsAmong (del1 ++ (del2 ++ (k ∷ []))) q
three_parts del1 del2 k q (inl a) = IsAmong-append del1 (del2 ++ (k ∷ [])) q (inl a)
three_parts del1 del2 k q (inr (inl a)) =
    IsAmong-append del1 (del2 ++ (k ∷ [])) q (inr (IsAmong-append del2 (k ∷ []) q (inl a)))
three_parts del1 del2 k q (inr (inr same)) =
    IsAmong-append del1 (del2 ++ (k ∷ [])) q (inr (IsAmong-append del2 (k ∷ []) q (inr (inl same))))

not_the_put :
    (k q v : Bytes) (first second : Batch)
    → Deletes (first ++ ((k, put v) ∷ second)) q
    → Deletes first q ⊎ Deletes second q
not_the_put k q v first second d = elim (Deletes-split first ((k, put v) ∷ second) q d) [
  | inl low ↦ inl low
  | inr (inl here) ↦ cc (here.1)
  | inr (inr high) ↦ inr high
]

module _ ⦃h : Hasher⦄ (n : ℕ) (fetch : Fetch) (depth : ℕ)
    (apply_child : Option Tree → Batch → Result Applied) (complete : IsComplete apply_child) where
  apply_entry-IsAmong :
      (t : Tree) (batch first second : Batch) (i : ℕ) (op : Op) (o' : Option Tree)
      (deleted : List Bytes) (q : Bytes)
      → batch ≡ first ++ ((Link.tree_key t, op) ∷ second)
      → take i batch ≡ first
      → drop (suc i) batch ≡ second
      → IsAscending batch
      → apply_entry n depth apply_child fetch t batch i op ≡ ok (o', deleted)
      → Deletes batch q
      → IsAmong deleted q
  apply_entry-IsAmong t batch first second i (put v) o' deleted q whole is_first is_second sorted
        done d =
      let (sorted1, low, high, sorted2) =
        IsAscending-middle first (Link.tree_key t, put v) second (rw whole at sorted) in
      let (t', e1, f1) = >>=-eq-ok (Node.with_value t v) _ done in
      recurse-IsAmong apply_child complete n fetch t' batch first second (found i) o' deleted q
        is_first is_second sorted1 sorted2 f1
        (not_the_put (Link.tree_key t) q v first second (rw whole at d))
  apply_entry-IsAmong t batch first second i delete o' deleted q whole is_first is_second sorted
        done d =
      let (sorted1, low, high, sorted2) =
        IsAscending-middle first (Link.tree_key t, delete) second (rw whole at sorted) in
      let (o1, e1, f1) = >>=-eq-ok (remove n fetch depth t) _ done in
      let ((o2, del1), e2, f2) = >>=-eq-ok (apply_child o1 (take i batch)) _ f1 in
      let ((o3, del2), e3, f3) = >>=-eq-ok (apply_child o2 (drop (suc i) batch)) _ f2 in
      let same : ◌≡◌ {A = Applied} (o3, del1 ++ (del2 ++ (Link.tree_key t ∷ []))) (o', deleted) =
        cc f3 in
      let low_done = rw is_first at e2 in
      let high_done = rw is_second at e3 in
      rw (sym (ap (λ x. x.1) same)) (
        three_parts del1 del2 (Link.tree_key t) q
          (elim (Deletes-split first ((Link.tree_key t, delete) ∷ second) q (rw whole at d)) [
            | inl lower ↦ inl (complete o1 first o2 del1 q sorted1 low_done lower)
            | inr (inl here) ↦ inr (inr here.0)
            | inr (inr higher) ↦ inr (inl (complete o2 second o3 del2 q sorted2 high_done higher))
          ]))

  apply_found-IsAmong :
      (t : Tree) (batch : Batch) (search : Search) (o' : Option Tree) (deleted : List Bytes)
      (q : Bytes)
      → Cut (Link.tree_key t) batch search
      → IsAscending batch
      → apply_found n depth apply_child fetch t batch search ≡ ok (o', deleted)
      → Deletes batch q
      → IsAmong deleted q
  apply_found-IsAmong t batch search o' deleted q
        (gap i first second whole is_first is_second low high) sorted done d =
      let (sorted1, sorted2) = IsAscending-append first second (rw whole at sorted) in
      recurse-IsAmong apply_child complete n fetch t batch first second (missing i) o' deleted q
        is_first is_second sorted1 sorted2 done (Deletes-split first second q (rw whole at d))
  apply_found-IsAmong t batch search o' deleted q
        (hit i first second op whole is_first is_second here low high) sorted done d =
      apply_entry-IsAmong t batch first second i op o' deleted q whole is_first is_second sorted
        (rw here at done) d

module _ ⦃h : Hasher⦄ (n : ℕ) where
  apply_to-OnlyPuts : (depth : ℕ) (fetch : Fetch) → OnlyPuts (apply_to n depth fetch)
  unfolding apply_to
  apply_to-OnlyPuts depth fetch [] o' deleted q done d = d
  apply_to-OnlyPuts zero fetch (b ∷ batch) o' deleted q done d = cc done
  apply_to-OnlyPuts (suc depth) fetch (b ∷ batch) o' deleted q done d =
      let (built, e1, f1) =
        >>=-eq-ok (build n (apply_to n depth panic_source) (b ∷ batch)) _ done in
      build_puts (apply_to n depth panic_source) (apply_to-OnlyPuts depth panic_source) n b batch
        built q e1 d

  apply_to-IsComplete : (depth : ℕ) (fetch : Fetch) → IsComplete (apply_to n depth fetch)
  unfolding apply_to apply
  apply_to-IsComplete depth fetch o [] o' deleted q sorted done d = absurd d
  apply_to-IsComplete zero fetch o (b ∷ batch) o' deleted q sorted done d = cc done
  apply_to-IsComplete (suc depth) fetch none (b ∷ batch) o' deleted q sorted done d =
      absurd (apply_to-OnlyPuts (suc depth) fetch (b ∷ batch) o' deleted q done d)
  apply_to-IsComplete (suc depth) fetch (some t) (b ∷ batch) o' deleted q sorted done d =
      apply_found-IsAmong n fetch depth (apply_to n depth fetch) (apply_to-IsComplete depth fetch) t
        (b ∷ batch) (binary_search (λ entry. entry.0) (b ∷ batch) (Link.tree_key t)) o' deleted q
        (binary_search-Cut (Link.tree_key t) (b ∷ batch) sorted) sorted done d

  -- If `apply_to` succeeds on a sorted batch, then a key is among those that it reports as deleted
  -- exactly if the batch deletes it.
  pub apply_to-IsAmong :
      (depth : ℕ) (fetch : Fetch) (o : Option Tree) (batch : Batch) (o' : Option Tree)
      (deleted : List Bytes) (q : Bytes)
      → IsAscending batch
      → apply_to n depth fetch o batch ≡ ok (o', deleted)
      → IsAmong deleted q ↔ Deletes batch q
  apply_to-IsAmong depth fetch o batch o' deleted q sorted done = (
    All-IsAmong (Deletes batch) deleted q
        (apply_to-Deletes n depth fetch o batch o' deleted sorted done),
    apply_to-IsComplete depth fetch o batch o' deleted q sorted done,
  )
