-- ===== src/Tree/Ops/Apply/Removed.antt =====
-- Every key that a batch deletes is reported by `apply_to` (src/tree/ops.rs) when it succeeds.
use liftedmerk.Base.{
  ℕ, suc, ◌/◌, ◌≡◌, ◌⊎◌, ◌∷◌, ◌++◌, [], sym, ap, List, Bytes, Bool, true, false, Option, none, some,
  Result, ok, >>=-eq-ok, take, drop, length, inl, inr, arith,
}
use liftedmerk.Tree.Hash.{Hasher}
use liftedmerk.Tree.Types.{Kv, Tree, node, Slot, vacant}
use liftedmerk.Tree.Kv
use liftedmerk.Tree.Node
use liftedmerk.Tree.Walk.{Fetch, detach}
use liftedmerk.Tree.Search.{Search, found, before, behind}
use liftedmerk.Tree.Ops.{
  Op, put, delete, Batch, Applied, panic_source, walk_apply, recurse, maybe_balance, build_entry,
  build,
}
use liftedmerk.Tree.Ops.Update.Gone.{Deletes}
use liftedmerk.Tree.Ops.Update.Cuts.{IsAscending, around, look-Around}

abbrev pub IsAmong : List Bytes → Bytes → Type 0
IsAmong [] q = ⊥
IsAmong (k ∷ ks) q = (q ≡ k) ⊎ IsAmong ks q

pub IsAmong-append :
    (ks js : List Bytes) (q : Bytes) → IsAmong ks q ⊎ IsAmong js q → IsAmong (ks ++ js) q
IsAmong-append [] js q (inl a) = absurd a
IsAmong-append [] js q (inr b) = b
IsAmong-append (k ∷ ks) js q (inl (inl here)) = inl here
IsAmong-append (k ∷ ks) js q (inl (inr later)) = inr (IsAmong-append ks js q (inl later))
IsAmong-append (k ∷ ks) js q (inr b) = inr (IsAmong-append ks js q (inr b))

pub Deletes-split :
    (first second : Batch) (q : Bytes)
    → Deletes (first ++ second) q
    → Deletes first q ⊎ Deletes second q
Deletes-split [] second q d = inr d
Deletes-split (b ∷ first) second q (inl here) = inl (inl here)
Deletes-split (b ∷ first) second q (inr later) = elim (Deletes-split first second q later) [
  | inl d ↦ inl (inr d)
  | inr d ↦ inr d
]

-- What the calls of `walk_apply` in a `recurse` did.
recursed :
    (n : ℕ) (apply_child : Option Tree → Batch → Result Applied) (fetch : Fetch) (t : Tree)
    (batch : Batch) (search : Search) (o' : Option Tree) (deleted : List Bytes)
    → recurse n apply_child fetch t batch search ≡ ok (o', deleted)
    → (t1 : Tree) × (t2 : Tree) × (del1 : List Bytes) × (del2 : List Bytes) × (walk_apply
          apply_child fetch t true
          (before search batch)
        ≡ ok (t1, del1))
      × (walk_apply apply_child fetch t1 false (behind search batch) ≡ ok (t2, del2))
      × (deleted ≡ del1 ++ del2)
unfolding recurse
recursed n apply_child fetch t batch search o' deleted done =
    let ((t1, del1), e1, f1) =
      >>=-eq-ok (walk_apply apply_child fetch t true (before search batch)) _ done in
    let ((t2, del2), e2, f2) =
      >>=-eq-ok (walk_apply apply_child fetch t1 false (behind search batch)) _ f1 in
    let (t3, e3, f3) = >>=-eq-ok (maybe_balance n fetch t2) _ f2 in
    let same : ◌≡◌ {A = Applied} (some t3, del1 ++ del2) (o', deleted) = cc f3 in
    (t1, t2, del1, del2, e1, e2, ap (λ x. x.1) (sym same))

-- Without a tree, a batch that is applied deletes nothing.
abbrev pub OnlyPuts : (Option Tree → Batch → Result Applied) → Type 0
OnlyPuts apply_child =
    (batch : Batch) (o' : Option Tree) (deleted : List Bytes) (q : Bytes)
    → apply_child none batch ≡ ok (o', deleted)
    → ¬ Deletes batch q

module _ (apply_child : Option Tree → Batch → Result Applied)
    (only_puts : OnlyPuts apply_child) where
  -- A side of a new node.
  vacant_left :
      (fetch : Fetch) (slot : Slot) (kv : Kv) (t' : Tree) (batch : Batch) (deleted : List Bytes)
      (q : Bytes)
      → walk_apply apply_child fetch (node vacant slot kv) true batch ≡ ok (t', deleted)
      → (¬ Deletes batch q) × (slot' : Slot) × (t' ≡ node slot' slot kv)
  unfolding walk_apply detach Node.link Node.attach Node.set_slot
  vacant_left fetch slot kv t' [] deleted q done =
      let same : ◌≡◌ {A = Tree × List Bytes} (node vacant slot kv, []) (t', deleted) = cc done in
      (λ d. d, vacant, ap (λ x. x.0) (sym same))
  vacant_left fetch slot kv t' (b ∷ batch) deleted q done =
      let ((new_child, deleted_keys), e2, f2) = >>=-eq-ok (apply_child none (b ∷ batch)) _ done in
      let same : ◌≡◌ {A = Tree × List Bytes}
          (node (Node.maybe_from_modified_tree new_child) slot kv, deleted_keys) (t', deleted) =
        cc f2 in
      (only_puts (b ∷ batch) new_child deleted_keys q e2, _, ap (λ x. x.0) (sym same))

  vacant_right :
      (fetch : Fetch) (slot : Slot) (kv : Kv) (t' : Tree) (batch : Batch) (deleted : List Bytes)
      (q : Bytes)
      → walk_apply apply_child fetch (node slot vacant kv) false batch ≡ ok (t', deleted)
      → ¬ Deletes batch q
  unfolding walk_apply detach Node.link Node.attach Node.set_slot
  vacant_right fetch slot kv t' [] deleted q done = λ d. d
  vacant_right fetch slot kv t' (b ∷ batch) deleted q done =
      let ((new_child, deleted_keys), e2, f2) = >>=-eq-ok (apply_child none (b ∷ batch)) _ done in
      only_puts (b ∷ batch) new_child deleted_keys q e2

  module _ ⦃h : Hasher⦄ (n : ℕ) where
    build_entry_puts :
        (batch first second : Batch) (i : ℕ) (k : Bytes) (op : Op) (o : Option Tree) (q : Bytes)
        → batch ≡ first ++ ((k, op) ∷ second)
        → take i batch ≡ first
        → drop (suc i) batch ≡ second
        → build_entry n apply_child batch i (k, op) ≡ ok o
        → ¬ Deletes batch q
    unfolding Node.new
    build_entry_puts batch first second i k delete o q whole is_first is_second done d = cc done
    build_entry_puts batch first second i k (put v) o q whole is_first is_second done d =
        let (t, e1, f1) = >>=-eq-ok (Node.new k v) _ done in
        let (kv, e2, f2) = >>=-eq-ok (Kv.new k v) _ e1 in
        let is_t : node vacant vacant kv ≡ t = cc f2 in
        let ((o1, deleted), e3, f3) =
          >>=-eq-ok (recurse n apply_child panic_source t batch (found i)) _ f1 in
        let (t1, t2, del1, del2, walk_l, walk_r, both) =
          recursed n apply_child panic_source (node vacant vacant kv) batch (found i) o1 deleted
            (rw (← is_t) at e3) in
        let (none_left, slot, is_t1) =
          vacant_left panic_source vacant kv t1 first del1 q (rw is_first at walk_l) in
        let none_right =
          vacant_right panic_source slot kv t2 second del2 q (rw (is_second, is_t1) at walk_r) in
        elim (Deletes-split first ((k, put v) ∷ second) q (rw whole at d)) [
          | inl low ↦ none_left low
          | inr (inl here) ↦ cc (here.1)
          | inr (inr high) ↦ none_right high
        ]

    pub build_puts :
        (b : Bytes × Op) (batch : Batch) (o : Option Tree) (q : Bytes)
        → build n apply_child (b ∷ batch) ≡ ok o
        → ¬ Deletes (b ∷ batch) q
    unfolding build
    build_puts b batch o q done =
        elim (look-Around (b ∷ batch) (length (b ∷ batch) / 2) (omega arith)) [
          | around first second e whole is_first is_second here ↦
              build_entry_puts (b ∷ batch) first second (length (b ∷ batch) / 2) e.0 e.1 o q whole
                is_first is_second (rw here at done)
        ]

-- Every key that the batch deletes is reported.
abbrev pub IsComplete : (Option Tree → Batch → Result Applied) → Type 0
IsComplete apply_child =
    (o : Option Tree) (batch : Batch) (o' : Option Tree) (deleted : List Bytes) (q : Bytes)
    → IsAscending batch
    → apply_child o batch ≡ ok (o', deleted)
    → Deletes batch q
    → IsAmong deleted q

module _ (apply_child : Option Tree → Batch → Result Applied)
    (complete : IsComplete apply_child) where
  walk_apply-IsAmong :
      (fetch : Fetch) (t t' : Tree) (left : Bool) (batch : Batch) (deleted : List Bytes) (q : Bytes)
      → IsAscending batch
      → walk_apply apply_child fetch t left batch ≡ ok (t', deleted)
      → Deletes batch q
      → IsAmong deleted q
  unfolding walk_apply
  walk_apply-IsAmong fetch t t' left [] deleted q sorted done d = absurd d
  walk_apply-IsAmong fetch t t' left (b ∷ batch) deleted q sorted done d =
      let ((rest, maybe_child), e1, f1) = >>=-eq-ok (detach fetch t left) _ done in
      let ((new_child, deleted_keys), e2, f2) =
        >>=-eq-ok (apply_child maybe_child (b ∷ batch)) _ f1 in
      let (t1, e3, f3) = >>=-eq-ok (Node.attach rest left new_child) _ f2 in
      let same : ◌≡◌ {A = Tree × List Bytes} (t1, deleted_keys) (t', deleted) = cc f3 in
      rw (sym (ap (λ x. x.1) same))
        (complete maybe_child (b ∷ batch) new_child deleted_keys q sorted e2 d)

  pub recurse-IsAmong :
      (n : ℕ) (fetch : Fetch) (t : Tree) (batch first second : Batch) (search : Search)
      (o' : Option Tree) (deleted : List Bytes) (q : Bytes)
      → before search batch ≡ first
      → behind search batch ≡ second
      → IsAscending first
      → IsAscending second
      → recurse n apply_child fetch t batch search ≡ ok (o', deleted)
      → Deletes first q ⊎ Deletes second q
      → IsAmong deleted q
  recurse-IsAmong n fetch t batch first second search o' deleted q is_first is_second sorted1
        sorted2 done d =
      let (t1, t2, del1, del2, walk_l, walk_r, both) =
        recursed n apply_child fetch t batch search o' deleted done in
      let first_done = rw is_first at walk_l in
      let second_done = rw is_second at walk_r in
      rw both (
        IsAmong-append del1 del2 q (
          sides del1 del2 (walk_apply-IsAmong fetch t t1 true first del1 q sorted1 first_done)
            (walk_apply-IsAmong fetch t1 t2 false second del2 q sorted2 second_done) d))
    where
      sides :
          (del1 del2 : List Bytes)
          → (Deletes first q → IsAmong del1 q)
          → (Deletes second q → IsAmong del2 q)
          → Deletes first q ⊎ Deletes second q
          → IsAmong del1 q ⊎ IsAmong del2 q
      sides del1 del2 f g (inl low) = inl (f low)
      sides del1 del2 f g (inr high) = inr (g high)
