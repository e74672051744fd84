-- ===== src/Tree/Ops/Update/Cuts.antt =====
-- Cutting sorted batches and entries at a key (src/tree/ops.rs): by `binary_search_by`, and in the
-- middle.
use liftedmerk.Base.{
  ℕ, zero, suc, ◌≡◌, ◌<◌, ◌∷◌, ◌++◌, [], refl, ap, List, Bytes, some, cmp, cmp-cases, eq_of_cmp,
  lt_of_gt, cmp_trans, All, take, drop, get_elem?, length, arith, inl, inr,
}
use Prim.Native.Nat.Ordering.{lt}
use liftedmerk.Tree.Search.{Search, found, missing, shift, binary_search}
use liftedmerk.Tree.Search.Sorted.{All-imp}
use liftedmerk.Tree.Ops.{Op, Batch}
use liftedmerk.Tree.Ops.Update.{Entries, update, step, chain-some}
use liftedmerk.Tree.Ops.Update.Steps.{
  Stepped, appended, inserted, replaced, erased, passed, step-Stepped, Stepped-All,
}
use liftedmerk.Tree.Ops.Update.Split.{IsBelow, IsAbove, All-append}

-- Each key is lower than all behind it.
abbrev pub IsAscending : {A : Type 0} → List (Bytes × A) → Type 0
IsAscending [] = Unit {0}
IsAscending (e ∷ es) = IsAbove es e.0 × IsAscending es

pub All-split :
    {A : Type 0} (P : A → Type 0) (xs ys : List A) → All P (xs ++ ys) → All P xs × All P ys
All-split P [] ys a = (tt, a)
All-split P (x ∷ xs) ys (p, a) = let (b, c) = All-split P xs ys a in ((p, b), c)

module _ {A : Type 0} where
  pub IsAscending-append :
      (xs ys : List (Bytes × A)) → IsAscending (xs ++ ys) → IsAscending xs × IsAscending ys
  IsAscending-append [] ys a = (tt, a)
  IsAscending-append (x ∷ xs) ys (above, a) =
      let (b, c) = IsAscending-append xs ys a in
      let (d, f) = All-split (λ e. cmp x.0 e.0 ≡ lt) xs ys above in ((d, b), c)

  append-IsBelow :
      (xs : List (Bytes × A)) (e : Bytes × A) (ys : List (Bytes × A))
      → IsAscending (xs ++ (e ∷ ys))
      → IsBelow xs e.0
  append-IsBelow [] e ys a = tt
  append-IsBelow (x ∷ xs) e ys (above, a) =
      let (b, c) = All-split (λ y. cmp x.0 y.0 ≡ lt) xs (e ∷ ys) above in
      (c.0, append-IsBelow xs e ys a)

  pub IsAscending-middle :
      (xs : List (Bytes × A)) (e : Bytes × A) (ys : List (Bytes × A))
      → IsAscending (xs ++ (e ∷ ys))
      → IsAscending xs × IsBelow xs e.0 × IsAbove ys e.0 × IsAscending ys
  IsAscending-middle xs e ys a =
      let (b, c) = IsAscending-append xs (e ∷ ys) a in (b, append-IsBelow xs e ys a, c.0, c.1)

  pub IsAscending-skip :
      (xs : List (Bytes × A)) (e : Bytes × A) (ys : List (Bytes × A))
      → IsAscending (xs ++ (e ∷ ys))
      → IsAscending (xs ++ ys)
  IsAscending-skip [] e ys a = a.1
  IsAscending-skip (x ∷ xs) e ys (above, a) =
      let (b, c) = All-split (λ y. cmp x.0 y.0 ≡ lt) xs (e ∷ ys) above in
      (All-append (λ y. cmp x.0 y.0 ≡ lt) xs ys b c.1, IsAscending-skip xs e ys a)

  -- Where the search cuts a sorted list.
  pub data Cut (k : Bytes) (xs : List (Bytes × A)) : Search → Type 0 where
    hit :
        (i : ℕ) (first second : List (Bytes × A)) (a : A)
        → xs ≡ first ++ ((k, a) ∷ second)
        → take i xs ≡ first
        → drop (suc i) xs ≡ second
        → get_elem? xs i ≡ some (k, a)
        → IsBelow first k
        → IsAbove second k
        → Cut k xs (found i)
    gap :
        (i : ℕ) (first second : List (Bytes × A))
        → xs ≡ first ++ second
        → take i xs ≡ first
        → drop i xs ≡ second
        → IsBelow first k
        → IsAbove second k
        → Cut k xs (missing i)

  later_cut :
      (k : Bytes) (e : Bytes × A) (xs : List (Bytes × A)) (search : Search)
      → cmp e.0 k ≡ lt
      → Cut k xs search
      → Cut k (e ∷ xs) (shift search)
  later_cut k e xs search low (hit i first second a whole is_first is_second here below above) =
      hit (suc i) (e ∷ first) second a (ap (λ t. e ∷ t) whole) (ap (λ t. e ∷ t) is_first) is_second
        here (low, below) above
  later_cut k e xs search low (gap i first second whole is_first is_second below above) =
      gap (suc i) (e ∷ first) second (ap (λ t. e ∷ t) whole) (ap (λ t. e ∷ t) is_first) is_second
        (low, below) above

  pub binary_search-Cut :
      (k : Bytes) (xs : List (Bytes × A))
      → IsAscending xs
      → Cut k xs (binary_search (λ e. e.0) xs k)
  unfolding binary_search
  binary_search-Cut k [] a = gap 0 [] [] refl refl refl tt tt
  binary_search-Cut k ((q, b) ∷ xs) (above, a) = elim (cmp-cases q k) [
    | inl low ↦ rw (low, binary_search) (later_cut k (q, b) xs _ low (binary_search-Cut k xs a))
    | inr (inl same) ↦
        let is_key : q ≡ k = eq_of_cmp q k same in
        rw (same, binary_search)
          (hit 0 [] xs b (ap (λ x. (x, b) ∷ xs) is_key) refl refl (ap (λ x. some (x, b)) is_key) tt
            (rw is_key at above))
    | inr (inr high) ↦
        rw (high, binary_search)
          (gap 0 [] ((q, b) ∷ xs) refl refl refl tt (
            lt_of_gt q k high,
            All-imp _ (λ e. cmp k e.0 ≡ lt) (λ e l. cmp_trans k q e.0 (lt_of_gt q k high) l) xs
                above,
          ))
  ]

  -- The list around an index.
  pub data Around (xs : List (Bytes × A)) (i : ℕ) : Type 0 where
    around :
        (first second : List (Bytes × A)) (e : Bytes × A)
        → xs ≡ first ++ (e ∷ second)
        → take i xs ≡ first
        → drop (suc i) xs ≡ second
        → get_elem? xs i ≡ some e
        → Around xs i

  one_more : (x : Bytes × A) (xs : List (Bytes × A)) (i : ℕ) → Around xs i → Around (x ∷ xs) (suc i)
  one_more x xs i (around first second e whole is_first is_second here) =
      around (x ∷ first) second e (ap (λ t. x ∷ t) whole) (ap (λ t. x ∷ t) is_first) is_second here

  pub look-Around : (xs : List (Bytes × A)) (i : ℕ) → i < length xs → Around xs i
  look-Around [] i inside = absurd (omega arith)
  look-Around (x ∷ xs) zero inside = around [] xs x refl refl refl refl
  look-Around (x ∷ xs) (suc i) inside = one_more x xs i (look-Around xs i (omega arith))

-- Operations keep entries sorted.
pub Stepped-IsAscending :
    (q : Bytes) {op : Op} {es es' : Entries}
    → Stepped q op es es'
    → IsAscending es
    → IsAscending es'
Stepped-IsAscending q (appended v) a = (tt, tt)
Stepped-IsAscending q (inserted v k w es low) (above, a) =
    ((low, All-imp _ (λ e. cmp q e.0 ≡ lt) (λ e l. cmp_trans q k e.0 low l) es above), (above, a))
Stepped-IsAscending q (replaced v k w es same) (above, a) = (rw (eq_of_cmp q k same) above, a)
Stepped-IsAscending q (erased k w es same) (above, a) = a
Stepped-IsAscending q (passed op k w es es' high d) (above, a) = (
  Stepped-All (λ e. cmp k e.0 ≡ lt) q d (λ v is_put. lt_of_gt q k high) above,
  Stepped-IsAscending q d a,
)

pub update-IsAscending :
    (batch : Batch) (es es' : Entries)
    → IsAscending es
    → update batch es ≡ some es'
    → IsAscending es'
unfolding update
update-IsAscending [] es es' a e = let same : es ≡ es' = cc in rw same at a
update-IsAscending ((q, op) ∷ batch) es es' a e =
    let (es1, e1, e2) = chain-some (step q op es) (update batch) es' e in
    update-IsAscending batch es1 es' (Stepped-IsAscending q (step-Stepped q op es es1 e1) a) e2
