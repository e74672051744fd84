-- ===== src/Tree/Ops/Update/Split.antt =====
-- Updating the entries around a key (src/tree/ops.rs): those before it with the operations before its
-- own, and those behind it with the operations behind.
use liftedmerk.Base.{
  ◌≡◌, ◌∷◌, ◌++◌, [], ◌∙◌, refl, sym, ap, append_assoc, List, Bytes, none, some, cmp, cmp_refl,
  cmp_trans, All,
}
use Prim.Native.Nat.Ordering.{lt}
use liftedmerk.Tree.Search.Sorted.{All-imp}
use liftedmerk.Tree.Ops.{Op, put, delete, Batch}
use liftedmerk.Tree.Ops.Update.{
  Entries, over, chain, step, update, step_high, none_not_some, chain-some, over-some, update_low,
  update_high, update-append,
}
use liftedmerk.Tree.Ops.Update.Steps.{update-All}

-- All keys are lower than the key, or higher.
abbrev pub IsBelow : {A : Type 0} → List (Bytes × A) → Bytes → Type 0
IsBelow es k = All (λ e. cmp e.0 k ≡ lt) es

abbrev pub IsAbove : {A : Type 0} → List (Bytes × A) → Bytes → Type 0
IsAbove es k = All (λ e. cmp k e.0 ≡ lt) es

pub All-append :
    {A : Type 0} (P : A → Type 0) (xs ys : List A) → All P xs → All P ys → All P (xs ++ ys)
All-append P [] ys a b = b
All-append P (x ∷ xs) ys (p, a) b = (p, All-append P xs ys a b)

cross_below :
    (k : Bytes) (batch : Batch) (es : Entries)
    → IsBelow batch k
    → IsAbove es k
    → All (λ b. All (λ e. cmp b.0 e.0 ≡ lt) es) batch
cross_below k batch es low high =
    All-imp _ (λ b. All (λ e. cmp b.0 e.0 ≡ lt) es)
      (λ b below.
        All-imp _ (λ e. cmp b.0 e.0 ≡ lt) (λ e above. cmp_trans b.0 k e.0 below above) es high)
      batch low

both_below :
    (k v : Bytes) (batch : Batch) (es : Entries)
    → IsBelow batch k
    → IsAbove es k
    → All (λ b. All (λ e. cmp b.0 e.0 ≡ lt) ((k, v) ∷ es)) batch
both_below k v batch es low high =
    All-imp _ (λ b. All (λ e. cmp b.0 e.0 ≡ lt) ((k, v) ∷ es))
      (λ b below. (
        below,
        All-imp _ (λ e. cmp b.0 e.0 ≡ lt) (λ e above. cmp_trans b.0 k e.0 below above) es high,
      ))
      batch low

both_above :
    (k v : Bytes) (batch : Batch) (es : Entries)
    → IsAbove batch k
    → IsBelow es k
    → All (λ b. All (λ e. cmp e.0 b.0 ≡ lt) (es ++ ((k, v) ∷ []))) batch
both_above k v batch es high low =
    All-imp _ (λ b. All (λ e. cmp e.0 b.0 ≡ lt) (es ++ ((k, v) ∷ [])))
      (λ b above.
        All-append (λ e. cmp e.0 b.0 ≡ lt) es ((k, v) ∷ [])
          (All-imp _ (λ e. cmp e.0 b.0 ≡ lt) (λ e below. cmp_trans e.0 k b.0 below above) es low)
          (above, tt))
      batch high

-- The operations below the key, with the entries from the key on left alone.
first_part :
    (first second : Batch) (xs tail es : Entries) (k : Bytes)
    → IsBelow first k
    → IsBelow xs k
    → All (λ b. All (λ e. cmp b.0 e.0 ≡ lt) tail) first
    → update (first ++ second) (xs ++ tail) ≡ some es
    → (xs' : Entries) × (update first xs ≡ some xs')
      × IsBelow xs' k
      × (update second (xs' ++ tail) ≡ some es)
first_part first second xs tail es k low below cross e =
    let split : chain (over (λ es'. es' ++ tail) (update first xs)) (update second) ≡ some es =
      ap (λ o. chain o (update second)) (sym (update_low first xs tail cross))
      ∙ sym (update-append first second (xs ++ tail))
      ∙ e in
    let (zs, e1, e2) =
      chain-some (over (λ es'. es' ++ tail) (update first xs)) (update second) es split in
    let (xs', e3, same) = over-some (λ es'. es' ++ tail) (update first xs) zs e1 in
    (
      xs',
      e3,
      update-All (λ e. cmp e.0 k ≡ lt) first xs xs'
          (All-imp _ (λ b. (v : Bytes) → b.1 ≡ put v → cmp b.0 k ≡ lt) (λ b l v is_put. l) first
            low)
          below e3,
      rw same at e2,
    )

-- The operations above the key, with the entries up to the key left alone.
second_part :
    (second : Batch) (xs ys es : Entries) (k v : Bytes)
    → IsAbove second k
    → IsBelow xs k
    → update second (xs ++ ((k, v) ∷ ys)) ≡ some es
    → (ys' : Entries) × (update second ys ≡ some ys') × (es ≡ xs ++ ((k, v) ∷ ys'))
second_part second xs ys es k v high below e =
    let e1 : over (λ es'. (xs ++ ((k, v) ∷ [])) ++ es') (update second ys) ≡ some es =
      sym (update_high second (xs ++ ((k, v) ∷ [])) ys (both_above k v second xs high below))
      ∙ ap (update second) (append_assoc xs ((k, v) ∷ []) ys)
      ∙ e in
    let (ys', e2, same) =
      over-some (λ es'. (xs ++ ((k, v) ∷ [])) ++ es') (update second ys) es e1 in
    (ys', e2, same ∙ append_assoc xs ((k, v) ∷ []) ys')

-- No operation on the key itself.
pub split_missing :
    (first second : Batch) (xs ys es : Entries) (k v : Bytes)
    → IsBelow first k
    → IsAbove second k
    → IsBelow xs k
    → IsAbove ys k
    → update (first ++ second) (xs ++ ((k, v) ∷ ys)) ≡ some es
    → (xs' : Entries) × (ys' : Entries) × (update first xs ≡ some xs')
      × (update second ys ≡ some ys')
      × (es ≡ xs' ++ ((k, v) ∷ ys'))
split_missing first second xs ys es k v low high below above e =
    let (xs', e1, below', e2) =
      first_part first second xs ((k, v) ∷ ys) es k low below (both_below k v first ys low above)
        e in
    let (ys', e3, same) = second_part second xs' ys es k v high below' e2 in
    (xs', ys', e1, e3, same)

-- The value of the key is replaced.
pub split_put :
    (first second : Batch) (xs ys es : Entries) (k v v2 : Bytes)
    → IsBelow first k
    → IsAbove second k
    → IsBelow xs k
    → IsAbove ys k
    → update (first ++ ((k, put v2) ∷ second)) (xs ++ ((k, v) ∷ ys)) ≡ some es
    → (xs' : Entries) × (ys' : Entries) × (update first xs ≡ some xs')
      × (update second ys ≡ some ys')
      × (es ≡ xs' ++ ((k, v2) ∷ ys'))
unfolding update
split_put first second xs ys es k v v2 low high below above e =
    let (xs', e1, below', e2) =
      first_part first ((k, put v2) ∷ second) xs ((k, v) ∷ ys) es k low below
        (both_below k v first ys low above) e in
    let here : step k (put v2) ((k, v) ∷ ys) ≡ some ((k, v2) ∷ ys) =
      unfold step in rw (cmp_refl k, step) refl in
    let e3 : update second (xs' ++ ((k, v2) ∷ ys)) ≡ some es =
      ap (λ o. chain o (update second))
        (sym (step_high k (put v2) xs' ((k, v) ∷ ys) below' ∙ ap (over (λ es'. xs' ++ es')) here))
      ∙ e2 in
    let (ys', e4, same) = second_part second xs' ys es k v2 high below' e3 in
    (xs', ys', e1, e4, same)

-- The key is taken out; the operations below it and those above it can be done without it.
pub split_delete :
    (first second : Batch) (xs ys es : Entries) (k v : Bytes)
    → IsBelow first k
    → IsAbove second k
    → IsBelow xs k
    → IsAbove ys k
    → update (first ++ ((k, delete) ∷ second)) (xs ++ ((k, v) ∷ ys)) ≡ some es
    → (zs : Entries) × (update first (xs ++ ys) ≡ some zs) × (update second zs ≡ some es)
unfolding update
split_delete first second xs ys es k v low high below above e =
    let (xs', e1, below', e2) =
      first_part first ((k, delete) ∷ second) xs ((k, v) ∷ ys) es k low below
        (both_below k v first ys low above) e in
    let here : step k delete ((k, v) ∷ ys) ≡ some ys = unfold step in rw (cmp_refl k, step) refl in
    let e3 : update second (xs' ++ ys) ≡ some es =
      ap (λ o. chain o (update second))
        (sym (step_high k delete xs' ((k, v) ∷ ys) below' ∙ ap (over (λ es'. xs' ++ es')) here))
      ∙ e2 in
    (
      xs' ++ ys,
      update_low first xs ys (cross_below k first ys low above) ∙ ap (over (λ es'. es' ++ ys)) e1,
      e3,
    )

-- Out of nothing there are only insertions.
pub split_build :
    (first second : Batch) (es : Entries) (k : Bytes) (op : Op)
    → IsBelow first k
    → IsAbove second k
    → update (first ++ ((k, op) ∷ second)) [] ≡ some es
    → (v : Bytes) × (xs' : Entries) × (ys' : Entries) × (op ≡ put v)
      × (update first [] ≡ some xs')
      × (update second [] ≡ some ys')
      × (es ≡ xs' ++ ((k, v) ∷ ys'))
unfolding update
split_build first second es k delete low high e =
    let (xs', e1, below', e2) =
      first_part first ((k, delete) ∷ second) [] [] es k low tt (nothing_above first) e in
    let here : step k delete [] ≡ none = unfold step in refl in
    absurd (
      none_not_some (
        ap (λ o. chain o (update second))
          (sym (step_high k delete xs' [] below' ∙ ap (over (λ es'. xs' ++ es')) here))
        ∙ e2))
  where
    nothing_above : (batch : Batch) → All (λ b. Unit {0}) batch
    nothing_above [] = tt
    nothing_above (b ∷ batch) = (tt, nothing_above batch)
split_build first second es k (put v) low high e =
    let (xs', e1, below', e2) =
      first_part first ((k, put v) ∷ second) [] [] es k low tt (nothing_above first) e in
    let here : step k (put v) [] ≡ some ((k, v) ∷ []) = unfold step in refl in
    let e3 : update second (xs' ++ ((k, v) ∷ [])) ≡ some es =
      ap (λ o. chain o (update second))
        (sym (step_high k (put v) xs' [] below' ∙ ap (over (λ es'. xs' ++ es')) here))
      ∙ e2 in
    let (ys', e4, same) = second_part second xs' [] es k v high below' e3 in
    (v, xs', ys', refl, e1, e4, same)
  where
    nothing_above : (batch : Batch) → All (λ b. Unit {0}) batch
    nothing_above [] = tt
    nothing_above (b ∷ batch) = (tt, nothing_above batch)
