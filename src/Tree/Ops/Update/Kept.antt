-- ===== src/Tree/Ops/Update/Kept.antt =====
-- Keys that a batch (src/tree/ops.rs) does not delete stay.
use liftedmerk.Base.{◌≡◌, ◌⊎◌, ◌∷◌, ◌++◌, [], ◌∙◌, refl, sym, Bytes, some, eq_of_cmp, inl, inr}
use liftedmerk.Tree.Ops.{Op, delete, Batch}
use liftedmerk.Tree.Ops.Update.{Entries, step, update, chain-some}
use liftedmerk.Tree.Ops.Update.Steps.{
  Stepped, appended, inserted, replaced, erased, passed, step-Stepped,
}
use liftedmerk.Tree.Ops.Update.Gone.{Deletes}

abbrev pub HasEntry : Entries → Bytes → Type 0
HasEntry [] q = ⊥
HasEntry (e ∷ es) q = (q ≡ e.0) ⊎ HasEntry es q

pub HasEntry-append :
    (es fs : Entries) (q : Bytes) → HasEntry es q ⊎ HasEntry fs q → HasEntry (es ++ fs) q
HasEntry-append [] fs q (inl a) = absurd a
HasEntry-append [] fs q (inr b) = b
HasEntry-append (e ∷ es) fs q (inl (inl here)) = inl here
HasEntry-append (e ∷ es) fs q (inl (inr later)) = inr (HasEntry-append es fs q (inl later))
HasEntry-append (e ∷ es) fs q (inr b) = inr (HasEntry-append es fs q (inr b))

pub HasEntry-split :
    (es fs : Entries) (q : Bytes) → HasEntry (es ++ fs) q → HasEntry es q ⊎ HasEntry fs q
HasEntry-split [] fs q a = inr a
HasEntry-split (e ∷ es) fs q (inl here) = inl (inl here)
HasEntry-split (e ∷ es) fs q (inr later) = elim (HasEntry-split es fs q later) [
  | inl a ↦ inl (inr a)
  | inr b ↦ inr b
]

step_kept :
    (p q : Bytes) {op : Op} {es es' : Entries}
    → Stepped p op es es'
    → HasEntry es q
    → HasEntry es' q ⊎ ((q ≡ p) × (op ≡ delete))
step_kept p q (appended v) there = absurd there
step_kept p q (inserted v k w es low) there = inl (inr there)
step_kept p q (replaced v k w es same) (inl here) = inl (inl (here ∙ sym (eq_of_cmp p k same)))
step_kept p q (replaced v k w es same) (inr later) = inl (inr later)
step_kept p q (erased k w es same) (inl here) = inr (here ∙ sym (eq_of_cmp p k same), refl)
step_kept p q (erased k w es same) (inr later) = inl later
step_kept p q (passed op k w es es' high d) (inl here) = inl (inl here)
step_kept p q (passed op k w es es' high d) (inr later) = elim (step_kept p q d later) [
  | inl a ↦ inl (inr a)
  | inr b ↦ inr b
]

pub update_kept :
    (batch : Batch) (es es' : Entries) (q : Bytes)
    → update batch es ≡ some es'
    → HasEntry es q
    → HasEntry es' q ⊎ Deletes batch q
unfolding update
update_kept [] es es' q e there = let same : es ≡ es' = cc e in inl (rw same at there)
update_kept ((p, op) ∷ batch) es es' q e there =
    let (es1, e1, e2) = chain-some (step p op es) (update batch) es' e in
    elim (step_kept p q (step-Stepped p op es es1 e1) there) [
      | inl kept ↦ elim (update_kept batch es1 es' q e2 kept) [
        | inl a ↦ inl a
        | inr d ↦ inr (inr d)
      ]
      | inr deleted ↦ inr (inl deleted)
    ]
