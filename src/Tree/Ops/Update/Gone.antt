-- ===== src/Tree/Ops/Update/Gone.antt =====
-- Keys that a sorted batch (src/tree/ops.rs) deletes are not among the entries that it leaves.
use liftedmerk.Base.{
  ◌≡◌, ◌⊎◌, ◌∷◌, [], ◌∙◌, sym, Bytes, some, All, inl, inr, cmp, cmp_refl, eq_of_cmp,
}
use Prim.Native.Nat.Ordering.{lt, gt}
use liftedmerk.Tree.Search.Sorted.{All-imp}
use liftedmerk.Tree.Ops.{put, delete, Batch}
use liftedmerk.Tree.Ops.Update.{Entries, step, update, chain-some}
use liftedmerk.Tree.Ops.Update.Steps.{Stepped, erased, passed, step-Stepped, update-All}
use liftedmerk.Tree.Ops.Update.Cuts.{IsAscending, Stepped-IsAscending}

-- The batch deletes the key.
abbrev pub Deletes : Batch → Bytes → Type 0
Deletes [] q = ⊥
Deletes (b ∷ batch) q = ((q ≡ b.0) × (b.1 ≡ delete)) ⊎ Deletes batch q

-- Keys that compare as lower or higher differ.
pub not_lower_self : (q k : Bytes) → cmp q k ≡ lt → ¬ (q ≡ k)
not_lower_self q k low same = cc (rw (same, cmp_refl k) at low)

pub not_higher_self : (q k : Bytes) → cmp q k ≡ gt → ¬ (q ≡ k)
not_higher_self q k high same = cc (rw (same, cmp_refl k) at high)

-- A deleted key is not among the entries afterwards.
step_gone :
    (q : Bytes) {es es' : Entries}
    → Stepped q delete es es'
    → IsAscending es
    → All (λ e. ¬ (q ≡ e.0)) es'
step_gone q (erased k w es same) (above, a) =
    All-imp (λ e. cmp k e.0 ≡ lt) (λ e. ¬ (q ≡ e.0))
      (λ e low is_q. cc (rw (← is_q, eq_of_cmp q k same, cmp_refl k) at low)) es above
step_gone q (passed _ k w es es' high d) (above, a) = (not_higher_self q k high, step_gone q d a)

pub update_gone :
    (batch : Batch) (es es' : Entries) (q : Bytes)
    → IsAscending batch
    → IsAscending es
    → Deletes batch q
    → update batch es ≡ some es'
    → All (λ e. ¬ (q ≡ e.0)) es'
unfolding update
update_gone [] es es' q sorted ordered d e = absurd d
update_gone ((k, op) ∷ batch) es es' q (above, sorted) ordered (inl (same, is_delete)) e =
    let (es1, e1, e2) = chain-some (step k op es) (update batch) es' e in
    let gone = step_gone k (step-Stepped k delete es es1 (rw is_delete at e1)) ordered in
    update-All (λ x. ¬ (q ≡ x.0)) batch es1 es'
      (All-imp (λ b. cmp k b.0 ≡ lt) (λ b. (v : Bytes) → b.1 ≡ put v → ¬ (q ≡ b.0))
        (λ b low v is_put is_b. not_lower_self k b.0 low (sym same ∙ is_b)) batch above)
      (All-imp (λ x. ¬ (k ≡ x.0)) (λ x. ¬ (q ≡ x.0)) (λ x differ is_x. differ (sym same ∙ is_x)) es1
        gone)
      e2
update_gone ((k, op) ∷ batch) es es' q (above, sorted) ordered (inr later) e =
    let (es1, e1, e2) = chain-some (step k op es) (update batch) es' e in
    update_gone batch es1 es' q sorted (Stepped-IsAscending k (step-Stepped k op es es1 e1) ordered)
      later e2
