-- ===== src/Tree/Ops/Update/Steps.antt =====
-- One operation of a batch (src/tree/ops.rs) on a list of entries, case by case, and what all of them
-- keep.
use liftedmerk.Base.{
  suc, ◌+◌, ◌≡◌, ◌≤◌, ◌∷◌, [], refl, Bytes, Option, some, cmp, cmp-cases, All, length, arith, inl,
  inr,
}
use Prim.Native.Nat.Ordering.{lt, eq, gt}
use liftedmerk.Tree.Ops.{Op, put, delete, Batch}
use liftedmerk.Tree.Ops.Update.{Entries, step, update, none_not_some, chain-some, over-some}

-- What one operation makes of a list, case by case.
pub data Stepped (q : Bytes) : Op → Entries → Entries → Type 0 where
  appended : (v : Bytes) → Stepped q (put v) [] ((q, v) ∷ [])
  inserted :
      (v k w : Bytes) (es : Entries)
      → cmp q k ≡ lt
      → Stepped q (put v) ((k, w) ∷ es) ((q, v) ∷ (k, w) ∷ es)
  replaced :
      (v k w : Bytes) (es : Entries) → cmp q k ≡ eq → Stepped q (put v) ((k, w) ∷ es) ((q, v) ∷ es)
  erased : (k w : Bytes) (es : Entries) → cmp q k ≡ eq → Stepped q delete ((k, w) ∷ es) es
  passed :
      (op : Op) (k w : Bytes) (es es' : Entries)
      → cmp q k ≡ gt
      → Stepped q op es es'
      → Stepped q op ((k, w) ∷ es) ((k, w) ∷ es')

Stepped-to :
    (q : Bytes) (op : Op) (es es1 es2 : Entries)
    → Stepped q op es es1
    → ◌≡◌ {A = Option Entries} (some es1) (some es2)
    → Stepped q op es es2
Stepped-to q op es es1 es2 d e = let same : es1 ≡ es2 = cc in rw (← same) d

pub step-Stepped :
    (q : Bytes) (op : Op) (es es' : Entries) → step q op es ≡ some es' → Stepped q op es es'
unfolding step
step-Stepped q (put v) [] es' e = Stepped-to q (put v) [] _ es' (appended v) e
step-Stepped q delete [] es' e = absurd (none_not_some e)
step-Stepped q (put v) ((k, w) ∷ es) es' e = elim (cmp-cases q k) [
  | inl low ↦ Stepped-to q (put v) ((k, w) ∷ es) _ es' (inserted v k w es low) (rw (low, step) at e)
  | inr (inl same) ↦
      Stepped-to q (put v) ((k, w) ∷ es) _ es' (replaced v k w es same) (rw (same, step) at e)
  | inr (inr high) ↦
      let (es1, e1, same) = over-some _ (step q (put v) es) es' (rw (high, step) at e) in
      rw same (passed (put v) k w es es1 high (step-Stepped q (put v) es es1 e1))
]
step-Stepped q delete ((k, w) ∷ es) es' e = elim (cmp-cases q k) [
  | inl low ↦ absurd (none_not_some (rw (low, step) at e))
  | inr (inl same) ↦
      Stepped-to q delete ((k, w) ∷ es) _ es' (erased k w es same) (rw (same, step) at e)
  | inr (inr high) ↦
      let (es1, e1, same) = over-some _ (step q delete es) es' (rw (high, step) at e) in
      rw same (passed delete k w es es1 high (step-Stepped q delete es es1 e1))
]

-- The entries of an operation's outcome are the operation's or were there.
pub Stepped-All :
    (P : Bytes × Bytes → Type 0) (q : Bytes) {op : Op} {es es' : Entries}
    → Stepped q op es es'
    → ((v : Bytes) → op ≡ put v → P (q, v))
    → All P es
    → All P es'
Stepped-All P q (appended v) new old = (new v refl, tt)
Stepped-All P q (inserted v k w es low) new old = (new v refl, old)
Stepped-All P q (replaced v k w es same) new old = (new v refl, old.1)
Stepped-All P q (erased k w es same) new old = old.1
Stepped-All P q (passed op k w es es' high d) new old = (old.0, Stepped-All P q d new old.1)

pub update-All :
    (P : Bytes × Bytes → Type 0) (batch : Batch) (es es' : Entries)
    → All (λ b. (v : Bytes) → b.1 ≡ put v → P (b.0, v)) batch
    → All P es
    → update batch es ≡ some es'
    → All P es'
unfolding update
update-All P [] es es' new old e = let same : es ≡ es' = cc in rw same at old
update-All P ((q, op) ∷ batch) es es' (new, news) old e =
    let (es1, e1, e2) = chain-some (step q op es) (update batch) es' e in
    update-All P batch es1 es' news (Stepped-All P q (step-Stepped q op es es1 e1) new old) e2

length-Stepped :
    (q : Bytes) {op : Op} {es es' : Entries} → Stepped q op es es' → length es' ≤ suc (length es)
length-Stepped q (appended v) = omega arith
length-Stepped q (inserted v k w es low) = omega arith
length-Stepped q (replaced v k w es same) = omega arith
length-Stepped q (erased k w es same) = omega arith
length-Stepped q (passed op k w es es' high d) = omega (arith, length-Stepped q d)

pub length-update :
    (batch : Batch) (es es' : Entries)
    → update batch es ≡ some es'
    → length es' ≤ length es + length batch
unfolding update
length-update [] es es' e = let same : es ≡ es' = cc in rw same (omega arith)
length-update ((q, op) ∷ batch) es es' e =
    let (es1, e1, e2) = chain-some (step q op es) (update batch) es' e in
    omega (arith, length-Stepped q (step-Stepped q op es es1 e1), length-update batch es1 es' e2)
