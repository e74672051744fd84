-- ===== src/Tree/Ops/Update.antt =====
-- What a batch of operations (src/tree/ops.rs) means for a sorted list of entries: the operations are
-- carried out one after the other, and deleting a key that is not there fails.
pub mod Steps
pub mod Split
pub mod Cuts
pub mod Gone
pub mod Kept
use liftedmerk.Base.{
  ℕ, suc, ◌+◌, ◌≡◌, ◌≤◌, ◌∷◌, ◌++◌, [], ◌∙◌, refl, sym, ap, append_assoc, append-nil, List, Bytes,
  Option, none, some, cmp, cmp-cases, eq_of_cmp, cmp_refl, lt_of_gt, gt_of_lt, cmp_trans, All,
  length, length-append, arith, ◌⊎◌, inl, inr,
}
use Prim.Native.Nat.Ordering.{lt, eq, gt}
use liftedmerk.Tree.Ops.{Op, put, delete, Batch}

abbrev pub Entries : Type 0
Entries = List (Bytes × Bytes)

abbrev pub over : (Entries → Entries) → Option Entries → Option Entries
over f none = none
over f (some es) = some (f es)

abbrev pub chain : Option Entries → (Entries → Option Entries) → Option Entries
chain none f = none
chain (some es) f = f es

-- One operation.
unfoldable pub step : Bytes → Op → Entries → Option Entries
step k (put v) [] = some ((k, v) ∷ [])
step k delete [] = none
step k (put v) ((k', v') ∷ es) = elim (cmp k k') [
  | lt ↦ some ((k, v) ∷ (k', v') ∷ es)
  | eq ↦ some ((k, v) ∷ es)
  | gt ↦ over (λ es'. (k', v') ∷ es') (step k (put v) es)
]
step k delete ((k', v') ∷ es) = elim (cmp k k') [
  | lt ↦ none
  | eq ↦ some es
  | gt ↦ over (λ es'. (k', v') ∷ es') (step k delete es)
]

unfoldable pub update : Batch → Entries → Option Entries
unfolding step
update [] es = some es
update ((k, op) ∷ batch) es = chain (step k op es) (update batch)

over-over :
    (f g : Entries → Entries) (o : Option Entries) → over f (over g o) ≡ over (λ es. f (g es)) o
over-over f g none = refl
over-over f g (some es) = refl

over_id : (o : Option Entries) → o ≡ over (λ es. es) o
over_id none = refl
over_id (some es) = refl

-- An operation on a key below all entries of a tail leaves the tail alone.
pub step_low :
    (q : Bytes) (op : Op) (es tail : Entries)
    → All (λ e. cmp q e.0 ≡ lt) tail
    → step q op (es ++ tail) ≡ over (λ es'. es' ++ tail) (step q op es)
unfolding step
step_low q (put v) [] [] below = refl
step_low q delete [] [] below = refl
step_low q (put v) [] ((k, w) ∷ tail) below = rw (below.0, step) refl
step_low q delete [] ((k, w) ∷ tail) below = rw (below.0, step) refl
step_low q (put v) ((k, w) ∷ es) tail below = elim (cmp-cases q k) [
  | inl low ↦ rw (low, step) refl
  | inr (inl same) ↦ rw (same, step) refl
  | inr (inr high) ↦
      rw (high, step)
        (rw (step_low q (put v) es tail below)
          (over-over _ _ (step q (put v) es) ∙ sym (over-over _ _ (step q (put v) es))))
]
step_low q delete ((k, w) ∷ es) tail below = elim (cmp-cases q k) [
  | inl low ↦ rw (low, step) refl
  | inr (inl same) ↦ rw (same, step) refl
  | inr (inr high) ↦
      rw (high, step)
        (rw (step_low q delete es tail below)
          (over-over _ _ (step q delete es) ∙ sym (over-over _ _ (step q delete es))))
]

-- An operation on a key above all entries of a head leaves the head alone.
pub step_high :
    (q : Bytes) (op : Op) (head es : Entries)
    → All (λ e. cmp e.0 q ≡ lt) head
    → step q op (head ++ es) ≡ over (λ es'. head ++ es') (step q op es)
unfolding step
step_high q op [] es above = over_id (step q op es)
step_high q (put v) ((k, w) ∷ head) es above =
    rw (gt_of_lt k q above.0, step)
      (rw (step_high q (put v) head es above.1) (over-over _ _ (step q (put v) es)))
step_high q delete ((k, w) ∷ head) es above =
    rw (gt_of_lt k q above.0, step)
      (rw (step_high q delete head es above.1) (over-over _ _ (step q delete es)))

pub none_not_some : {es : Entries} → ¬ (◌≡◌ {A = Option Entries} none (some es))
none_not_some e = cc

pub chain-some :
    (o : Option Entries) (f : Entries → Option Entries) (es : Entries)
    → chain o f ≡ some es
    → (es1 : Entries) × (o ≡ some es1) × (f es1 ≡ some es)
chain-some none f es e = cc
chain-some (some es1) f es e = (es1, refl, e)

pub over-some :
    (f : Entries → Entries) (o : Option Entries) (es : Entries)
    → over f o ≡ some es
    → (es1 : Entries) × (o ≡ some es1) × (es ≡ f es1)
over-some f none es e = cc
over-some f (some es1) es e = let same : es ≡ f es1 = cc in (es1, refl, same)

chain-over :
    (f : Entries → Entries) (g : Entries → Option Entries) (o : Option Entries)
    → ((es : Entries) → g (f es) ≡ over f (g es))
    → chain (over f o) g ≡ over f (chain o g)
chain-over f g none h = refl
chain-over f g (some es) h = h es

pub update_low :
    (batch : Batch) (es tail : Entries)
    → All (λ b. All (λ e. cmp b.0 e.0 ≡ lt) tail) batch
    → update batch (es ++ tail) ≡ over (λ es'. es' ++ tail) (update batch es)
unfolding update
update_low [] es tail below = refl
update_low ((q, op) ∷ batch) es tail (low, below) = rw (step_low q op es tail low) (
    chain-over (λ es'. es' ++ tail) (update batch) (step q op es)
      (λ es'. update_low batch es' tail below))

pub update_high :
    (batch : Batch) (head es : Entries)
    → All (λ b. All (λ e. cmp e.0 b.0 ≡ lt) head) batch
    → update batch (head ++ es) ≡ over (λ es'. head ++ es') (update batch es)
unfolding update
update_high [] head es above = refl
update_high ((q, op) ∷ batch) head es (high, above) = rw (step_high q op head es high) (
    chain-over (λ es'. head ++ es') (update batch) (step q op es)
      (λ es'. update_high batch head es' above))

chain-chain :
    (o : Option Entries) (f g : Entries → Option Entries)
    → chain (chain o f) g ≡ chain o (λ es. chain (f es) g)
chain-chain none f g = refl
chain-chain (some es) f g = refl

chain_same :
    (o : Option Entries) (f g : Entries → Option Entries)
    → ((es : Entries) → f es ≡ g es)
    → chain o f ≡ chain o g
chain_same none f g h = refl
chain_same (some es) f g h = h es

pub update-append :
    (first second : Batch) (es : Entries)
    → update (first ++ second) es ≡ chain (update first es) (update second)
unfolding update
update-append [] second es = refl
update-append ((q, op) ∷ first) second es =
    chain_same (step q op es) (update (first ++ second))
      (λ es'. chain (update first es') (update second)) (update-append first second)
    ∙ sym (chain-chain (step q op es) (update first) (update second))
