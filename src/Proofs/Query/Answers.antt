-- ===== src/Proofs/Query/Answers.antt =====
-- The verifier's visitor (src/proofs/verify.rs) on the nodes of a planned proof: every queried key is
-- answered as a lookup in the shape answers it.
use liftedmerk.Base.{
  ◌≡◌, ◌∷◌, [], ◌++◌, ◌∙◌, refl, append_assoc, append-nil, List, Bytes, Bool, true, false, Option,
  none, some, ok, cmp, cmp_refl, gt_of_lt, All, arith, ◌⊎◌, inl, inr,
}
use Prim.Native.Nat.Ordering.{lt}
use liftedmerk.Tree.Hash.{Hasher}
use liftedmerk.Tree.Shape.{kv_digest}
use liftedmerk.Tree.Search.{Search, found, missing}
use liftedmerk.Tree.Search.Sorted.{hit}
use liftedmerk.Proofs.Op as Proof
use liftedmerk.Proofs.Verify.Defs.{Query, visit, match_keys, is_boundary, check_key, in_order}
use liftedmerk.Proofs.Verify.Outline.{scan}
use liftedmerk.Proofs.Query.Plan.{planned}

abbrev pub LowerThan : Bytes → List Bytes → Type 0
LowerThan k keys = All (λ x. cmp x k ≡ lt) keys

abbrev pub HigherThan : Bytes → List Bytes → Type 0
HigherThan k keys = All (λ x. cmp k x ≡ lt) keys

-- Pending keys are answered as absent, if the last push was a boundary.
abbrev pub nones : List Bytes → List (Option Bytes)
nones [] = []
nones (_ ∷ keys) = none ∷ nones keys

abbrev pub Settled : List Bytes → Option Proof.Node → Type 0
Settled [] last_push = Unit {0}
Settled (_ ∷ _) last_push = is_boundary last_push ≡ true

match_keys_absent :
    (k v q : Bytes) (last_push : Option Proof.Node) (rest : List Bytes)
    (output : List (Option Bytes))
    → cmp q k ≡ lt
    → is_boundary last_push ≡ true
    → match_keys k v last_push (q ∷ rest) output
      ≡ match_keys k v last_push rest (output ++ none ∷ [])
unfolding match_keys
match_keys_absent k v q last_push rest output low boundary = ground (arith, gt_of_lt q k)

match_keys_hit :
    (k v : Bytes) (last_push : Option Proof.Node) (rest : List Bytes) (output : List (Option Bytes))
    → match_keys k v last_push (k ∷ rest) output
      ≡ match_keys k v last_push rest (output ++ some v ∷ [])
unfolding match_keys
match_keys_hit k v last_push rest output = ground (arith, cmp_refl k)

match_keys_stop :
    (k v : Bytes) (last_push : Option Proof.Node) (rest : List Bytes) (output : List (Option Bytes))
    → HigherThan k rest
    → match_keys k v last_push rest output ≡ ok (rest, output)
unfolding match_keys
match_keys_stop k v last_push [] output high = refl
match_keys_stop k v last_push (q ∷ rest) output (high, highs) = ground arith

pub Settled-all :
    (keys : List Bytes) (last_push : Option Proof.Node)
    → is_boundary last_push ≡ true
    → Settled keys last_push
Settled-all [] last_push e = tt
Settled-all (_ ∷ _) last_push e = e

match_keys-pending :
    (k v : Bytes) (last_push : Option Proof.Node) (pending rest : List Bytes)
    (output : List (Option Bytes))
    → LowerThan k pending
    → Settled pending last_push
    → match_keys k v last_push (pending ++ rest) output
      ≡ match_keys k v last_push rest (output ++ nones pending)
match_keys-pending k v last_push [] rest output low settled = rw append-nil
match_keys-pending k v last_push (q ∷ pending) rest output (low, lows) settled =
    match_keys_absent k v q last_push (pending ++ rest) output low settled
    ∙ match_keys-pending k v last_push pending rest (output ++ none ∷ []) lows
        (Settled-all pending last_push settled)
    ∙ rw (append_assoc output (none ∷ []) (nones pending))

-- The answer for the key itself.
abbrev pub hits : Search → Bytes → List (Option Bytes)
hits (found i) v = some v ∷ []
hits (missing i) v = []

match_keys_node :
    (search : Search) (k v : Bytes) (last_push : Option Proof.Node) (pending tail : List Bytes)
    (output : List (Option Bytes))
    → LowerThan k pending
    → Settled pending last_push
    → HigherThan k tail
    → match_keys k v last_push (pending ++ (hit search k ++ tail)) output
      ≡ ok (tail, output ++ (nones pending ++ hits search v))
match_keys_node (found i) k v last_push pending tail output low settled high =
    match_keys-pending k v last_push pending (k ∷ tail) output low settled
    ∙ match_keys_hit k v last_push tail (output ++ nones pending)
    ∙ match_keys_stop k v last_push tail ((output ++ nones pending) ++ some v ∷ []) high
    ∙ rw (append_assoc output (nones pending) (some v ∷ []))
match_keys_node (missing i) k v last_push pending tail output low settled high =
    match_keys-pending k v last_push pending tail output low settled
    ∙ match_keys_stop k v last_push tail (output ++ nones pending) high
    ∙ rw (append-nil (nones pending))

-- The state of the visitor.
abbrev pub state : List Bytes → Option Proof.Node → List (Option Bytes) → Query
state rest last_push output = record { rest = rest; last_push = last_push; output = output }

scan-kv :
    (search : Search) (k v : Bytes) (pending tail : List Bytes) (last_key : Option Bytes)
    (last_push : Option Proof.Node) (output : List (Option Bytes))
    → LowerThan k pending
    → Settled pending last_push
    → HigherThan k tail
    → in_order k last_key ≡ true
    → (more : List Proof.Node)
    → scan visit
        (Proof.kv k v ∷ more)
        last_key
        (state (pending ++ (hit search k ++ tail)) last_push output)
      ≡ scan visit more
          (some k)
          (state tail (some (Proof.kv k v)) (output ++ (nones pending ++ hits search v)))
unfolding scan check_key visit
scan-kv search k v pending tail last_key last_push output low settled high ordered more =
    rw (ordered, match_keys_node search k v last_push pending tail output low settled high)

module _ ⦃h : Hasher⦄ where
  -- Visiting the planned node of a pair: the next last key is the pair's, or is left alone.
  pub scan-planned :
      (search : Search) (b : Bool) (k v : Bytes) (pending tail : List Bytes)
      (last_key : Option Bytes) (last_push : Option Proof.Node) (output : List (Option Bytes))
      → LowerThan k pending
      → Settled pending last_push
      → (b ≡ false → pending ≡ [])
      → HigherThan k tail
      → in_order k last_key ≡ true
      → (last_key' : Option Bytes) × (last_push' : Option Proof.Node) × ((more : List Proof.Node)
          → scan visit
              (planned search b k v ∷ more)
              last_key
              (state (pending ++ (hit search k ++ tail)) last_push output)
            ≡ scan visit more last_key'
                (state tail last_push' (output ++ (nones pending ++ hits search v))))
        × ((last_key' ≡ some k) ⊎ (last_key' ≡ last_key))
        × (b ≡ true → is_boundary last_push' ≡ true)
  scan-planned (found i) b k v pending tail last_key last_push output low settled none_left high
        ordered =
      (
        some k,
        some (Proof.kv k v),
        scan-kv (found i) k v pending tail last_key last_push output low settled high ordered,
        inl refl,
        λ _. refl,
      )
  scan-planned (missing i) true k v pending tail last_key last_push output low settled none_left
        high ordered =
      (
        some k,
        some (Proof.kv k v),
        scan-kv (missing i) k v pending tail last_key last_push output low settled high ordered,
        inl refl,
        λ _. refl,
      )
  scan-planned (missing i) false k v pending tail last_key last_push output low settled none_left
        high ordered =
      (
        last_key,
        some (Proof.kv_hash (kv_digest k v)),
        λ more. rw (none_left refl, append-nil output) (unfold scan check_key visit in refl),
        inr refl,
        λ e. cc,
      )
