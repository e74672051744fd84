-- ===== src/Merk/Keys.antt =====
-- The check that `Merk::apply` and `Merk::prove` (src/merk/mod.rs) make of the keys that they get.
use liftedmerk.Base.{
  ◌≡◌, ◌∷◌, [], refl, List, Bytes, Option, none, some, Result, ok, err, ◌>>◌, >>=-eq-ok, cmp,
  cmp_trans, All, arith, ◌↔◌, keys_not_sorted, keys_not_unique,
}
use Prim.Native.Nat.Ordering.{lt, eq, gt}
use liftedmerk.Tree.Search.Sorted.{IsSorted, All-imp}

abbrev pub check_next : Option Bytes → Bytes → Result (Unit {0})
check_next none key = ok tt
check_next (some prev_key) key = elim (cmp prev_key key) [
  | gt ↦ err keys_not_sorted
  | eq ↦ err keys_not_unique
  | lt ↦ ok tt
]

-- The `for` loop, with `maybe_prev_key`.
unfoldable pub check_keys : Option Bytes → List Bytes → Result (Unit {0})
check_keys maybe_prev_key [] = ok tt
check_keys maybe_prev_key (key ∷ keys) = do
  check_next maybe_prev_key key
  check_keys (some key) keys

abbrev Follow : Option Bytes → List Bytes → Type 0
Follow none keys = Unit {0}
Follow (some prev_key) keys = All (λ x. cmp prev_key x ≡ lt) keys

check_next_ok :
    (prev_key key : Bytes) → check_next (some prev_key) key ≡ ok tt → cmp prev_key key ≡ lt
check_next_ok prev_key key e = ground arith

follow :
    (prev : Option Bytes) (key : Bytes) (keys : List Bytes)
    → check_next prev key ≡ ok tt
    → IsSorted (key ∷ keys)
    → Follow prev (key ∷ keys)
follow none key keys e sorted = tt
follow (some p) key keys e sorted =
    let low = check_next_ok p key e in
    (
      low,
      All-imp (λ x. cmp key x ≡ lt) (λ x. cmp p x ≡ lt) (λ x above. cmp_trans p key x low above)
          keys sorted.0,
    )

check_keys_sound :
    (prev : Option Bytes) (keys : List Bytes)
    → check_keys prev keys ≡ ok tt
    → IsSorted keys × Follow prev keys
unfolding check_keys
check_keys_sound none [] e = (tt, tt)
check_keys_sound (some p) [] e = (tt, tt)
check_keys_sound prev (key ∷ keys) e =
    let (u, e1, e2) = >>=-eq-ok (check_next prev key) _ e in
    let (sorted, follows) = check_keys_sound (some key) keys e2 in
    ((follows, sorted), follow prev key keys e1 (follows, sorted))

check_keys_complete :
    (prev : Option Bytes) (keys : List Bytes)
    → IsSorted keys
    → Follow prev keys
    → check_keys prev keys ≡ ok tt
unfolding check_keys
check_keys_complete prev [] sorted follows = refl
check_keys_complete none (key ∷ keys) sorted follows =
    check_keys_complete (some key) keys sorted.1 sorted.0
check_keys_complete (some p) (key ∷ keys) sorted follows =
    ground (arith, check_keys_complete (some key) keys sorted.1 sorted.0)

-- The check passes exactly when each key is lower than all keys behind it.
pub check_keys-IsSorted : (keys : List Bytes) → (check_keys none keys ≡ ok tt) ↔ IsSorted keys
check_keys-IsSorted keys =
    (λ e. (check_keys_sound none keys e).0, λ sorted. check_keys_complete none keys sorted tt)
