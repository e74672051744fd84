-- ===== src/Tree/Search.antt =====
-- `binary_search_by` of the standard library, as the sources use it: on slices that are sorted and
-- have no key twice, where the index that it returns is determined.
pub mod Sorted
use liftedmerk.Base.{ℕ, suc, zero, ◌∷◌, [], List, Bytes, cmp, take, drop}
use Prim.Native.Nat.Ordering.{lt, eq, gt}

-- `Ok(index)` and `Err(index)`.
pub data Search : Type 0 where
  found : ℕ → Search
  missing : ℕ → Search

abbrev pub shift : Search → Search
shift (found i) = found (suc i)
shift (missing i) = missing (suc i)

unfoldable pub binary_search {ℓ} : {A : Type ℓ} → (A → Bytes) → List A → Bytes → Search
binary_search key_of [] k = missing 0
binary_search key_of (x ∷ xs) k =
    let later = shift (binary_search key_of xs k) in
    elim (cmp (key_of x) k) [ lt ↦ later | eq ↦ found 0 | gt ↦ missing 0 ]

-- The parts of the slice on the two sides of the index.
abbrev pub before {ℓ} : {A : Type ℓ} → Search → List A → List A
before (found i) xs = take i xs
before (missing i) xs = take i xs

abbrev pub behind {ℓ} : {A : Type ℓ} → Search → List A → List A
behind (found i) xs = drop (suc i) xs
behind (missing i) xs = drop i xs
