-- ===== src/Tree/Search/Sorted.antt =====
-- Where `binary_search` splits a sorted slice.
use liftedmerk.Base.{
  ℕ, zero, suc, ◌≡◌, ◌∷◌, [], ◌++◌, refl, ap, List, Bytes, cmp, cmp_trans, cmp-cases, eq_of_cmp,
  lt_of_gt, All, take, inl, inr,
}
use Prim.Native.Nat.Ordering.{lt}
use liftedmerk.Tree.Search.{Search, found, missing, shift, binary_search, before, behind}

-- Each key is lower than all behind it.
abbrev pub IsSorted : List Bytes → Type 0
IsSorted [] = Unit {0}
IsSorted (q ∷ qs) = All (λ x. cmp q x ≡ lt) qs × IsSorted qs

-- The key itself, where it was found.
abbrev pub hit : Search → Bytes → List Bytes
hit (found i) k = k ∷ []
hit (missing i) k = []

pub record IsSplit (keys : List Bytes) (k : Bytes) (search : Search) : Type 0 where
  pub whole : keys ≡ before search keys ++ (hit search k ++ behind search keys)
  pub lower : All (λ x. cmp x k ≡ lt) (before search keys)
  pub higher : All (λ x. cmp k x ≡ lt) (behind search keys)
  pub before_sorted : IsSorted (before search keys)
  pub behind_sorted : IsSorted (behind search keys)

pub All-imp {ℓ} :
    {A : Type ℓ} (P Q : A → Type 0) → ((x : A) → P x → Q x) → (xs : List A) → All P xs → All Q xs
All-imp P Q f [] a = tt
All-imp P Q f (x ∷ xs) (p, a) = (f x p, All-imp P Q f xs a)

All-take {ℓ} : {A : Type ℓ} (P : A → Type 0) (i : ℕ) (xs : List A) → All P xs → All P (take i xs)
All-take P zero xs a = tt
All-take P (suc i) [] a = tt
All-take P (suc i) (x ∷ xs) (p, a) = (p, All-take P i xs a)

shift-IsSplit :
    (q k : Bytes) (qs : List Bytes) (s : Search)
    → cmp q k ≡ lt
    → IsSorted (q ∷ qs)
    → IsSplit qs k s
    → IsSplit (q ∷ qs) k (shift s)
shift-IsSplit q k qs (found i) low sorted split = record {
  whole = ap (λ t. q ∷ t) split.whole;
  lower = (low, split.lower);
  higher = split.higher;
  before_sorted = (All-take (λ x. cmp q x ≡ lt) i qs sorted.0, split.before_sorted);
  behind_sorted = split.behind_sorted;
}
shift-IsSplit q k qs (missing i) low sorted split = record {
  whole = ap (λ t. q ∷ t) split.whole;
  lower = (low, split.lower);
  higher = split.higher;
  before_sorted = (All-take (λ x. cmp q x ≡ lt) i qs sorted.0, split.before_sorted);
  behind_sorted = split.behind_sorted;
}

-- On a sorted slice the index splits it into the lower keys, the key if it is there, and the higher.
pub binary_search-IsSplit :
    (keys : List Bytes) (k : Bytes)
    → IsSorted keys
    → IsSplit keys k (binary_search (λ key. key) keys k)
unfolding binary_search
binary_search-IsSplit [] k sorted = record {
  whole = refl;
  lower = tt;
  higher = tt;
  before_sorted = tt;
  behind_sorted = tt;
}
binary_search-IsSplit (q ∷ qs) k sorted = elim (cmp-cases q k) [
  | inl low ↦
      rw (low, binary_search)
        (shift-IsSplit q k qs _ low sorted (binary_search-IsSplit qs k sorted.1))
  | inr (inl same) ↦
      rw (same, binary_search)
        (record {
          whole = ap (λ t. t ∷ qs) (eq_of_cmp q k same);
          lower = tt;
          higher = rw (eq_of_cmp q k same) at sorted.0;
          before_sorted = tt;
          behind_sorted = sorted.1;
        })
  | inr (inr high) ↦
      rw (high, binary_search)
        (record {
          whole = refl;
          lower = tt;
          higher = (
            lt_of_gt q k high,
            All-imp (λ x. cmp q x ≡ lt) (λ x. cmp k x ≡ lt)
                (λ x l. cmp_trans k q x (lt_of_gt q k high) l) qs sorted.0,
          );
          before_sorted = tt;
          behind_sorted = sorted;
        })
]
