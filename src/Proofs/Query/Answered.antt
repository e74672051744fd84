-- ===== src/Proofs/Query/Answered.antt =====
-- The answers that a planned proof gives for the queried keys, against the lookups.
use liftedmerk.Base.{
  ℕ, zero, suc, drop, ◌≡◌, ◌∷◌, [], ◌++◌, ◌∙◌, refl, sym, ap, map, map-append, append_assoc, List,
  Bytes, Option, none, cmp_refl, gt_of_lt, All,
}
use liftedmerk.Tree.Shape.{Shape, leaf, fork, lookup}
use liftedmerk.Tree.Search.{Search, found, missing, before, behind, binary_search}
use liftedmerk.Tree.Search.Sorted.{IsSorted, hit, binary_search-IsSplit}
use liftedmerk.Proofs.Query.Answers.{LowerThan, HigherThan, nones, hits}

abbrev pub split : List Bytes → Bytes → Search
split keys k = binary_search (λ key. key) keys k

-- The keys beyond the last key of the shape.
unfoldable pub leftover : Shape → List Bytes → List Bytes
leftover leaf keys = keys
leftover (fork l k v r) keys = leftover r (behind (split keys k) keys)

-- The answers for the keys up to there.
unfoldable pub answers : Shape → List Bytes → List (Option Bytes)
answers leaf keys = []
answers (fork l k v r) keys =
    (answers l (before (split keys k) keys)
      ++ (nones (leftover l (before (split keys k) keys)) ++ hits (split keys k) v))
    ++ answers r (behind (split keys k) keys)

pub leftover-nil : (s : Shape) → leftover s [] ≡ []
unfolding leftover binary_search
leftover-nil leaf = refl
leftover-nil (fork l k v r) = leftover-nil r

pub answers-nil : (s : Shape) → answers s [] ≡ []
unfolding answers binary_search
answers-nil leaf = refl
answers-nil (fork l k v r) = rw (answers-nil l, answers-nil r, leftover-nil l)

All-drop : (P : Bytes → Type 0) (i : ℕ) (keys : List Bytes) → All P keys → All P (drop i keys)
All-drop P zero keys a = a
All-drop P (suc i) [] a = tt
All-drop P (suc i) (q ∷ keys) a = All-drop P i keys a.1

pub All-behind :
    (P : Bytes → Type 0) (search : Search) (keys : List Bytes)
    → All P keys
    → All P (behind search keys)
All-behind P (found i) keys a = All-drop P (suc i) keys a
All-behind P (missing i) keys a = All-drop P i keys a

pub All-leftover :
    (P : Bytes → Type 0) (s : Shape) (keys : List Bytes) → All P keys → All P (leftover s keys)
unfolding leftover
All-leftover P leaf keys a = a
All-leftover P (fork l k v r) keys a =
    All-leftover P r (behind (split keys k) keys) (All-behind P (split keys k) keys a)

map-lookup_lower :
    (k v : Bytes) (l r : Shape) (keys : List Bytes)
    → LowerThan k keys
    → map (lookup (fork l k v r)) keys ≡ map (lookup l) keys
unfolding lookup
map-lookup_lower k v l r [] low = refl
map-lookup_lower k v l r (q ∷ keys) (low, lows) =
    rw (low, lookup, map-lookup_lower k v l r keys lows)

map-lookup_higher :
    (k v : Bytes) (l r : Shape) (keys : List Bytes)
    → HigherThan k keys
    → map (lookup (fork l k v r)) keys ≡ map (lookup r) keys
unfolding lookup
map-lookup_higher k v l r [] high = refl
map-lookup_higher k v l r (q ∷ keys) (high, highs) =
    rw (gt_of_lt k q high, lookup, map-lookup_higher k v l r keys highs)

map-lookup-hit :
    (search : Search) (k v : Bytes) (l r : Shape)
    → map (lookup (fork l k v r)) (hit search k) ≡ hits search v
unfolding lookup
map-lookup-hit (found i) k v l r = rw (cmp_refl k, lookup)
map-lookup-hit (missing i) k v l r = refl

map-lookup_leaf : (keys : List Bytes) → map (lookup leaf) keys ≡ nones keys
unfolding lookup
map-lookup_leaf [] = refl
map-lookup_leaf (q ∷ keys) = ap (λ t. none ∷ t) (map-lookup_leaf keys)

regroup :
    (a n m a' n' : List (Option Bytes))
    → ((a ++ (n ++ m)) ++ a') ++ n' ≡ (a ++ n) ++ (m ++ (a' ++ n'))
regroup a n m a' n' = simp append_assoc

-- With the pending keys absent, the answers for sorted keys are the lookups.
pub answers-lookup :
    (s : Shape) (keys : List Bytes)
    → IsSorted keys
    → answers s keys ++ nones (leftover s keys) ≡ map (lookup s) keys
unfolding answers leftover
answers-lookup leaf keys sorted = sym (map-lookup_leaf keys)
answers-lookup (fork l k v r) keys sorted =
    let search = split keys k in
    let parts = binary_search-IsSplit keys k sorted in
    let left = answers-lookup l (before search keys) parts.before_sorted in
    let right = answers-lookup r (behind search keys) parts.behind_sorted in
    let whole : map (lookup (fork l k v r)) keys
        ≡ map (lookup l) (before search keys)
          ++ (hits search v ++ map (lookup r) (behind search keys)) =
      ap (map (lookup (fork l k v r))) parts.whole
      ∙ rw (
        map-append,
        map-append,
        map-lookup_lower k v l r (before search keys) parts.lower,
        map-lookup-hit search k v l r,
        map-lookup_higher k v l r (behind search keys) parts.higher,
      ) in
    regroup (answers l (before search keys)) (nones (leftover l (before search keys)))
      (hits search v) (answers r (behind search keys)) (nones (leftover r (behind search keys)))
    ∙ rw (left, right) (sym whole)
