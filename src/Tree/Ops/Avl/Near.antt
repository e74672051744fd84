-- ===== src/Tree/Ops/Avl/Near.antt =====
-- Balancing a node whose sides are balanced and differ by two levels at most (src/tree/ops.rs).
use liftedmerk.Base.{ℕ, zero, suc, ◌+◌, ◌-◌, ◌/◌, ◌≡◌, ◌≤◌, inl, inr, max, Bytes, arith}
use mathlib.Core.Path.{subst}
use liftedmerk.Tree.Shape.{Shape, leaf, fork, height}
use liftedmerk.Tree.Ops.Balances.{still, left_once}
use liftedmerk.Tree.Ops.Avl.{IsAvl, le-cases, fuel_for}
use liftedmerk.Tree.Ops.Avl.Heavy.{Levelled, levelled, right_heavy, left_bent}

pub left_heavy :
    (l r : Shape) (k v : Bytes) (n : ℕ)
    → IsAvl l
    → IsAvl r
    → height l ≤ 127
    → height l ≡ height r + 2
    → suc (fuel_for (height l)) ≤ n
    → Levelled n (fork l k v r) (height l) (suc (height l))
left_heavy leaf r k v n al ar fits tall fuel = absurd (omega arith)
left_heavy (fork a k2 v2 leaf) r k v (suc (suc n)) (h1, h2, aa, ab) ar fits tall fuel =
    levelled (fork a k2 v2 (fork leaf k v r))
      (left_once (suc n) a leaf r (fork leaf k v r) (fork a k2 v2 (fork leaf k v r)) k v k2 v2 fits
        (omega arith) (omega arith)
        (still n leaf r k v (omega arith) (omega arith) (omega arith) (omega arith))
        (still n a (fork leaf k v r) k2 v2 (omega arith) (omega arith) (omega arith) (omega arith)))
      (omega arith, omega arith, aa, (omega arith, omega arith, tt, ar)) (omega arith) (omega arith)
left_heavy (fork a k2 v2 leaf) r k v zero avl ar fits tall fuel = absurd (omega arith)
left_heavy (fork a k2 v2 leaf) r k v (suc zero) avl ar fits tall fuel = absurd (omega arith)
left_heavy (fork a k2 v2 (fork c k3 v3 e)) r k v n (h1, h2, aa, ab) ar fits tall fuel =
    elim (le-cases (height (fork c k3 v3 e)) (height a)) [
      | inl outer ↦
          subst
            (λ x.
              Levelled x (fork (fork a k2 v2 (fork c k3 v3 e)) k v r)
                (height (fork a k2 v2 (fork c k3 v3 e)))
                (suc (height (fork a k2 v2 (fork c k3 v3 e)))))
            (omega arith)
            (levelled (fork a k2 v2 (fork (fork c k3 v3 e) k v r))
              (left_once (suc (n - 2)) a (fork c k3 v3 e) r (fork (fork c k3 v3 e) k v r)
                (fork a k2 v2 (fork (fork c k3 v3 e) k v r)) k v k2 v2 fits (omega arith) outer
                (still (n - 2) (fork c k3 v3 e) r k v (omega arith) (omega arith) (omega arith)
                  (omega arith))
                (still (n - 2) a (fork (fork c k3 v3 e) k v r) k2 v2 (omega arith) (omega arith)
                  (omega arith) (omega arith)))
              (omega arith, omega arith, aa, (omega arith, omega arith, ab, ar)) (omega arith)
              (omega arith))
      | inr bent ↦
          subst
            (λ x.
              Levelled x (fork (fork a k2 v2 (fork c k3 v3 e)) k v r)
                (height (fork a k2 v2 (fork c k3 v3 e)))
                (suc (height (fork a k2 v2 (fork c k3 v3 e)))))
            (omega arith)
            (left_bent (n - 3) a c e r k v k2 v2 k3 v3 (h1, h2, aa, ab) ar fits tall bent
              (omega arith))
    ]

-- The heights of the sides differ by two at most.
abbrev pub Near : ℕ → Shape → Shape → Bytes → Bytes → Type 0
Near n l r k v =
    Levelled n (fork l k v r) (suc ((height l + height r + 1) / 2))
      (suc (max (height l) (height r)))

pub Levelled-imp :
    (n : ℕ) (s : Shape) (lo hi lo' hi' : ℕ)
    → Levelled n s lo hi
    → lo' ≤ lo
    → hi ≤ hi'
    → Levelled n s lo' hi'
Levelled-imp n s lo hi lo' hi' (levelled s' d avl low high) h1 h2 =
    levelled s' d avl (omega arith) (omega arith)

pub near :
    (l r : Shape) (k v : Bytes) (n : ℕ)
    → IsAvl l
    → IsAvl r
    → height l ≤ 127
    → height r ≤ 127
    → height l ≤ height r + 2
    → height r ≤ height l + 2
    → suc (fuel_for (max (height l) (height r))) ≤ n
    → Near n l r k v
near l r k v zero al ar fl fr lr rl fuel = absurd (omega arith)
near l r k v (suc n) al ar fl fr lr rl fuel = elim (le-cases (height l) (suc (height r))) [
  | inr left ↦
      Levelled-imp (suc n) (fork l k v r) (height l) (suc (height l)) _ _
        (left_heavy l r k v (suc n) al ar fl (omega arith) (omega arith)) (omega arith)
        (omega arith)
  | inl lr' ↦ elim (le-cases (height r) (suc (height l))) [
    | inr right ↦
        Levelled-imp (suc n) (fork l k v r) (height r) (suc (height r)) _ _
          (right_heavy l r k v (suc n) al ar fr (omega arith) (omega arith)) (omega arith)
          (omega arith)
    | inl rl' ↦
        levelled (fork l k v r) (still n l r k v fl fr lr' rl') (lr', rl', al, ar) (omega arith)
          (omega arith)
  ]
]
