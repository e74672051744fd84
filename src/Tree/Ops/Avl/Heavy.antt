-- ===== src/Tree/Ops/Avl/Heavy.antt =====
-- Balancing a node whose right side is too tall by two, and one whose left side is (src/tree/ops.rs).
use liftedmerk.Base.{ℕ, zero, suc, ◌+◌, ◌-◌, ◌≡◌, ◌≤◌, ◌<◌, inl, inr, Bytes, arith}
use mathlib.Core.Path.{subst}
use liftedmerk.Tree.Shape.{Shape, leaf, fork, height}
use liftedmerk.Tree.Ops.Balances.{Balances, still, left_once, left_twice, right_once, right_twice}
use liftedmerk.Tree.Ops.Avl.{
  IsAvl, le-cases, Right, climbed, settled, Turned, back, over, fuel_for, RightWorks, turn,
}

-- The second half of a double rotation, for each outcome of the first.
finish_rotated :
    (n : ℕ) (l c e b : Shape) (k v k2 v2 k3 v3 : Bytes)
    → IsAvl l
    → IsAvl (fork (fork c k3 v3 e) k2 v2 b)
    → height (fork (fork c k3 v3 e) k2 v2 b) ≤ 127
    → height (fork (fork c k3 v3 e) k2 v2 b) ≡ height l + 2
    → height b ≤ height (fork c k3 v3 e)
    → Turned (suc (suc n)) c e b k2 v2 k3 v3
    → Right (suc (suc (suc n))) l k v (fork c k3 v3 e) b k2 v2
finish_rotated n l c e b k v k2 v2 k3 v3 al (h1, h2, (ce, ec, ac, ae), ab) fits tall lean
      (over x p q k4 v4 d1 d2 ap' aq hp hq) =
    settled (fork l k v p) q k4 v4
      (right_twice (suc (suc n)) l c e b x p q (fork l k v p) (fork (fork l k v p) k4 v4 q) k v k2
        v2 k3 v3 k4 v4 fits (omega arith) lean d1 d2
        (still (suc n) l p k v (omega arith) (omega arith) (omega arith) (omega arith))
        (still (suc n) (fork l k v p) q k4 v4 (omega arith) (omega (arith, hq)) (omega (arith, hq))
          (omega (arith, hq))))
      (omega arith, omega arith, al, ap') aq (omega (arith, hq)) (omega (arith, hq))
      (omega (arith, hq)) (λ even. omega (arith, hq))
finish_rotated n l c e b k v k2 v2 k3 v3 al (h1, h2, (ce, ec, ac, ae), ab) fits tall lean
      (back x d1 d2 lower) =
    elim (le-cases (height (fork c k3 v3 e)) (height b)) [
      | inl level ↦ climbed (omega arith) (
          right_twice (suc (suc n)) l c e b x (fork c k3 v3 e) b (fork l k v (fork c k3 v3 e))
            (fork (fork l k v (fork c k3 v3 e)) k2 v2 b) k v k2 v2 k3 v3 k2 v2 fits (omega arith)
            lean d1 d2
            (still (suc n) l (fork c k3 v3 e) k v (omega arith) (omega arith) (omega arith)
              (omega arith))
            (still (suc n) (fork l k v (fork c k3 v3 e)) b k2 v2 (omega arith) (omega arith)
              (omega arith) (omega arith)))
      | inr leaning ↦
          let lower' = lower leaning in
          settled (fork l k v c) (fork e k2 v2 b) k3 v3
            (right_twice (suc (suc n)) l c e b x (fork c k3 v3 e) b (fork l k v (fork c k3 v3 e))
              (fork (fork l k v c) k3 v3 (fork e k2 v2 b)) k v k2 v2 k3 v3 k2 v2 fits (omega arith)
              lean d1 d2
              (still (suc n) l (fork c k3 v3 e) k v (omega arith) (omega arith) (omega arith)
                (omega arith))
              (left_twice (suc n) l c e b (fork l k v c) (fork l k v c) e (fork e k2 v2 b)
                (fork (fork l k v c) k3 v3 (fork e k2 v2 b)) k2 v2 k v k3 v3 k3 v3 (omega arith)
                (omega arith) (omega arith)
                (still n l c k v (omega arith) (omega arith) (omega arith) (omega arith))
                (still n (fork l k v c) e k3 v3 (omega arith) (omega arith) (omega arith)
                  (omega arith))
                (still n e b k2 v2 (omega arith) (omega arith) (omega arith) (omega arith))
                (still n (fork l k v c) (fork e k2 v2 b) k3 v3 (omega arith) (omega arith)
                  (omega arith) (omega arith))))
            (omega arith, omega arith, al, ac) (omega arith, omega arith, ae, ab) (omega arith)
            (omega arith) (omega arith) (λ even. omega arith)
    ]

heavier_step :
    (m : ℕ)
    → RightWorks m
    → (n : ℕ) (l a b : Shape) (k v k2 v2 : Bytes) → IsAvl l
    → IsAvl (fork a k2 v2 b)
    → height (fork a k2 v2 b) ≤ 127
    → height (fork a k2 v2 b) ≡ height l + 2
    → height (fork a k2 v2 b) ≤ suc m
    → fuel_for m ≤ suc (suc (suc n))
    → Right (suc (suc (suc (suc (suc n))))) l k v a b k2 v2
heavier_step m works n l leaf b k v k2 v2 al (h1, h2, aa, ab) fits tall small fuel =
    settled (fork l k v leaf) b k2 v2
      (right_once (suc (suc (suc (suc n)))) l leaf b (fork l k v leaf)
        (fork (fork l k v leaf) k2 v2 b) k v k2 v2 fits (omega arith) (omega arith)
        (still (suc (suc (suc n))) l leaf k v (omega arith) (omega arith) (omega arith)
          (omega arith))
        (still (suc (suc (suc n))) (fork l k v leaf) b k2 v2 (omega arith) (omega arith)
          (omega arith) (omega arith)))
      (omega arith, omega arith, al, tt) ab (omega arith) (omega arith) (omega arith)
      (λ even. omega arith)
heavier_step m works n l (fork c k3 v3 e) b k v k2 v2 al (h1, h2, aa, ab) fits tall small fuel =
    elim (le-cases (height b) (height (fork c k3 v3 e))) [
      | inl lean ↦
          finish_rotated (suc (suc n)) l c e b k v k2 v2 k3 v3 al (h1, h2, aa, ab) fits tall lean
            (turn m works n c e b k2 v2 k3 v3 (h1, h2, aa, ab) fits small lean fuel)
      | inr outer ↦
          let a = fork c k3 v3 e in
          settled (fork l k v a) b k2 v2
            (right_once (suc (suc (suc (suc n)))) l a b (fork l k v a) (fork (fork l k v a) k2 v2 b)
              k v k2 v2 fits (omega arith) outer
              (still (suc (suc (suc n))) l a k v (omega arith) (omega arith) (omega arith)
                (omega arith))
              (still (suc (suc (suc n))) (fork l k v a) b k2 v2 (omega arith) (omega arith)
                (omega arith) (omega arith)))
            (omega arith, omega arith, al, aa) ab (omega arith) (omega arith) (omega arith)
            (λ even. omega arith)
    ]

pub right_two : (m : ℕ) → RightWorks m
right_two zero l a b k v k2 v2 al aab fits tall small n fuel = absurd (omega arith)
right_two (suc m) l a b k v k2 v2 al aab fits tall small n fuel =
    subst (λ x. Right x l k v a b k2 v2) (omega arith)
      (heavier_step m (right_two m) (n - 5) l a b k v k2 v2 al aab fits tall small (omega arith))

-- Balanced sides were balanced: the result, with heights from `lo` to `hi`.
pub data Levelled (n : ℕ) (s : Shape) (lo hi : ℕ) : Type 0 where
  levelled :
      (s' : Shape)
      → Balances n s s'
      → IsAvl s'
      → lo ≤ height s'
      → height s' ≤ hi
      → Levelled n s lo hi

Right-Levelled :
    (n m : ℕ) (l a b : Shape) (k v k2 v2 : Bytes)
    → IsAvl l
    → IsAvl (fork a k2 v2 b)
    → height (fork a k2 v2 b) ≡ height l + 2
    → Right n l k v a b k2 v2
    → Levelled n
        (fork l k v (fork a k2 v2 b))
        (height (fork a k2 v2 b))
        (suc (height (fork a k2 v2 b)))
Right-Levelled n m l a b k v k2 v2 al (h1, h2, aa, ab) tall (climbed eq d) =
    levelled (fork (fork l k v a) k2 v2 b) d
      (omega arith, omega arith, (omega arith, omega arith, al, aa), ab) (omega arith) (omega arith)
Right-Levelled n m l a b k v k2 v2 al (h1, h2, aa, ab) tall
      (settled p q k3 v3 d ap' aq pq qp high even) =
    levelled (fork p k3 v3 q) d (pq, qp, ap', aq) (omega arith) (omega arith)

pub right_heavy :
    (l r : Shape) (k v : Bytes) (n : ℕ)
    → IsAvl l
    → IsAvl r
    → height r ≤ 127
    → height r ≡ height l + 2
    → fuel_for (height r) ≤ n
    → Levelled n (fork l k v r) (height r) (suc (height r))
right_heavy l leaf k v n al ar fits tall fuel = absurd (omega arith)
right_heavy l (fork a k2 v2 b) k v n al ar fits tall fuel =
    Right-Levelled n (height (fork a k2 v2 b)) l a b k v k2 v2 al ar tall
      (right_two (height (fork a k2 v2 b)) l a b k v k2 v2 al ar fits tall (omega arith) n fuel)

-- The left side leans right, so that its right child is taken apart first.
pub left_bent :
    (n : ℕ) (a c e r : Shape) (k v k2 v2 k3 v3 : Bytes)
    → IsAvl (fork a k2 v2 (fork c k3 v3 e))
    → IsAvl r
    → height (fork a k2 v2 (fork c k3 v3 e)) ≤ 127
    → height (fork a k2 v2 (fork c k3 v3 e)) ≡ height r + 2
    → height a < height (fork c k3 v3 e)
    → fuel_for (height (fork a k2 v2 (fork c k3 v3 e))) ≤ suc (suc n)
    → Levelled
        (suc (suc (suc n)))
        (fork (fork a k2 v2 (fork c k3 v3 e)) k v r)
        (height (fork a k2 v2 (fork c k3 v3 e)))
        (suc (height (fork a k2 v2 (fork c k3 v3 e))))
left_bent n a c e r k v k2 v2 k3 v3 (h1, h2, aa, (ce, ec, ac, ae)) ar fits tall bent fuel =
    elim (le-cases (height c) (height e)) [
      | inl outer ↦
          levelled (fork (fork a k2 v2 c) k3 v3 (fork e k v r))
            (left_twice (suc (suc n)) a c e r (fork a k2 v2 c) (fork a k2 v2 c) e (fork e k v r)
              (fork (fork a k2 v2 c) k3 v3 (fork e k v r)) k v k2 v2 k3 v3 k3 v3 fits (omega arith)
              bent (still (suc n) a c k2 v2 (omega arith) (omega arith) (omega arith) (omega arith))
              (still (suc n) (fork a k2 v2 c) e k3 v3 (omega arith) (omega arith) (omega arith)
                (omega arith))
              (still (suc n) e r k v (omega arith) (omega arith) (omega arith) (omega arith))
              (still (suc n) (fork a k2 v2 c) (fork e k v r) k3 v3 (omega arith) (omega arith)
                (omega arith) (omega arith)))
            (
              omega arith,
              omega arith,
              (omega arith, omega arith, aa, ac),
              (omega arith, omega arith, ae, ar),
            )
            (omega arith) (omega arith)
      | inr inner ↦
          elim (right_heavy a (fork (fork c k3 v3 e) k v r) k2 v2 (suc (suc n)) aa
            (omega arith, omega arith, (ce, ec, ac, ae), ar) (omega arith) (omega arith)
            (omega arith)) [
              | levelled s' d avl low high ↦
                  levelled s'
                    (left_twice (suc (suc n)) a c e r (fork a k2 v2 c) a (fork c k3 v3 e)
                      (fork (fork c k3 v3 e) k v r) s' k v k2 v2 k3 v3 k2 v2 fits (omega arith) bent
                      (still (suc n) a c k2 v2 (omega arith) (omega arith) (omega arith)
                        (omega arith))
                      (left_once (suc n) a c e (fork c k3 v3 e) (fork a k2 v2 (fork c k3 v3 e)) k3
                        v3 k2 v2 (omega arith) (omega arith) (omega arith)
                        (still n c e k3 v3 (omega arith) (omega arith) (omega arith) (omega arith))
                        (still n a (fork c k3 v3 e) k2 v2 (omega arith) (omega arith) (omega arith)
                          (omega arith)))
                      (still (suc n) (fork c k3 v3 e) r k v (omega arith) (omega arith)
                        (omega arith) (omega arith))
                      d)
                    avl (omega arith) (omega arith)
            ]
    ]
