-- ===== src/Tree/Ops/Avl.antt =====
-- Balancing (src/tree/ops.rs) on shapes with balanced sides: what `Balances` makes of them.
pub mod Heavy
pub mod Near
pub mod General
use liftedmerk.Base.{ℕ, zero, suc, ◌+◌, ◌≡◌, ◌≤◌, ◌<◌, ◌⊎◌, inl, inr, refl, max, Bytes, arith}
use liftedmerk.Tree.Shape.{Shape, leaf, fork, height}
use liftedmerk.Tree.Ops.Balances.{
  Balances, still, left_once, left_twice, right_once, right_twice, Balances-weaken,
}

-- The heights of the two sides of every node differ by one at most.
abbrev pub IsAvl : Shape → Type 0
IsAvl leaf = Unit {0}
IsAvl (fork l k v r) = (height l ≤ suc (height r)) × (height r ≤ suc (height l)) × IsAvl l × IsAvl r

order-cases : (a b : ℕ) → (a < b) ⊎ ((a ≡ b) ⊎ (b < a))
order-cases a b = ground arith

pub le-cases : (a b : ℕ) → (a ≤ b) ⊎ (b < a)
le-cases a b = ground arith

-- The outcome of balancing at a right side that is too tall by two.
data Right (n : ℕ) (l : Shape) (k v : Bytes) (a b : Shape) (k2 v2 : Bytes) : Type 0 where
  climbed :
      height a ≡ height b
      → Balances n (fork l k v (fork a k2 v2 b)) (fork (fork l k v a) k2 v2 b)
      → Right n l k v a b k2 v2
  settled :
      (p q : Shape) (k3 v3 : Bytes)
      → Balances n (fork l k v (fork a k2 v2 b)) (fork p k3 v3 q)
      → IsAvl p
      → IsAvl q
      → height p ≤ suc (height q)
      → height q ≤ suc (height p)
      → height (fork p k3 v3 q) ≡ suc (max (height a) (height b))
      → (height a ≡ height b → height p ≡ height q)
      → Right n l k v a b k2 v2

-- The outcome of the first rotation of a double one, at a right side that does not lean to the right.
data Turned (n : ℕ) (c e b : Shape) (k2 v2 k3 v3 : Bytes) : Type 0 where
  back :
      (x : Shape)
      → Balances n (fork e k2 v2 b) x
      → Balances n (fork c k3 v3 x) (fork (fork c k3 v3 e) k2 v2 b)
      → (height b < height (fork c k3 v3 e) → height c ≤ height e)
      → Turned n c e b k2 v2 k3 v3
  over :
      (x p q : Shape) (k4 v4 : Bytes)
      → Balances n (fork e k2 v2 b) x
      → Balances n (fork c k3 v3 x) (fork p k4 v4 q)
      → IsAvl p
      → IsAvl q
      → height p + 1 ≡ height (fork c k3 v3 e)
      → (height q ≡ height (fork c k3 v3 e))
        ⊎ ((height q + 1 ≡ height (fork c k3 v3 e)) × (height b < height (fork c k3 v3 e)))
      → Turned n c e b k2 v2 k3 v3

-- The fuel for a side of height `m`.
abbrev fuel_for : ℕ → ℕ
fuel_for m = m + m + 4

abbrev RightWorks : ℕ → Type 0
RightWorks m =
    (l a b : Shape) (k v k2 v2 : Bytes)
    → IsAvl l
    → IsAvl (fork a k2 v2 b)
    → height (fork a k2 v2 b) ≤ 127
    → height (fork a k2 v2 b) ≡ height l + 2
    → height (fork a k2 v2 b) ≤ m
    → (n : ℕ) → fuel_for m ≤ n
    → Right n l k v a b k2 v2

-- A double-rotation's first half that leaves the balanced root in place.
turn_still :
    (n : ℕ) (c e b : Shape) (k2 v2 k3 v3 : Bytes)
    → IsAvl c
    → IsAvl e
    → IsAvl b
    → height (fork (fork c k3 v3 e) k2 v2 b) ≤ 127
    → height (fork c k3 v3 e) ≡ height b
    → height c ≤ height e
    → height e ≤ suc (height c)
    → Turned (suc (suc n)) c e b k2 v2 k3 v3
turn_still n c e b k2 v2 k3 v3 ac ae ab fits same ce ec =
    back (fork e k2 v2 b)
      (still (suc n) e b k2 v2 (omega arith) (omega arith) (omega arith) (omega arith))
      (right_once (suc n) c e b (fork c k3 v3 e) (fork (fork c k3 v3 e) k2 v2 b) k3 v3 k2 v2
        (omega arith) (omega arith) (omega arith)
        (still n c e k3 v3 (omega arith) (omega arith) (omega arith) (omega arith))
        (still n (fork c k3 v3 e) b k2 v2 (omega arith) (omega arith) (omega arith) (omega arith)))
      (λ lower. absurd (omega arith))

-- The left grandchild leans left, so that what it hands over overloads the other side.
turn_heavy :
    (m : ℕ)
    → RightWorks m
    → (n : ℕ) (c e b1 b2 : Shape) (k2 v2 k3 v3 kb vb : Bytes) → IsAvl c
    → IsAvl e
    → IsAvl (fork b1 kb vb b2)
    → height (fork (fork c k3 v3 e) k2 v2 (fork b1 kb vb b2)) ≤ 127
    → height (fork (fork c k3 v3 e) k2 v2 (fork b1 kb vb b2)) ≤ suc m
    → height (fork c k3 v3 e) ≡ height (fork b1 kb vb b2)
    → height c ≡ suc (height e)
    → fuel_for m ≤ suc (suc (suc n))
    → Turned (suc (suc (suc (suc n)))) c e (fork b1 kb vb b2) k2 v2 k3 v3
turn_heavy m works n c e b1 b2 k2 v2 k3 v3 kb vb ac ae ab fits small same ce fuel =
    elim (works e b1 b2 k2 v2 kb vb ae ab (omega arith) (omega arith) (omega arith)
      (suc (suc (suc n))) fuel) [
        | climbed eq d ↦
            back (fork (fork e k2 v2 b1) kb vb b2)
              (Balances-weaken (suc (suc (suc n))) (suc (suc (suc (suc n)))) d (omega arith))
              (right_twice (suc (suc (suc n))) c e b1 b2 (fork b1 kb vb b2) (fork e k2 v2 b1) b2
                (fork c k3 v3 (fork e k2 v2 b1)) (fork (fork c k3 v3 e) k2 v2 (fork b1 kb vb b2)) k3
                v3 kb vb k2 v2 kb vb (omega arith) (omega arith) (omega arith)
                (still (suc (suc n)) b1 b2 kb vb (omega arith) (omega arith) (omega arith)
                  (omega arith))
                d
                (still (suc (suc n)) c (fork e k2 v2 b1) k3 v3 (omega arith) (omega arith)
                  (omega arith) (omega arith))
                (left_twice (suc (suc n)) c e b1 b2 (fork c k3 v3 e) (fork c k3 v3 e) b1
                  (fork b1 kb vb b2) (fork (fork c k3 v3 e) k2 v2 (fork b1 kb vb b2)) kb vb k3 v3 k2
                  v2 k2 v2 (omega arith) (omega arith) (omega arith)
                  (still (suc n) c e k3 v3 (omega arith) (omega arith) (omega arith) (omega arith))
                  (still (suc n) (fork c k3 v3 e) b1 k2 v2 (omega arith) (omega arith) (omega arith)
                    (omega arith))
                  (still (suc n) b1 b2 kb vb (omega arith) (omega arith) (omega arith)
                    (omega arith))
                  (still (suc n) (fork c k3 v3 e) (fork b1 kb vb b2) k2 v2 (omega arith)
                    (omega arith) (omega arith) (omega arith))))
              (λ lower. absurd (omega arith))
        | settled p q k4 v4 d ap' aq pq qp tall even ↦
            over (fork p k4 v4 q) c (fork p k4 v4 q) k3 v3
              (Balances-weaken (suc (suc (suc n))) (suc (suc (suc (suc n)))) d (omega arith))
              (still (suc (suc (suc n))) c (fork p k4 v4 q) k3 v3 (omega arith) (omega arith)
                (omega arith) (omega arith))
              ac (pq, qp, ap', aq) (omega arith) (inl (omega arith))
      ]

-- The right side leans left.
turn_leaning :
    (m : ℕ)
    → RightWorks m
    → (n : ℕ) (c e b : Shape) (k2 v2 k3 v3 : Bytes) → IsAvl c
    → IsAvl e
    → IsAvl b
    → height c ≤ suc (height e)
    → height e ≤ suc (height c)
    → height (fork (fork c k3 v3 e) k2 v2 b) ≤ 127
    → height (fork (fork c k3 v3 e) k2 v2 b) ≤ suc m
    → height (fork c k3 v3 e) ≡ suc (height b)
    → fuel_for m ≤ suc n
    → Turned (suc (suc n)) c e b k2 v2 k3 v3
turn_leaning m works n c e b k2 v2 k3 v3 ac ae ab ce ec fits small lean fuel =
    elim (le-cases (height e) (height c)) [
      | inl low ↦
          over (fork e k2 v2 b) c (fork e k2 v2 b) k3 v3
            (still (suc n) e b k2 v2 (omega arith) (omega arith) (omega arith) (omega arith))
            (still (suc n) c (fork e k2 v2 b) k3 v3 (omega arith) (omega arith) (omega arith)
              (omega arith))
            ac (omega arith, omega arith, ae, ab) (omega arith) (inl (omega arith))
      | inr high ↦
          elim (works c e b k3 v3 k2 v2 ac (omega arith, omega arith, ae, ab) (omega arith)
            (omega arith) (omega arith) (suc n) fuel) [
              | climbed eq d ↦
                  back (fork e k2 v2 b)
                    (still (suc n) e b k2 v2 (omega arith) (omega arith) (omega arith)
                      (omega arith))
                    (Balances-weaken (suc n) (suc (suc n)) d (omega arith)) (λ lower. omega arith)
              | settled p q k4 v4 d ap' aq pq qp tall even ↦
                  let level = even (omega arith) in
                  over (fork e k2 v2 b) p q k4 v4
                    (still (suc n) e b k2 v2 (omega arith) (omega arith) (omega arith)
                      (omega arith))
                    (Balances-weaken (suc n) (suc (suc n)) d (omega arith)) ap' aq (omega arith)
                    (inr (omega arith, omega arith))
            ]
    ]

turn :
    (m : ℕ)
    → RightWorks m
    → (n : ℕ) (c e b : Shape) (k2 v2 k3 v3 : Bytes) → IsAvl (fork (fork c k3 v3 e) k2 v2 b)
    → height (fork (fork c k3 v3 e) k2 v2 b) ≤ 127
    → height (fork (fork c k3 v3 e) k2 v2 b) ≤ suc m
    → height b ≤ height (fork c k3 v3 e)
    → fuel_for m ≤ suc (suc (suc n))
    → Turned (suc (suc (suc (suc n)))) c e b k2 v2 k3 v3
turn m works n c e leaf k2 v2 k3 v3 (h1, h2, (ce, ec, ac, ae), ab) fits small lean fuel =
    turn_leaning m works (suc (suc n)) c e leaf k2 v2 k3 v3 ac ae ab ce ec fits small (omega arith)
      fuel
turn m works n c e (fork b1 kb vb b2) k2 v2 k3 v3 (h1, h2, (ce, ec, ac, ae), ab) fits small lean
      fuel =
    elim (le-cases (height (fork c k3 v3 e)) (height (fork b1 kb vb b2))) [
      | inl level ↦ elim (le-cases (height c) (height e)) [
        | inl low ↦
            turn_still (suc (suc n)) c e (fork b1 kb vb b2) k2 v2 k3 v3 ac ae ab fits (omega arith)
              low ec
        | inr high ↦
            turn_heavy m works n c e b1 b2 k2 v2 k3 v3 kb vb ac ae ab fits small (omega arith)
              (omega arith) fuel
      ]
      | inr leaning ↦
          turn_leaning m works (suc (suc n)) c e (fork b1 kb vb b2) k2 v2 k3 v3 ac ae ab ce ec fits
            small (omega arith) fuel
    ]
