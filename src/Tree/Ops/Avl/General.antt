-- ===== src/Tree/Ops/Avl/General.antt =====
-- Balancing a node whose sides are balanced, whatever their heights (src/tree/ops.rs).
use liftedmerk.Base.{ℕ, zero, suc, ◌+◌, ◌-◌, ◌*◌, ◌≤◌, ◌<◌, ◌⊎◌, inl, inr, max, Bytes, arith}
use mathlib.Core.Path.{subst}
use liftedmerk.Tree.Shape.{Shape, leaf, fork, height}
use liftedmerk.Tree.Ops.Balances.{still, left_once, left_twice, right_once, right_twice}
use liftedmerk.Tree.Ops.Avl.{IsAvl, le-cases, back, over, fuel_for, turn}
use liftedmerk.Tree.Ops.Avl.Heavy.{Levelled, levelled, right_two}
use liftedmerk.Tree.Ops.Avl.Near.{Levelled-imp, near}

abbrev Far : ℕ → Shape → Shape → Bytes → Bytes → Type 0
Far n l r k v =
    Levelled n (fork l k v r) (max (height l) (height r) - 1) (suc (max (height l) (height r)))

abbrev FarWorks : ℕ → Type 0
FarWorks m =
    (l r : Shape) (k v : Bytes) (n : ℕ)
    → IsAvl l
    → IsAvl r
    → height l ≤ m
    → height r ≤ m
    → m ≤ 126
    → 3 * m + 8 ≤ n
    → Far n l r k v

left_apart :
    (m : ℕ)
    → FarWorks m
    → (l r : Shape) (k v : Bytes) (n : ℕ) → IsAvl l
    → IsAvl r
    → height l ≤ suc m
    → suc m ≤ 126
    → height r + 3 ≤ height l
    → 3 * m + 8 ≤ suc (suc n)
    → Far (suc (suc (suc n))) l r k v
left_apart m works leaf r k v n al ar small fits tall fuel = absurd (omega arith)
left_apart m works (fork a k2 v2 b) r k v n (h1, h2, aa, ab) ar small fits tall fuel =
    elim (le-cases (height b) (height a)) [
      | inl outer ↦
          elim (works b r k v (suc (suc n)) ab ar (omega arith) (omega arith) (omega arith) fuel) [
            | levelled x d ax low high ↦
                elim (near a x k2 v2 (suc (suc n)) aa ax (omega arith) (omega arith) (omega arith)
                  (omega arith) (omega arith)) [
                    | levelled y d' ay low' high' ↦
                        levelled y
                          (left_once (suc (suc n)) a b r x y k v k2 v2 (omega arith) (omega arith)
                            outer d d')
                          ay (omega arith) (omega arith)
                  ]
          ]
      | inr bent ↦ far_bent b (h1, h2, aa, ab) small tall bent
    ]
  where
    far_bent :
        (b : Shape)
        → IsAvl (fork a k2 v2 b)
        → height (fork a k2 v2 b) ≤ suc m
        → height r + 3 ≤ height (fork a k2 v2 b)
        → height a < height b
        → Far (suc (suc (suc n))) (fork a k2 v2 b) r k v
    far_bent leaf avl small tall bent = absurd (omega arith)
    far_bent (fork c k3 v3 e) (h1, h2, aa, (ce, ec, ac, ae)) small tall bent =
        elim (le-cases (height c) (height e)) [
          | inl outer ↦
              elim (works e r k v (suc (suc n)) ae ar (omega arith) (omega arith) (omega arith)
                fuel) [
                  | levelled x d ax low high ↦
                      elim (near (fork a k2 v2 c) x k3 v3 (suc (suc n))
                        (omega arith, omega arith, aa, ac) ax (omega arith) (omega arith)
                        (omega arith) (omega arith) (omega arith)) [
                          | levelled y d' ay low' high' ↦
                              levelled y
                                (left_twice (suc (suc n)) a c e r (fork a k2 v2 c) (fork a k2 v2 c)
                                  e x y k v k2 v2 k3 v3 k3 v3 (omega arith) (omega arith) bent
                                  (still (suc n) a c k2 v2 (omega arith) (omega arith) (omega arith)
                                    (omega arith))
                                  (still (suc n) (fork a k2 v2 c) e k3 v3 (omega arith)
                                    (omega arith) (omega arith) (omega arith))
                                  d d')
                                ay (omega arith) (omega arith)
                        ]
                ]
          | inr inner ↦
              elim (works (fork c k3 v3 e) r k v (suc (suc n)) (ce, ec, ac, ae) ar (omega arith)
                (omega arith) (omega arith) fuel) [
                  | levelled x d ax low high ↦
                      elim (near a x k2 v2 (suc (suc n)) aa ax (omega arith) (omega arith)
                        (omega arith) (omega arith) (omega arith)) [
                          | levelled y d' ay low' high' ↦
                              levelled y
                                (left_twice (suc (suc n)) a c e r (fork a k2 v2 c) a
                                  (fork c k3 v3 e) x y k v k2 v2 k3 v3 k2 v2 (omega arith)
                                  (omega arith) bent
                                  (still (suc n) a c k2 v2 (omega arith) (omega arith) (omega arith)
                                    (omega arith))
                                  (left_once (suc n) a c e (fork c k3 v3 e)
                                    (fork a k2 v2 (fork c k3 v3 e)) k3 v3 k2 v2 (omega arith)
                                    (omega arith) (omega arith)
                                    (still n c e k3 v3 (omega arith) (omega arith) (omega arith)
                                      (omega arith))
                                    (still n a (fork c k3 v3 e) k2 v2 (omega arith) (omega arith)
                                      (omega arith) (omega arith)))
                                  d d')
                                ay (omega arith) (omega arith)
                        ]
                ]
        ]

right_apart :
    (m : ℕ)
    → FarWorks m
    → (l r : Shape) (k v : Bytes) (n : ℕ) → IsAvl l
    → IsAvl r
    → height r ≤ suc m
    → suc m ≤ 126
    → height l + 3 ≤ height r
    → 3 * m + 8 ≤ suc (suc (suc (suc n)))
    → Far (suc (suc (suc (suc (suc n))))) l r k v
right_apart m works l leaf k v n al ar small fits tall fuel = absurd (omega arith)
right_apart m works l (fork leaf k2 v2 b) k v n al (h1, h2, aa, ab) small fits tall fuel =
    absurd (omega arith)
right_apart m works l (fork (fork c k3 v3 e) k2 v2 b) k v n al (h1, h2, aa, ab) small fits tall
      fuel =
    let a = fork c k3 v3 e in
    let n4 = suc (suc (suc (suc n))) in
    elim (le-cases (height b) (height a)) [
      | inr outer ↦ elim (works l a k v n4 al aa (omega arith) (omega arith) (omega arith) fuel) [
        | levelled x d ax low high ↦
            elim (near x b k2 v2 n4 ax ab (omega arith) (omega arith) (omega arith) (omega arith)
              (omega arith)) [
                | levelled y d' ay low' high' ↦
                    levelled y
                      (right_once n4 l a b x y k v k2 v2 (omega arith) (omega arith) outer d d') ay
                      (omega arith) (omega arith)
              ]
      ]
      | inl lean ↦
          elim (turn m (right_two m) n c e b k2 v2 k3 v3 (h1, h2, aa, ab) (omega arith)
            (omega arith) lean (omega arith)) [
              | back x1 d1 d2 lower ↦
                  elim (works l a k v n4 al aa (omega arith) (omega arith) (omega arith) fuel) [
                    | levelled x d ax low high ↦
                        elim (near x b k2 v2 n4 ax ab (omega arith) (omega arith) (omega arith)
                          (omega arith) (omega arith)) [
                            | levelled y d' ay low' high' ↦
                                levelled y
                                  (right_twice n4 l c e b x1 a b x y k v k2 v2 k3 v3 k2 v2
                                    (omega arith) (omega arith) lean d1 d2 d d')
                                  ay (omega arith) (omega arith)
                          ]
                  ]
              | over x1 p q k4 v4 d1 d2 ap' aq hp hq ↦
                  elim (works l p k v n4 al ap' (omega arith) (omega arith) (omega arith) fuel) [
                    | levelled x d ax low high ↦
                        elim (near x q k4 v4 n4 ax aq (omega arith) (omega (arith, hq))
                          (omega (arith, hq)) (omega (arith, hq)) (omega (arith, hq))) [
                            | levelled y d' ay low' high' ↦
                                levelled y
                                  (right_twice n4 l c e b x1 p q x y k v k2 v2 k3 v3 k4 v4
                                    (omega arith) (omega arith) lean d1 d2 d d')
                                  ay (omega (arith, hq)) (omega (arith, hq))
                          ]
                  ]
            ]
    ]

apart :
    (m : ℕ)
    → FarWorks m
    → (l r : Shape) (k v : Bytes) (n : ℕ) → IsAvl l
    → IsAvl r
    → height l ≤ suc m
    → height r ≤ suc m
    → suc m ≤ 126
    → 3 * suc m + 8 ≤ n
    → (height r + 3 ≤ height l) ⊎ (height l + 3 ≤ height r)
    → Far n l r k v
apart m works l r k v n al ar sl sr fits fuel (inl tall) =
    subst (λ x. Far x l r k v) (omega arith)
      (left_apart m works l r k v (n - 3) al ar sl fits tall (omega arith))
apart m works l r k v n al ar sl sr fits fuel (inr tall) =
    subst (λ x. Far x l r k v) (omega arith)
      (right_apart m works l r k v (n - 5) al ar sr fits tall (omega arith))

near-Far :
    (l r : Shape) (k v : Bytes) (n : ℕ)
    → IsAvl l
    → IsAvl r
    → height l ≤ 127
    → height r ≤ 127
    → height l ≤ height r + 2
    → height r ≤ height l + 2
    → suc (fuel_for (max (height l) (height r))) ≤ n
    → Far n l r k v
near-Far l r k v n al ar fl fr lr rl fuel =
    Levelled-imp n (fork l k v r) _ _ _ _ (near l r k v n al ar fl fr lr rl fuel) (omega arith)
      (omega arith)

far : (m : ℕ) → FarWorks m
far zero l r k v n al ar sl sr fits fuel =
    near-Far l r k v n al ar (omega arith) (omega arith) (omega arith) (omega arith) (omega arith)
far (suc m) l r k v n al ar sl sr fits fuel = elim (le-cases (height l) (height r + 2)) [
  | inl lr ↦ elim (le-cases (height r) (height l + 2)) [
    | inl rl ↦ near-Far l r k v n al ar (omega arith) (omega arith) lr rl (omega arith)
    | inr right ↦ apart m (far m) l r k v n al ar sl sr fits fuel (inr (omega arith))
  ]
  | inr left ↦ apart m (far m) l r k v n al ar sl sr fits fuel (inl (omega arith))
]

-- Sides of at most 126 levels, balanced themselves, can be balanced with recursion to depth 386.
pub balances :
    (l r : Shape) (k v : Bytes) (n : ℕ)
    → IsAvl l
    → IsAvl r
    → height l ≤ 126
    → height r ≤ 126
    → 386 ≤ n
    → Far n l r k v
balances l r k v n al ar fl fr fuel = far 126 l r k v n al ar fl fr (omega arith) (omega arith)
