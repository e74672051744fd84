-- ===== src/Tree/Ops/Balances.antt =====
-- `maybe_balance` and `rotate` (src/tree/ops.rs), said of shapes: a relation with one constructor for
-- each path through the code, and its effect on heights and contents.
use liftedmerk.Base.{ℕ, zero, suc, ◌+◌, ◌≤◌, ◌<◌, Bytes, arith}
use liftedmerk.Tree.Shape.{Shape, fork, height}

-- `Balances n s s'`: with recursion to depth `n`, balancing `s` gives `s'`. The heights of both
-- children are below 128, so that their difference is an `i8`.
pub data Balances : ℕ → Shape → Shape → Type 0 where
  still :
      (n : ℕ) (l r : Shape) (k v : Bytes)
      → height l ≤ 127
      → height r ≤ 127
      → height l ≤ suc (height r)
      → height r ≤ suc (height l)
      → Balances (suc n) (fork l k v r) (fork l k v r)
  left_once :
      (n : ℕ) (a b r x y : Shape) (k v k2 v2 : Bytes)
      → height (fork a k2 v2 b) ≤ 127
      → height r + 2 ≤ height (fork a k2 v2 b)
      → height b ≤ height a
      → Balances n (fork b k v r) x
      → Balances n (fork a k2 v2 x) y
      → Balances (suc n) (fork (fork a k2 v2 b) k v r) y
  left_twice :
      (n : ℕ) (a c e r x1 p q x y : Shape) (k v k2 v2 k3 v3 k4 v4 : Bytes)
      → height (fork a k2 v2 (fork c k3 v3 e)) ≤ 127
      → height r + 2 ≤ height (fork a k2 v2 (fork c k3 v3 e))
      → height a < height (fork c k3 v3 e)
      → Balances n (fork a k2 v2 c) x1
      → Balances n (fork x1 k3 v3 e) (fork p k4 v4 q)
      → Balances n (fork q k v r) x
      → Balances n (fork p k4 v4 x) y
      → Balances (suc n) (fork (fork a k2 v2 (fork c k3 v3 e)) k v r) y
  right_once :
      (n : ℕ) (l a b x y : Shape) (k v k2 v2 : Bytes)
      → height (fork a k2 v2 b) ≤ 127
      → height l + 2 ≤ height (fork a k2 v2 b)
      → height a < height b
      → Balances n (fork l k v a) x
      → Balances n (fork x k2 v2 b) y
      → Balances (suc n) (fork l k v (fork a k2 v2 b)) y
  right_twice :
      (n : ℕ) (l c e b x1 p q x y : Shape) (k v k2 v2 k3 v3 k4 v4 : Bytes)
      → height (fork (fork c k3 v3 e) k2 v2 b) ≤ 127
      → height l + 2 ≤ height (fork (fork c k3 v3 e) k2 v2 b)
      → height b ≤ height (fork c k3 v3 e)
      → Balances n (fork e k2 v2 b) x1
      → Balances n (fork c k3 v3 x1) (fork p k4 v4 q)
      → Balances n (fork l k v p) x
      → Balances n (fork x k4 v4 q) y
      → Balances (suc n) (fork l k v (fork (fork c k3 v3 e) k2 v2 b)) y

pub Balances-weaken : (n m : ℕ) {s s' : Shape} → Balances n s s' → n ≤ m → Balances m s s'
Balances-weaken zero m d h = elim d [ ]
Balances-weaken (suc n) zero d h = absurd (omega arith)
Balances-weaken (suc n) (suc m) (still _ l r k v a b c e) h = still m l r k v a b c e
Balances-weaken (suc n) (suc m) (left_once _ a b r x y k v k2 v2 h1 h2 h3 d1 d2) h =
    left_once m a b r x y k v k2 v2 h1 h2 h3 (Balances-weaken n m d1 (omega arith))
      (Balances-weaken n m d2 (omega arith))
Balances-weaken (suc n) (suc m)
      (left_twice _ a c e r x1 p q x y k v k2 v2 k3 v3 k4 v4 h1 h2 h3 d1 d2 d3 d4) h =
    left_twice m a c e r x1 p q x y k v k2 v2 k3 v3 k4 v4 h1 h2 h3
      (Balances-weaken n m d1 (omega arith)) (Balances-weaken n m d2 (omega arith))
      (Balances-weaken n m d3 (omega arith)) (Balances-weaken n m d4 (omega arith))
Balances-weaken (suc n) (suc m) (right_once _ l a b x y k v k2 v2 h1 h2 h3 d1 d2) h =
    right_once m l a b x y k v k2 v2 h1 h2 h3 (Balances-weaken n m d1 (omega arith))
      (Balances-weaken n m d2 (omega arith))
Balances-weaken (suc n) (suc m)
      (right_twice _ l c e b x1 p q x y k v k2 v2 k3 v3 k4 v4 h1 h2 h3 d1 d2 d3 d4) h =
    right_twice m l c e b x1 p q x y k v k2 v2 k3 v3 k4 v4 h1 h2 h3
      (Balances-weaken n m d1 (omega arith)) (Balances-weaken n m d2 (omega arith))
      (Balances-weaken n m d3 (omega arith)) (Balances-weaken n m d4 (omega arith))
