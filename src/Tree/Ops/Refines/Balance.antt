-- ===== src/Tree/Ops/Refines/Balance.antt =====
-- `maybe_balance` (src/tree/ops.rs) computes what `Balances` derives.
use liftedmerk.Base.{ℕ, zero, suc, ◌+◌, ◌≤◌, ◌<◌, refl, ap, Bytes, true, false, not, some, arith}
use liftedmerk.Tree.Hash.{Hasher}
use liftedmerk.Tree.Types.{node, vacant}
use liftedmerk.Tree.Node
use liftedmerk.Tree.Walk.{Fetch}
use liftedmerk.Tree.Shape.{Shape, fork, height}
use liftedmerk.Tree.Ops.{maybe_balance, is_positive}
use liftedmerk.Tree.Ops.Balances.{Balances, still, left_once, left_twice, right_once, right_twice}
use liftedmerk.Tree.Ops.Holds.{pair, detach_expect-Holds, attach-Holds}
use liftedmerk.Tree.Ops.Refines.{
  Computes, some-Stands, rotate_left, rotate_right, balance_factor-Holds, slot_balance_factor-Holds,
  close_test, left_test, right_test, positive_test, not_positive_test, maybe_double_once,
  maybe_double_twice, maybe_balance_runs, maybe_balance_still,
}

-- Only sides of at most 127 levels are balanced.
sides_fit :
    (n : ℕ) {l r s' : Shape} {k v : Bytes}
    → Balances n (fork l k v r) s'
    → (height l ≤ 127) × (height r ≤ 127)
sides_fit zero d = elim d [ ]
sides_fit (suc n) (still _ l r k v a b c e) = (a, b)
sides_fit (suc n) (left_once _ a b r x y k v k2 v2 h1 h2 h3 d1 d2) = (h1, omega arith)
sides_fit (suc n) (left_twice _ a c e r x1 p q x y k v k2 v2 k3 v3 k4 v4 h1 h2 h3 d1 d2 d3 d4) =
    (h1, omega arith)
sides_fit (suc n) (right_once _ l a b x y k v k2 v2 h1 h2 h3 d1 d2) = (omega arith, h1)
sides_fit (suc n) (right_twice _ l c e b x1 p q x y k v k2 v2 k3 v3 k4 v4 h1 h2 h3 d1 d2 d3 d4) =
    (omega arith, h1)

module _ ⦃h : Hasher⦄ (fetch : Fetch) where
  still_Computes :
      (n : ℕ) (l r : Shape) (k v : Bytes)
      → height l ≤ 127
      → height r ≤ 127
      → height l ≤ suc (height r)
      → height r ≤ suc (height l)
      → Computes fetch (maybe_balance (suc n) fetch) (fork l k v r) (fork l k v r)
  still_Computes n l r k v fl fr lr rl t (sl, sr, is_t, hl, hr) = (
    t,
    rw is_t (
        maybe_balance_still fetch n _ _
          (balance_factor-Holds fetch l r sl sr (pair k v) hl hr fl fr)
          (close_test fetch (height l) (height r) fl fr lr rl)),
    (sl, sr, is_t, hl, hr),
  )

  left_once_Computes :
      (n : ℕ) (a b r y : Shape) (k v k2 v2 : Bytes)
      → height (fork a k2 v2 b) ≤ 127
      → height r + 2 ≤ height (fork a k2 v2 b)
      → height b ≤ height a
      → Computes fetch
          (λ t. liftedmerk.Tree.Ops.rotate (maybe_balance n fetch) fetch t true)
          (fork (fork a k2 v2 b) k v r)
          y
      → Computes fetch (maybe_balance (suc n) fetch) (fork (fork a k2 v2 b) k v r) y
  unfolding Node.link
  left_once_Computes n a b r y k v k2 v2 fits tall lean rotates t (sl, sr, is_t, hl, hr) =
      let (ty, e, stands) = rotates (node sl sr (pair k v)) (sl, sr, refl, hl, hr) in
      let (far, low) = left_test fetch (height (fork a k2 v2 b)) (height r) fits tall in
      (
        ty,
        rw is_t (
            maybe_balance_runs fetch n _ _ ty _ true
              (balance_factor-Holds fetch (fork a k2 v2 b) r sl sr (pair k v) hl hr fits
                (omega arith))
              far low
              (maybe_double_once fetch (maybe_balance n fetch) (node sl sr (pair k v)) true _
                (slot_balance_factor-Holds fetch a b k2 v2 sl hl)
                (not_positive_test fetch (height a) (height b) (omega arith) lean))
              e),
        stands,
      )

  right_once_Computes :
      (n : ℕ) (l a b y : Shape) (k v k2 v2 : Bytes)
      → height (fork a k2 v2 b) ≤ 127
      → height l + 2 ≤ height (fork a k2 v2 b)
      → height a < height b
      → Computes fetch
          (λ t. liftedmerk.Tree.Ops.rotate (maybe_balance n fetch) fetch t false)
          (fork l k v (fork a k2 v2 b))
          y
      → Computes fetch (maybe_balance (suc n) fetch) (fork l k v (fork a k2 v2 b)) y
  unfolding Node.link
  right_once_Computes n l a b y k v k2 v2 fits tall lean rotates t (sl, sr, is_t, hl, hr) =
      let (ty, e, stands) = rotates (node sl sr (pair k v)) (sl, sr, refl, hl, hr) in
      let (far, low) = right_test fetch (height l) (height (fork a k2 v2 b)) fits tall in
      let leans = positive_test fetch (height a) (height b) (omega arith) lean in
      (
        ty,
        rw is_t (
            maybe_balance_runs fetch n _ _ ty _ false
              (balance_factor-Holds fetch l (fork a k2 v2 b) sl sr (pair k v) hl hr (omega arith)
                fits)
              far low
              (maybe_double_once fetch (maybe_balance n fetch) (node sl sr (pair k v)) false _
                (slot_balance_factor-Holds fetch a b k2 v2 sr hr) (ap not leans))
              e),
        stands,
      )

  left_twice_Computes :
      (n : ℕ) (a b r l' y : Shape) (k v k2 v2 : Bytes)
      → height (fork a k2 v2 b) ≤ 127
      → height r + 2 ≤ height (fork a k2 v2 b)
      → height a < height b
      → height l' ≤ 256
      → Computes fetch
          (λ t. liftedmerk.Tree.Ops.rotate (maybe_balance n fetch) fetch t false)
          (fork a k2 v2 b)
          l'
      → Computes fetch
          (λ t. liftedmerk.Tree.Ops.rotate (maybe_balance n fetch) fetch t true)
          (fork l' k v r)
          y
      → Computes fetch (maybe_balance (suc n) fetch) (fork (fork a k2 v2 b) k v r) y
  unfolding Node.link Node.set_slot
  left_twice_Computes n a b r l' y k v k2 v2 fits tall lean small turns rotates t
        (sl, sr, is_t, hl, hr) =
      let (child, e1, stands_c) =
        detach_expect-Holds fetch a b k2 v2 (node sl sr (pair k v)) true hl in
      let (child', e2, stands_l) = turns child stands_c in
      let (slot, e3, held) =
        attach-Holds fetch l' (node vacant sr (pair k v)) true (some child') refl
          (some-Stands fetch l' child' stands_l) small in
      let (ty, e4, stands) = rotates (node slot sr (pair k v)) (slot, sr, refl, held, hr) in
      let (far, low) = left_test fetch (height (fork a k2 v2 b)) (height r) fits tall in
      (
        ty,
        rw is_t (
            maybe_balance_runs fetch n _ _ ty _ true
              (balance_factor-Holds fetch (fork a k2 v2 b) r sl sr (pair k v) hl hr fits
                (omega arith))
              far low
              (maybe_double_twice fetch (maybe_balance n fetch) (node sl sr (pair k v))
                (node vacant sr (pair k v)) child child' (node slot sr (pair k v)) true _
                (slot_balance_factor-Holds fetch a b k2 v2 sl hl)
                (positive_test fetch (height a) (height b) (omega arith) lean) e1 e2 e3)
              e4),
        stands,
      )

  right_twice_Computes :
      (n : ℕ) (l a b r' y : Shape) (k v k2 v2 : Bytes)
      → height (fork a k2 v2 b) ≤ 127
      → height l + 2 ≤ height (fork a k2 v2 b)
      → height b ≤ height a
      → height r' ≤ 256
      → Computes fetch
          (λ t. liftedmerk.Tree.Ops.rotate (maybe_balance n fetch) fetch t true)
          (fork a k2 v2 b)
          r'
      → Computes fetch
          (λ t. liftedmerk.Tree.Ops.rotate (maybe_balance n fetch) fetch t false)
          (fork l k v r')
          y
      → Computes fetch (maybe_balance (suc n) fetch) (fork l k v (fork a k2 v2 b)) y
  unfolding Node.link Node.set_slot
  right_twice_Computes n l a b r' y k v k2 v2 fits tall lean small turns rotates t
        (sl, sr, is_t, hl, hr) =
      let (child, e1, stands_c) =
        detach_expect-Holds fetch a b k2 v2 (node sl sr (pair k v)) false hr in
      let (child', e2, stands_r) = turns child stands_c in
      let (slot, e3, held) =
        attach-Holds fetch r' (node sl vacant (pair k v)) false (some child') refl
          (some-Stands fetch r' child' stands_r) small in
      let (ty, e4, stands) = rotates (node sl slot (pair k v)) (sl, slot, refl, hl, held) in
      let (far, low) = right_test fetch (height l) (height (fork a k2 v2 b)) fits tall in
      let leans = not_positive_test fetch (height a) (height b) (omega arith) lean in
      (
        ty,
        rw is_t (
            maybe_balance_runs fetch n _ _ ty _ false
              (balance_factor-Holds fetch l (fork a k2 v2 b) sl sr (pair k v) hl hr (omega arith)
                fits)
              far low
              (maybe_double_twice fetch (maybe_balance n fetch) (node sl sr (pair k v))
                (node sl vacant (pair k v)) child child' (node sl slot (pair k v)) false _
                (slot_balance_factor-Holds fetch a b k2 v2 sr hr) (ap not leans) e1 e2 e3)
              e4),
        stands,
      )

  -- If balancing is derived for a shape with recursion to some depth, then with as much fuel
  -- `maybe_balance` succeeds on a tree that stands for the shape, with a tree that stands for the
  -- balanced shape.
  pub maybe_balance-Balances :
      (n : ℕ) {s s' : Shape} → Balances n s s' → Computes fetch (maybe_balance n fetch) s s'
  maybe_balance-Balances zero d = elim d [ ]
  maybe_balance-Balances (suc n) (still _ l r k v a b c e) = still_Computes n l r k v a b c e
  maybe_balance-Balances (suc n) (left_once _ a b r x y k v k2 v2 h1 h2 h3 d1 d2) =
      left_once_Computes n a b r y k v k2 v2 h1 h2 h3 (
        rotate_left fetch (maybe_balance n fetch) a b r x y k v k2 v2 (omega arith)
          (omega (arith, sides_fit n d2)) (maybe_balance-Balances n d1)
          (maybe_balance-Balances n d2))
  maybe_balance-Balances (suc n) (right_once _ l a b x y k v k2 v2 h1 h2 h3 d1 d2) =
      right_once_Computes n l a b y k v k2 v2 h1 h2 h3 (
        rotate_right fetch (maybe_balance n fetch) l a b x y k v k2 v2 (omega arith)
          (omega (arith, sides_fit n d2)) (maybe_balance-Balances n d1)
          (maybe_balance-Balances n d2))
  maybe_balance-Balances (suc n)
        (left_twice _ a c e r x1 p q x y k v k2 v2 k3 v3 k4 v4 h1 h2 h3 d1 d2 d3 d4) =
      left_twice_Computes n a (fork c k3 v3 e) r (fork p k4 v4 q) y k v k2 v2 h1 h2 h3
        (omega (arith, sides_fit n d3, sides_fit n d4))
        (rotate_right fetch (maybe_balance n fetch) a c e x1 (fork p k4 v4 q) k2 v2 k3 v3
          (omega arith) (omega (arith, sides_fit n d2)) (maybe_balance-Balances n d1)
          (maybe_balance-Balances n d2))
        (rotate_left fetch (maybe_balance n fetch) p q r x y k v k4 v4
          (omega (arith, sides_fit n d3)) (omega (arith, sides_fit n d4))
          (maybe_balance-Balances n d3) (maybe_balance-Balances n d4))
  maybe_balance-Balances (suc n)
        (right_twice _ l c e b x1 p q x y k v k2 v2 k3 v3 k4 v4 h1 h2 h3 d1 d2 d3 d4) =
      right_twice_Computes n l (fork c k3 v3 e) b (fork p k4 v4 q) y k v k2 v2 h1 h2 h3
        (omega (arith, sides_fit n d3, sides_fit n d4))
        (rotate_left fetch (maybe_balance n fetch) c e b x1 (fork p k4 v4 q) k2 v2 k3 v3
          (omega arith) (omega (arith, sides_fit n d2)) (maybe_balance-Balances n d1)
          (maybe_balance-Balances n d2))
        (rotate_right fetch (maybe_balance n fetch) l p q x y k v k4 v4
          (omega (arith, sides_fit n d3)) (omega (arith, sides_fit n d4))
          (maybe_balance-Balances n d3) (maybe_balance-Balances n d4))
