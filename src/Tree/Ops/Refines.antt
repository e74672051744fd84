-- ===== src/Tree/Ops/Refines.antt =====
-- `rotate` and `maybe_balance` (src/tree/ops.rs) on trees that stand for shapes, against `Balances`.
pub mod Balance
use liftedmerk.Base.{
  ℕ, zero, suc, ◌+◌, ◌-◌, ◌%◌, ◌≡◌, ◌≤◌, ◌<◌, ◌∙◌, refl, ap, max, Bytes, Bool, true, false, not,
  Option, none, some, Result, ok, ◌>>=◌, arith, ltb, leb, ◌||◌, ◌&&◌, ◌==◌, if◌then◌else◌,
}
use liftedmerk.Tree.Hash.{Hash, Hasher}
use liftedmerk.Tree.Types.{Kv, Tree, node, Slot, vacant, holds, Link}
use liftedmerk.Tree.Link
use liftedmerk.Tree.Node
use liftedmerk.Tree.Walk.{Fetch, detach, detach_expect, walk_expect}
use liftedmerk.Tree.Shape.{Shape, leaf, fork, height}
use liftedmerk.Tree.Ops.{
  rotate, maybe_double, maybe_balance, is_negative, is_positive, abs_at_most_one,
  slot_balance_factor, same_bool,
}
use liftedmerk.Tree.Ops.Balances.{Balances, still, left_once, left_twice, right_once, right_twice}
use liftedmerk.Tree.Ops.Holds.{
  pair, Holds, Stands, StandsMaybe, detach-Holds, detach_expect-Holds, attach-Holds,
  slot_height-Holds,
}

module _ ⦃h : Hasher⦄ (fetch : Fetch) where
  -- On trees that stand for `s` the function succeeds with a tree that stands for `s'`.
  abbrev pub Computes : (Tree → Result Tree) → Shape → Shape → Type 0
  Computes f s s' = (t : Tree) → Stands fetch s t → (t' : Tree) × (f t ≡ ok t') × Stands fetch s' t'

  pub some-Stands : (s : Shape) (t : Tree) → Stands fetch s t → StandsMaybe fetch s (some t)
  some-Stands leaf t stands = absurd stands
  some-Stands (fork l k v r) t (sl, sr, e, hl, hr) = (sl, sr, ap some e, hl, hr)

  rotate_runs :
      (balance : Tree → Result Tree) (left : Bool) (o : Option Tree) (t t0 t1 t2 t3 t4 t5 t6 : Tree)
      → detach_expect fetch t left ≡ ok (t0, t1)
      → detach fetch t1 (not left) ≡ ok (t2, o)
      → Node.attach t0 left o ≡ ok t3
      → balance t3 ≡ ok t4
      → Node.attach t2 (not left) (some t4) ≡ ok t5
      → balance t5 ≡ ok t6
      → rotate balance fetch t left ≡ ok t6
  unfolding rotate
  rotate_runs balance left o t t0 t1 t2 t3 t4 t5 t6 e1 e2 e3 e4 e5 e6 = rw (e1, e2, e3, e4, e5, e6)

  pub rotate_left :
      (balance : Tree → Result Tree) (a b r x y : Shape) (k v k2 v2 : Bytes)
      → height b ≤ 256
      → height x ≤ 256
      → Computes balance (fork b k v r) x
      → Computes balance (fork a k2 v2 x) y
      → Computes (λ t. rotate balance fetch t true) (fork (fork a k2 v2 b) k v r) y
  unfolding Node.link Node.set_slot
  rotate_left balance a b r x y k v k2 v2 small_b small_x inner outer t (sl, sr, is_t, hl, hr) =
      let (t1, e1, (sa, sb, is_t1, ha, hb)) =
        detach_expect-Holds fetch a b k2 v2 (node sl sr (pair k v)) true hl in
      let (o, e2, stands_b) = detach-Holds fetch b (node sa sb (pair k2 v2)) false hb in
      let (slot_b, e3, held_b) =
        attach-Holds fetch b (node vacant sr (pair k v)) true o refl stands_b small_b in
      let (tx, e4, stands_x) = inner (node slot_b sr (pair k v)) (slot_b, sr, refl, held_b, hr) in
      let (slot_x, e5, held_x) =
        attach-Holds fetch x (node sa vacant (pair k2 v2)) false (some tx) refl
          (some-Stands x tx stands_x) small_x in
      let (ty, e6, stands_y) = outer (node sa slot_x (pair k2 v2)) (sa, slot_x, refl, ha, held_x) in
      let child = rw is_t1 at e1 in
      (ty, rw is_t (rotate_runs balance true o _ _ _ _ _ tx _ ty child e2 e3 e4 e5 e6), stands_y)

  pub rotate_right :
      (balance : Tree → Result Tree) (l a b x y : Shape) (k v k2 v2 : Bytes)
      → height a ≤ 256
      → height x ≤ 256
      → Computes balance (fork l k v a) x
      → Computes balance (fork x k2 v2 b) y
      → Computes (λ t. rotate balance fetch t false) (fork l k v (fork a k2 v2 b)) y
  unfolding Node.link Node.set_slot
  rotate_right balance l a b x y k v k2 v2 small_a small_x inner outer t (sl, sr, is_t, hl, hr) =
      let (t1, e1, (sa, sb, is_t1, ha, hb)) =
        detach_expect-Holds fetch a b k2 v2 (node sl sr (pair k v)) false hr in
      let (o, e2, stands_a) = detach-Holds fetch a (node sa sb (pair k2 v2)) true ha in
      let (slot_a, e3, held_a) =
        attach-Holds fetch a (node sl vacant (pair k v)) false o refl stands_a small_a in
      let (tx, e4, stands_x) = inner (node sl slot_a (pair k v)) (sl, slot_a, refl, hl, held_a) in
      let (slot_x, e5, held_x) =
        attach-Holds fetch x (node vacant sb (pair k2 v2)) true (some tx) refl
          (some-Stands x tx stands_x) small_x in
      let (ty, e6, stands_y) = outer (node slot_x sb (pair k2 v2)) (slot_x, sb, refl, held_x, hb) in
      let child = rw is_t1 at e1 in
      (ty, rw is_t (rotate_runs balance false o _ _ _ _ _ tx _ ty child e2 e3 e4 e5 e6), stands_y)

  pub balance_factor-Holds :
      (l r : Shape) (sl sr : Slot) (kv : Kv)
      → Holds fetch l sl
      → Holds fetch r sr
      → height l ≤ 127
      → height r ≤ 127
      → Node.balance_factor (node sl sr kv) ≡ (height r + 256 - height l) % 256
  unfolding Node.balance_factor Node.child_height Node.link
  balance_factor-Holds l r sl sr kv hl hr small_l small_r =
      rw
        (
          slot_height-Holds fetch l sl hl (omega arith),
          slot_height-Holds fetch r sr hr (omega arith),
        )
        refl

  pub slot_balance_factor-Holds :
      (l r : Shape) (k v : Bytes) (slot : Slot)
      → Holds fetch (fork l k v r) slot
      → slot_balance_factor slot ≡ ok ((height r + 256 - height l) % 256)
  unfolding Link.balance_factor
  slot_balance_factor-Holds l r k v slot (link, sl, sr, e, got, fresh, hs, hl, hr) = rw (e, hs) refl

  -- The tests on the difference of two heights.
  pub close_test :
      (a b : ℕ)
      → a ≤ 127
      → b ≤ 127
      → a ≤ suc b
      → b ≤ suc a
      → abs_at_most_one ((b + 256 - a) % 256) ≡ true
  close_test a b ha hb ab ba = ground arith

  pub left_test :
      (a b : ℕ)
      → a ≤ 127
      → b + 2 ≤ a
      → (abs_at_most_one ((b + 256 - a) % 256) ≡ false) × (is_negative ((b + 256 - a) % 256) ≡ true)
  left_test a b ha ba = (ground arith, ground arith)

  pub right_test :
      (a b : ℕ)
      → b ≤ 127
      → a + 2 ≤ b
      → (abs_at_most_one ((b + 256 - a) % 256) ≡ false)
        × (is_negative ((b + 256 - a) % 256) ≡ false)
  right_test a b hb ab = (ground arith, ground arith)

  pub positive_test : (a b : ℕ) → b ≤ 127 → a < b → is_positive ((b + 256 - a) % 256) ≡ true
  positive_test a b hb ab = ground arith

  pub not_positive_test : (a b : ℕ) → a ≤ 127 → b ≤ a → is_positive ((b + 256 - a) % 256) ≡ false
  not_positive_test a b ha ba = ground arith

  pub maybe_double_once :
      (balance : Tree → Result Tree) (t : Tree) (left : Bool) (b : ℕ)
      → slot_balance_factor (Node.link t left) ≡ ok b
      → same_bool left (is_positive b) ≡ false
      → maybe_double balance fetch t left ≡ ok t
  unfolding maybe_double
  maybe_double_once balance t left b e1 e2 = rw (e1, e2)

  pub maybe_double_twice :
      (balance : Tree → Result Tree) (t t0 child child' t' : Tree) (left : Bool) (b : ℕ)
      → slot_balance_factor (Node.link t left) ≡ ok b
      → same_bool left (is_positive b) ≡ true
      → detach_expect fetch t left ≡ ok (t0, child)
      → rotate balance fetch child (not left) ≡ ok child'
      → Node.attach t0 left (some child') ≡ ok t'
      → maybe_double balance fetch t left ≡ ok t'
  unfolding maybe_double walk_expect
  maybe_double_twice balance t t0 child child' t' left b e1 e2 e3 e4 e5 = rw (e1, e2, e3, e4, e5)

  pub maybe_balance_runs :
      (n : ℕ) (t t' t'' : Tree) (b : ℕ) (left : Bool)
      → Node.balance_factor t ≡ b
      → abs_at_most_one b ≡ false
      → is_negative b ≡ left
      → maybe_double (maybe_balance n fetch) fetch t left ≡ ok t'
      → rotate (maybe_balance n fetch) fetch t' left ≡ ok t''
      → maybe_balance (suc n) fetch t ≡ ok t''
  unfolding maybe_balance
  maybe_balance_runs n t t' t'' b left e1 e2 e3 e4 e5 = rw (e1, e2, e3, e4, e5)

  pub maybe_balance_still :
      (n : ℕ) (t : Tree) (b : ℕ)
      → Node.balance_factor t ≡ b
      → abs_at_most_one b ≡ true
      → maybe_balance (suc n) fetch t ≡ ok t
  unfolding maybe_balance
  maybe_balance_still n t b e1 e2 = rw (e1, e2)
