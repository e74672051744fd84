-- ===== src/Tree/Ops/Remove/Root.antt =====
-- `promote_edge` and `remove` (src/tree/ops.rs) on balanced trees.
use liftedmerk.Base.{
  ℕ, ◌≡◌, ◌≤◌, ◌<◌, ◌++◌, ◌∙◌, refl, sym, append-nil, Bytes, true, false, Option, none, some, ok,
  suc, max, ltb, length, length-append, arith, Bool-cases, inl, inr,
}
use mathlib.Core.Path.{subst}
use liftedmerk.Tree.Hash.{Hasher}
use liftedmerk.Tree.Types.{Tree, node, Slot, vacant}
use liftedmerk.Tree.Node
use liftedmerk.Tree.Walk.{Fetch}
use liftedmerk.Tree.Shape.{Shape, leaf, fork, height}
use liftedmerk.Tree.Ops.{remove, is_held}
use liftedmerk.Tree.Ops.Avl.{IsAvl}
use liftedmerk.Tree.Ops.Contents.{contents}
use liftedmerk.Tree.Ops.Holds.{
  pair, Holds, Stands, StandsMaybe, detach_expect-Holds, slot_height-Holds,
}
use liftedmerk.Tree.Ops.Refines.{some-Stands}
use liftedmerk.Tree.Ops.Rebalance.{limit, length-contents, low_enough}
use liftedmerk.Tree.Ops.Remove.{remove_left_edge, remove_right_edge}
use liftedmerk.Tree.Ops.Remove.Promote.{
  Leaves, leaves, remove_both, remove_one, remove_alone, promote_right, promote_left,
}

less_test : (n : ℕ) → ltb 0 (suc n) ≡ true
less_test n = ground arith

not_less_test : (n : ℕ) → ltb (suc n) 0 ≡ false
not_less_test n = ground arith

module _ ⦃h : Hasher⦄ (fetch : Fetch) (n : ℕ) (fuel : 386 ≤ n) where
  held_test :
      (l r : Shape) (k v : Bytes) (slot : Slot)
      → Holds fetch (fork l k v r) slot
      → is_held slot ≡ true
  held_test l r k v slot held = rw held.3

  child_heights_test :
      (l r : Shape) (sl sr : Slot) (k v : Bytes)
      → Holds fetch l sl
      → Holds fetch r sr
      → height l ≤ 126
      → height r ≤ 126
      → ltb
          (Node.child_height (node sl sr (pair k v)) false)
          (Node.child_height (node sl sr (pair k v)) true)
        ≡ ltb (height r) (height l)
  unfolding Node.child_height Node.link
  child_heights_test l r sl sr k v hl hr fl fr =
      rw
        (
          slot_height-Holds fetch l sl hl (omega arith),
          slot_height-Holds fetch r sr hr (omega arith),
        )
        refl

  single_Stands :
      (l r : Shape) (k v : Bytes) (t : Tree)
      → Stands fetch (fork l k v r) t
      → StandsMaybe fetch (fork l k v r) (some t)
  single_Stands l r k v t stands = some-Stands fetch (fork l k v r) t stands

  abbrev Both :
      ℕ
      → Shape
      → Shape
      → Shape
      → Shape
      → Bytes
      → Bytes
      → Bytes
      → Bytes
      → Bytes
      → Bytes
      → Slot
      → Slot
      → Type 0
  Both depth a b c e k v k2 v2 k3 v3 sl sr =
      Leaves fetch n fuel (remove n fetch depth (node sl sr (pair k v)))
        (contents (fork a k2 v2 b) ++ contents (fork c k3 v3 e))

  remove_taller_left :
      (depth : ℕ) (a b c e : Shape) (k v k2 v2 k3 v3 : Bytes) (sl sr : Slot)
      → IsAvl (fork a k2 v2 b)
      → IsAvl (fork c k3 v3 e)
      → Holds fetch (fork a k2 v2 b) sl
      → Holds fetch (fork c k3 v3 e) sr
      → height (fork a k2 v2 b) ≤ depth
      → length (contents (fork (fork a k2 v2 b) k v (fork c k3 v3 e))) < limit
      → ltb (height (fork c k3 v3 e)) (height (fork a k2 v2 b)) ≡ true
      → Both depth a b c e k v k2 v2 k3 v3 sl sr
  unfolding Node.link Node.set_slot
  remove_taller_left depth a b c e k v k2 v2 k3 v3 sl sr al ar hl hr dl few taller =
      let l = fork a k2 v2 b in
      let r = fork c k3 v3 e in
      let sizes = length-contents (fork a k2 v2 b) (fork c k3 v3 e) k v in
      let low_l = low_enough (fork a k2 v2 b) al (omega (arith, sizes)) in
      let low_r = low_enough (fork c k3 v3 e) ar (omega (arith, sizes)) in
      let (tl, e1, stands_l) =
        detach_expect-Holds fetch a b k2 v2 (node sl sr (pair k v)) true hl in
      let (tr, e2, stands_r) =
        detach_expect-Holds fetch c e k3 v3 (node vacant sr (pair k v)) false hr in
      subst (λ x. Leaves fetch n fuel x (contents l ++ contents r))
        (sym (
          remove_both fetch n fuel depth (node sl sr (pair k v)) (node vacant sr (pair k v))
            (node vacant vacant (pair k v)) tl tr true (held_test a b k2 v2 sl hl)
            (held_test c e k3 v3 sr hr)
            (child_heights_test l r sl sr k v hl hr low_l low_r ∙ taller) e1 e2))
        (promote_right fetch n fuel depth l r tl tr
          (remove_right_edge fetch n fuel depth l tl stands_l al dl (omega (arith, sizes))) ar
          stands_r
          (omega
            (arith, sizes, length-append (contents (fork a k2 v2 b)) (contents (fork c k3 v3 e)))))

  remove_taller_right :
      (depth : ℕ) (a b c e : Shape) (k v k2 v2 k3 v3 : Bytes) (sl sr : Slot)
      → IsAvl (fork a k2 v2 b)
      → IsAvl (fork c k3 v3 e)
      → Holds fetch (fork a k2 v2 b) sl
      → Holds fetch (fork c k3 v3 e) sr
      → height (fork c k3 v3 e) ≤ depth
      → length (contents (fork (fork a k2 v2 b) k v (fork c k3 v3 e))) < limit
      → ltb (height (fork c k3 v3 e)) (height (fork a k2 v2 b)) ≡ false
      → Both depth a b c e k v k2 v2 k3 v3 sl sr
  unfolding Node.link Node.set_slot
  remove_taller_right depth a b c e k v k2 v2 k3 v3 sl sr al ar hl hr dr few lower =
      let l = fork a k2 v2 b in
      let r = fork c k3 v3 e in
      let sizes = length-contents (fork a k2 v2 b) (fork c k3 v3 e) k v in
      let low_l = low_enough (fork a k2 v2 b) al (omega (arith, sizes)) in
      let low_r = low_enough (fork c k3 v3 e) ar (omega (arith, sizes)) in
      let (tr, e1, stands_r) =
        detach_expect-Holds fetch c e k3 v3 (node sl sr (pair k v)) false hr in
      let (tl, e2, stands_l) =
        detach_expect-Holds fetch a b k2 v2 (node sl vacant (pair k v)) true hl in
      subst (λ x. Leaves fetch n fuel x (contents l ++ contents r))
        (sym (
          remove_both fetch n fuel depth (node sl sr (pair k v)) (node sl vacant (pair k v))
            (node vacant vacant (pair k v)) tr tl false (held_test a b k2 v2 sl hl)
            (held_test c e k3 v3 sr hr) (child_heights_test l r sl sr k v hl hr low_l low_r ∙ lower)
            e1 e2))
        (promote_left fetch n fuel depth l r tl tr
          (remove_left_edge fetch n fuel depth r tr stands_r ar dr (omega (arith, sizes))) al
          stands_l
          (omega
            (arith, sizes, length-append (contents (fork a k2 v2 b)) (contents (fork c k3 v3 e)))))

  remove_from :
      (depth : ℕ) (l r : Shape) (k v : Bytes) (sl sr : Slot)
      → IsAvl l
      → IsAvl r
      → Holds fetch l sl
      → Holds fetch r sr
      → height l ≤ depth
      → height r ≤ depth
      → length (contents (fork l k v r)) < limit
      → Leaves fetch n fuel
          (remove n fetch depth (node sl sr (pair k v)))
          (contents l ++ contents r)
  unfolding Node.link Node.set_slot
  remove_from depth leaf leaf k v sl sr al ar hl hr dl dr few =
      leaves leaf none (remove_alone fetch n fuel depth (node sl sr (pair k v)) (rw hl) (rw hr))
        refl tt (unfold contents in refl)
  remove_from depth (fork a k2 v2 b) leaf k v sl sr al ar hl hr dl dr few =
      let l = fork a k2 v2 b in
      let low =
        low_enough (fork a k2 v2 b) al (omega (arith, length-contents (fork a k2 v2 b) leaf k v)) in
      let (child, e, stands) =
        detach_expect-Holds fetch a b k2 v2 (node sl sr (pair k v)) true hl in
      leaves l (some child)
        (remove_one fetch n fuel depth (node sl sr (pair k v)) _ child true
          (held_test a b k2 v2 sl hl) (rw hr)
          (child_heights_test l leaf sl sr k v hl hr low (omega arith)
            ∙ less_test (max (height a) (height b)))
          e)
        (single_Stands a b k2 v2 child stands) al (unfold contents in sym (append-nil _))
  remove_from depth leaf (fork a k2 v2 b) k v sl sr al ar hl hr dl dr few =
      let r = fork a k2 v2 b in
      let low =
        low_enough (fork a k2 v2 b) ar (omega (arith, length-contents leaf (fork a k2 v2 b) k v)) in
      let (child, e, stands) =
        detach_expect-Holds fetch a b k2 v2 (node sl sr (pair k v)) false hr in
      leaves r (some child)
        (remove_one fetch n fuel depth (node sl sr (pair k v)) _ child false
          (held_test a b k2 v2 sr hr) (rw hl)
          (child_heights_test leaf r sl sr k v hl hr (omega arith) low
            ∙ not_less_test (max (height a) (height b)))
          e)
        (single_Stands a b k2 v2 child stands) ar (unfold contents in refl)
  remove_from depth (fork a k2 v2 b) (fork c k3 v3 e) k v sl sr al ar hl hr dl dr few =
      elim (Bool-cases (ltb (height (fork c k3 v3 e)) (height (fork a k2 v2 b)))) [
        | inl taller ↦
            remove_taller_left depth a b c e k v k2 v2 k3 v3 sl sr al ar hl hr dl few taller
        | inr lower ↦
            remove_taller_right depth a b c e k v k2 v2 k3 v3 sl sr al ar hl hr dr few lower
      ]

  -- With fuel 386, and depth for the children, `remove` succeeds on a node whose sides stand for
  -- balanced trees with fewer than 2^63 entries. What it leaves stands for a balanced tree, or for
  -- nothing, that has the entries of both sides in order.
  pub remove-contents :
      (depth : ℕ) (l r : Shape) (k v : Bytes) (sl sr : Slot)
      → IsAvl l
      → IsAvl r
      → Holds fetch l sl
      → Holds fetch r sr
      → height l ≤ depth
      → height r ≤ depth
      → length (contents (fork l k v r)) < limit
      → (s : Shape) × (o : Option Tree) × (remove n fetch depth (node sl sr (pair k v)) ≡ ok o)
        × StandsMaybe fetch s o
        × IsAvl s
        × (contents s ≡ contents l ++ contents r)
  remove-contents depth l r k v sl sr al ar hl hr dl dr few =
      elim (remove_from depth l r k v sl sr al ar hl hr dl dr few) [
        | leaves s o e stands avl same ↦ (s, o, e, stands, avl, same)
      ]
