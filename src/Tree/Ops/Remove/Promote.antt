-- ===== src/Tree/Ops/Remove/Promote.antt =====
-- `promote_edge` (src/tree/ops.rs) on balanced trees, and the paths through `remove`.
use liftedmerk.Base.{
  ℕ, ◌≡◌, ◌≤◌, ◌<◌, ◌∷◌, ◌++◌, [], ◌∙◌, refl, sym, ap, append_assoc, List, Bytes, Bool, true, false,
  not, Option, none, some, Result, ok, ◌>>=◌, ltb, length, arith,
}
use liftedmerk.Tree.Hash.{Hasher}
use liftedmerk.Tree.Types.{Tree, node, Slot, vacant}
use liftedmerk.Tree.Node
use liftedmerk.Tree.Walk.{Fetch, detach_expect}
use liftedmerk.Tree.Shape.{Shape, fork}
use liftedmerk.Tree.Ops.{maybe_balance, remove_edge, promote_edge, remove, is_held}
use liftedmerk.Tree.Ops.Avl.{IsAvl}
use liftedmerk.Tree.Ops.Contents.{contents}
use liftedmerk.Tree.Ops.Holds.{pair, Holds, Stands, StandsMaybe, attach-Holds}
use liftedmerk.Tree.Ops.Refines.{some-Stands}
use liftedmerk.Tree.Ops.Rebalance.{limit, length-contents, low_enough, rebalance}
use liftedmerk.Tree.Ops.Remove.{EdgeRemoved}

module _ ⦃h : Hasher⦄ (fetch : Fetch) (n : ℕ) (fuel : 386 ≤ n) where
  -- A function succeeds with a balanced tree of these entries, if there are any.
  pub data Leaves (result : Result (Option Tree)) (es : List (Bytes × Bytes)) : Type 0 where
    leaves :
        (s : Shape) (o : Option Tree)
        → result ≡ ok o
        → StandsMaybe fetch s o
        → IsAvl s
        → contents s ≡ es
        → Leaves result es

  promote_runs :
      (left : Bool) (depth : ℕ) (t attached edge e1 e2 t' : Tree) (o : Option Tree)
      → remove_edge n fetch depth t left ≡ ok (edge, o)
      → Node.attach edge (not left) o ≡ ok e1
      → Node.attach e1 left (some attached) ≡ ok e2
      → maybe_balance n fetch e2 ≡ ok t'
      → promote_edge n fetch depth t left attached ≡ ok t'
  unfolding promote_edge
  promote_runs left depth t attached edge e1 e2 t' o r1 r2 r3 r4 = rw (r1, r2, r3, r4)

  pub remove_both :
      (depth : ℕ) (t t0 t1 tall short : Tree) (left : Bool)
      → is_held (Node.link t true) ≡ true
      → is_held (Node.link t false) ≡ true
      → ltb (Node.child_height t false) (Node.child_height t true) ≡ left
      → detach_expect fetch t left ≡ ok (t0, tall)
      → detach_expect fetch t0 (not left) ≡ ok (t1, short)
      → remove n fetch depth t
        ≡ (promote_edge n fetch depth tall (not left) short >>= λ t'. ok (some t'))
  unfolding remove
  remove_both depth t t0 t1 tall short left a b c d e = rw (remove, a, b, c, d, e)

  pub remove_one :
      (depth : ℕ) (t t0 child : Tree) (left : Bool)
      → is_held (Node.link t left) ≡ true
      → is_held (Node.link t (not left)) ≡ false
      → ltb (Node.child_height t false) (Node.child_height t true) ≡ left
      → detach_expect fetch t left ≡ ok (t0, child)
      → remove n fetch depth t ≡ ok (some child)
  unfolding remove
  remove_one depth t t0 child true a b c d = rw (remove, a, b, c, d)
  remove_one depth t t0 child false a b c d = rw (remove, a, b, c, d)

  pub remove_alone :
      (depth : ℕ) (t : Tree)
      → is_held (Node.link t true) ≡ false
      → is_held (Node.link t false) ≡ false
      → remove n fetch depth t ≡ ok none
  unfolding remove
  remove_alone depth t a b = rw (remove, a, b)

  -- The edge of a child takes the root's place.
  joined :
      (l r : Shape) (k v : Bytes) (sl sr : Slot) (result : Result Tree) (es : List (Bytes × Bytes))
      → IsAvl l
      → IsAvl r
      → Holds fetch l sl
      → Holds fetch r sr
      → length (contents (fork l k v r)) < limit
      → contents (fork l k v r) ≡ es
      → ((t' : Tree) → maybe_balance n fetch (node sl sr (pair k v)) ≡ ok t' → result ≡ ok t')
      → Leaves (result >>= λ t. ok (some t)) es
  joined l r k v sl sr result es al ar hl hr few same runs =
      let (s', t', e, stands, avl, kept) = rebalance fetch n l r k v sl sr fuel al ar few hl hr in
      let done = runs t' e in
      leaves s' (some t') (rw done) (some-Stands fetch s' t' stands) avl (kept ∙ same)

  -- The right edge of the left child, with what is left of that child.
  pub promote_right :
      (depth : ℕ) (l r : Shape) (tl tr : Tree)
      → EdgeRemoved fetch n fuel false depth l tl
      → IsAvl r
      → Stands fetch r tr
      → length (contents l ++ contents r) < limit
      → Leaves
          (promote_edge n fetch depth tl false tr >>= λ t. ok (some t))
          (contents l ++ contents r)
  unfolding Node.link Node.set_slot contents
  promote_right depth l r tl tr (l', o, k, v, removed, held, avl, cut) avl_r stands few =
      let whole : contents (fork l' k v r) ≡ contents l ++ contents r =
        sym (append_assoc (contents l') ((k, v) ∷ []) (contents r))
        ∙ ap (λ es. es ++ contents r) (sym cut) in
      let few' : length (contents (fork l' k v r)) < limit = rw whole few in
      let low_l = low_enough l' avl (omega (arith, length-contents l' r k v, few')) in
      let low_r = low_enough r avl_r (omega (arith, length-contents l' r k v, few')) in
      let (sl, e1, held_l) =
        attach-Holds fetch l' (node vacant vacant (pair k v)) true o refl held
          (omega (arith, low_l)) in
      let (sr, e2, held_r) =
        attach-Holds fetch r (node sl vacant (pair k v)) false (some tr) refl
          (some-Stands fetch r tr stands) (omega (arith, low_r)) in
      joined l' r k v sl sr _ _ avl avl_r held_l held_r few' whole (λ t' e.
        promote_runs false depth tl tr (node vacant vacant (pair k v)) (node sl vacant (pair k v))
          (node sl sr (pair k v)) t' o removed e1 e2 e)

  pub promote_left :
      (depth : ℕ) (l r : Shape) (tl tr : Tree)
      → EdgeRemoved fetch n fuel true depth r tr
      → IsAvl l
      → Stands fetch l tl
      → length (contents l ++ contents r) < limit
      → Leaves
          (promote_edge n fetch depth tr true tl >>= λ t. ok (some t))
          (contents l ++ contents r)
  unfolding Node.link Node.set_slot contents
  promote_left depth l r tl tr (r', o, k, v, removed, held, avl, cut) avl_l stands few =
      let whole : contents (fork l k v r') ≡ contents l ++ contents r =
        ap (λ es. contents l ++ es) (sym cut) in
      let few' : length (contents (fork l k v r')) < limit = rw whole few in
      let low_l = low_enough l avl_l (omega (arith, length-contents l r' k v, few')) in
      let low_r = low_enough r' avl (omega (arith, length-contents l r' k v, few')) in
      let (sr, e1, held_r) =
        attach-Holds fetch r' (node vacant vacant (pair k v)) false o refl held
          (omega (arith, low_r)) in
      let (sl, e2, held_l) =
        attach-Holds fetch l (node vacant sr (pair k v)) true (some tl) refl
          (some-Stands fetch l tl stands) (omega (arith, low_l)) in
      joined l r' k v sl sr _ _ avl_l avl held_l held_r few' whole (λ t' e.
        promote_runs true depth tr tl (node vacant vacant (pair k v)) (node vacant sr (pair k v))
          (node sl sr (pair k v)) t' o removed e1 e2 e)
