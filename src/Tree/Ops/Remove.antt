-- ===== src/Tree/Ops/Remove.antt =====
-- `remove`, `promote_edge` and `remove_edge` (src/tree/ops.rs) on balanced trees.
pub mod Promote
pub mod Root
use liftedmerk.Base.{
  ℕ, zero, suc, ◌+◌, ◌≡◌, ◌≤◌, ◌<◌, ◌∷◌, ◌++◌, [], ◌∙◌, refl, sym, ap, max, append_assoc,
  append-nil, List, Bytes, Bool, true, false, not, Option, none, some, Result, ok, ◌>>=◌, ltb,
  length, length-append, arith,
}
use liftedmerk.Tree.Hash.{Hasher}
use liftedmerk.Tree.Types.{Tree, node, Slot, vacant, holds, Link}
use liftedmerk.Tree.Node
use liftedmerk.Tree.Walk.{Fetch, detach, detach_expect}
use liftedmerk.Tree.Shape.{Shape, leaf, fork, height}
use liftedmerk.Tree.Ops.{maybe_balance, remove_edge, promote_edge, remove}
use liftedmerk.Tree.Ops.Avl.{IsAvl}
use liftedmerk.Tree.Ops.Contents.{contents}
use liftedmerk.Tree.Ops.Holds.{
  pair, Holds, Stands, StandsMaybe, detach-Holds, detach_expect-Holds, attach-Holds,
  slot_height-Holds,
}
use liftedmerk.Tree.Ops.Refines.{some-Stands}
use liftedmerk.Tree.Ops.Rebalance.{limit, length-contents, low_enough, rebalance}

-- The entries with one more at an end; `true` is the left end.
abbrev pub with_edge : Bool → Bytes × Bytes → List (Bytes × Bytes) → List (Bytes × Bytes)
with_edge true e es = e ∷ es
with_edge false e es = es ++ (e ∷ [])

module _ ⦃h : Hasher⦄ (fetch : Fetch) (n : ℕ) (fuel : 386 ≤ n) where
  abbrev EdgeRemoved : Bool → ℕ → Shape → Tree → Type 0
  EdgeRemoved left depth s t =
      (s' : Shape) × (o : Option Tree) × (k : Bytes) × (v : Bytes) × (remove_edge n fetch depth t
          left
        ≡ ok (node vacant vacant (pair k v), o))
      × StandsMaybe fetch s' o
      × IsAvl s'
      × (contents s ≡ with_edge left (k, v) (contents s'))

  remove_edge_at_end :
      (left : Bool) (depth : ℕ) (t t0 : Tree) (o : Option Tree)
      → Node.link t left ≡ vacant
      → detach fetch t (not left) ≡ ok (t0, o)
      → remove_edge n fetch (suc depth) t left ≡ ok (t0, o)
  unfolding remove_edge
  remove_edge_at_end left depth t t0 o e1 e2 = rw (remove_edge, e1, e2)

  remove_edge_below :
      (left : Bool) (depth : ℕ) (t t0 child edge t1 t2 : Tree) (link : Link) (o : Option Tree)
      → Node.link t left ≡ holds link
      → detach_expect fetch t left ≡ ok (t0, child)
      → remove_edge n fetch depth child left ≡ ok (edge, o)
      → Node.attach t0 left o ≡ ok t1
      → maybe_balance n fetch t1 ≡ ok t2
      → remove_edge n fetch (suc depth) t left ≡ ok (edge, some t2)
  unfolding remove_edge
  remove_edge_below left depth t t0 child edge t1 t2 link o e1 e2 e3 e4 e5 =
      rw (remove_edge, e1, e2, e3, e4, e5)

  pub remove_left_edge :
      (depth : ℕ) (s : Shape) (t : Tree)
      → Stands fetch s t
      → IsAvl s
      → height s ≤ depth
      → length (contents s) < limit
      → EdgeRemoved true depth s t
  unfolding Node.link Node.set_slot contents
  remove_left_edge depth leaf t stands avl deep few = absurd stands
  remove_left_edge zero (fork l k v r) t stands avl deep few = absurd (omega arith)
  remove_left_edge (suc depth) (fork leaf k v r) t (sl, sr, is_t, hl, hr) (lr, rl, al, ar) deep
        few =
      let (o, e, held) = detach-Holds fetch r (node sl sr (pair k v)) false hr in
      (
        r,
        o,
        k,
        v,
        rw is_t (
            remove_edge_at_end true depth (node sl sr (pair k v)) (node sl vacant (pair k v)) o hl e
            ∙ ap (λ x. ok (node x vacant (pair k v), o)) hl),
        held,
        ar,
        refl,
      )
  remove_left_edge (suc depth) (fork (fork a k2 v2 b) k v r) t (sl, sr, is_t, hl, hr)
        (lr, rl, al, ar) deep few =
      let is_link = hl.3 in
      let (child, e1, stands) =
        detach_expect-Holds fetch a b k2 v2 (node sl sr (pair k v)) true hl in
      let (s', o, k', v', e2, held', al', cut) =
        remove_left_edge depth (fork a k2 v2 b) child stands al (omega arith)
          (omega (arith, length-contents (fork a k2 v2 b) r k v)) in
      let sizes = ap (λ es. length es) cut in
      let few' : length (contents (fork s' k v r)) < limit =
        omega (arith, length-contents (fork a k2 v2 b) r k v, length-contents s' r k v, sizes) in
      let low = low_enough s' al' (omega (arith, length-contents s' r k v, few')) in
      let (slot, e3, held_l) =
        attach-Holds fetch s' (node vacant sr (pair k v)) true o refl held' (omega (arith, low)) in
      let (s'', t2, e4, stands2, avl2, same) =
        rebalance fetch n s' r k v slot sr fuel al' ar few' held_l hr in
      (
        s'',
        some t2,
        k',
        v',
        rw is_t (
            remove_edge_below true depth (node sl sr (pair k v)) (node vacant sr (pair k v)) child _
              (node slot sr (pair k v)) t2 hl.0 o is_link e1 e2 e3 e4),
        some-Stands fetch s'' t2 stands2,
        avl2,
        ap (λ es. es ++ ((k, v) ∷ contents r)) cut ∙ ap (λ es. (k', v') ∷ es) (sym same),
      )

  pub remove_right_edge :
      (depth : ℕ) (s : Shape) (t : Tree)
      → Stands fetch s t
      → IsAvl s
      → height s ≤ depth
      → length (contents s) < limit
      → EdgeRemoved false depth s t
  unfolding Node.link Node.set_slot contents
  remove_right_edge depth leaf t stands avl deep few = absurd stands
  remove_right_edge zero (fork l k v r) t stands avl deep few = absurd (omega arith)
  remove_right_edge (suc depth) (fork l k v leaf) t (sl, sr, is_t, hl, hr) (lr, rl, al, ar) deep
        few =
      let (o, e, held) = detach-Holds fetch l (node sl sr (pair k v)) true hl in
      (
        l,
        o,
        k,
        v,
        rw is_t (
            remove_edge_at_end false depth (node sl sr (pair k v)) (node vacant sr (pair k v)) o hr
              e
            ∙ ap (λ x. ok (node vacant x (pair k v), o)) hr),
        held,
        al,
        refl,
      )
  remove_right_edge (suc depth) (fork l k v (fork a k2 v2 b)) t (sl, sr, is_t, hl, hr)
        (lr, rl, al, ar) deep few =
      let is_link = hr.3 in
      let (child, e1, stands) =
        detach_expect-Holds fetch a b k2 v2 (node sl sr (pair k v)) false hr in
      let (s', o, k', v', e2, held', ar', cut) =
        remove_right_edge depth (fork a k2 v2 b) child stands ar (omega arith)
          (omega (arith, length-contents l (fork a k2 v2 b) k v)) in
      let sizes = ap (λ es. length es) cut ∙ length-append (contents s') ((k', v') ∷ []) in
      let few' : length (contents (fork l k v s')) < limit =
        omega (arith, length-contents l (fork a k2 v2 b) k v, length-contents l s' k v, sizes) in
      let low = low_enough s' ar' (omega (arith, length-contents l s' k v, few')) in
      let (slot, e3, held_r) =
        attach-Holds fetch s' (node sl vacant (pair k v)) false o refl held' (omega (arith, low)) in
      let (s'', t2, e4, stands2, avl2, same) =
        rebalance fetch n l s' k v sl slot fuel al ar' few' hl held_r in
      (
        s'',
        some t2,
        k',
        v',
        rw is_t (
            remove_edge_below false depth (node sl sr (pair k v)) (node sl vacant (pair k v)) child
              _ (node sl slot (pair k v)) t2 hr.0 o is_link e1 e2 e3 e4),
        some-Stands fetch s'' t2 stands2,
        avl2,
        ap (λ es. contents l ++ ((k, v) ∷ es)) cut
            ∙ sym (append_assoc (contents l) ((k, v) ∷ contents s') ((k', v') ∷ []))
            ∙ ap (λ es. es ++ ((k', v') ∷ [])) (sym same),
      )
