-- ===== src/Proofs/Verify/Outline.antt =====
-- Well-bracketed proofs: the operators of an outline, the order in which `execute`
-- (src/proofs/verify.rs) visits its nodes, and the tree and the hash that it ends with.
use liftedmerk.Base.{
  ◌≡◌, ◌∷◌, [], ◌++◌, ◌∙◌, refl, map, append_assoc, List, Bytes, Bool, true, false, Option, none,
  some, Result, ok, ◌>>=◌, >>=-eq-ok, >>=_assoc, arith, map-append,
}
use liftedmerk.Tree.Hash.{Hasher}
use liftedmerk.Proofs.Op.{Node, Op, push, parent, child}
use liftedmerk.Proofs.Verify.Defs.{
  Tree, from_node, attach, collapsed, check_key, execute_loop, run_parent, run_child,
}

-- A node with its subtrees in the proof; `tip` is no subtree.
pub data Outline : Type 0 where
  tip : Outline
  fork : Outline → Node → Outline → Outline

abbrev pub parent_op : Outline → List Op
parent_op tip = []
parent_op (fork l n r) = parent ∷ []

abbrev pub child_op : Outline → List Op
child_op tip = []
child_op (fork l n r) = child ∷ []

-- The operators that rebuild an outline.
unfoldable pub ops : Outline → List Op
ops tip = []
ops (fork l n r) = ops l ++ (push n ∷ (parent_op l ++ (ops r ++ child_op r)))

-- The nodes from left to right.
unfoldable pub nodes : Outline → List Node
nodes tip = []
nodes (fork l n r) = nodes l ++ (n ∷ nodes r)

module _ {S : Type 0} (visit_node : S → Node → Result S) where
  -- Checks and visits one node after the other.
  unfoldable pub scan : List Node → Option Bytes → S → Result (Option Bytes × S)
  scan [] last_key s = ok (last_key, s)
  scan (n ∷ ns) last_key s = do
    last_key' ← check_key n last_key
    s' ← visit_node s n
    scan ns last_key' s'

  pub scan-append :
      (ms ns : List Node) (last_key : Option Bytes) (s : S)
      → scan (ms ++ ns) last_key s ≡ (scan ms last_key s >>= λ r. scan ns r.0 r.1)
  unfolding scan
  scan-append [] ns last_key s = refl
  scan-append (m ∷ ms) ns last_key s = simp (>>=_assoc, scan-append ms ns)

module _ ⦃h : Hasher⦄ (collapse : Bool) where
  -- Attaches a subtree, if there is one.
  abbrev pub hang : Tree → Bool → Option Tree → Result Tree
  hang t left none = ok t
  hang t left (some c) = do c' ← collapsed collapse c; attach t left c'

  -- The tree that an outline stands for.
  unfoldable pub grow : Outline → Result (Option Tree)
  grow tip = ok none
  grow (fork l n r) = do
    ml ← grow l
    t1 ← hang (from_node n) true ml
    mr ← grow r
    t2 ← hang t1 false mr
    ok (some t2)

abbrev pub on_stack : Option Tree → List Tree → List Tree
on_stack none stack = stack
on_stack (some t) stack = t ∷ stack

-- The operators of a fork, bracketed to the right.
ops_fork :
    (l r : Outline) (n : Node) (k : List (Result Op))
    → map ok (ops (fork l n r)) ++ k
      ≡ map ok (ops l)
        ++ (ok (push n) ∷ (map ok (parent_op l) ++ (map ok (ops r) ++ (map ok (child_op r) ++ k))))
unfolding ops
ops_fork l r n k = simp (map-append, append_assoc)

module _ {S : Type 0} ⦃h : Hasher⦄ (collapse : Bool) (visit_node : S → Node → Result S) where
  parent_step :
      (l : Outline) (ml : Option Tree) (k : List (Result Op)) (t t1 : Tree) (stack : List Tree)
      (last_key : Option Bytes) (s : S)
      → grow collapse l ≡ ok ml
      → hang collapse t true ml ≡ ok t1
      → execute_loop collapse visit_node
          (map ok (parent_op l) ++ k)
          (t ∷ on_stack ml stack)
          last_key
          s
        ≡ execute_loop collapse visit_node k (t1 ∷ stack) last_key s
  unfolding execute_loop run_parent grow
  parent_step tip none k t t1 stack last_key s g e = cc
  parent_step tip (some c) k t t1 stack last_key s g e = cc
  parent_step (fork l n r) none k t t1 stack last_key s g e = ground arith
  parent_step (fork l n r) (some c) k t t1 stack last_key s g e = ground arith

  child_step :
      (r : Outline) (mr : Option Tree) (k : List (Result Op)) (t t1 : Tree) (stack : List Tree)
      (last_key : Option Bytes) (s : S)
      → grow collapse r ≡ ok mr
      → hang collapse t false mr ≡ ok t1
      → execute_loop collapse visit_node
          (map ok (child_op r) ++ k)
          (on_stack mr (t ∷ stack))
          last_key
          s
        ≡ execute_loop collapse visit_node k (t1 ∷ stack) last_key s
  unfolding execute_loop run_child grow
  child_step tip none k t t1 stack last_key s g e = cc
  child_step tip (some c) k t t1 stack last_key s g e = cc
  child_step (fork l n r) none k t t1 stack last_key s g e = ground arith
  child_step (fork l n r) (some c) k t t1 stack last_key s g e = ground arith

  scan_fork :
      (l r : Outline) (n : Node) (last_key last_key' : Option Bytes) (s s' : S)
      → scan visit_node (nodes l ++ (n ∷ nodes r)) last_key s ≡ ok (last_key', s')
      → (last1 : Option Bytes) × (s1 : S) × (last2 : Option Bytes) × (s2 : S) × (scan visit_node
            (nodes l)
            last_key
            s
          ≡ ok (last1, s1))
        × (check_key n last1 ≡ ok last2)
        × (visit_node s1 n ≡ ok s2)
        × (scan visit_node (nodes r) last2 s2 ≡ ok (last_key', s'))
  unfolding scan
  scan_fork l r n last_key last_key' s s' seen =
      let (r1, e1, after1) =
        >>=-eq-ok (scan visit_node (nodes l) last_key s)
          (λ r1. scan visit_node (n ∷ nodes r) r1.0 r1.1)
          (rw (scan-append visit_node (nodes l) (n ∷ nodes r) last_key s) at seen) in
      let (last2, e2, after2) = >>=-eq-ok (check_key n r1.0) _ after1 in
      let (s2, e3, e4) = >>=-eq-ok (visit_node r1.1 n) _ after2 in
      (r1.0, r1.1, last2, s2, e1, e2, e3, e4)

  pub grow_fork :
      (l r : Outline) (n : Node) (mt : Option Tree)
      → grow collapse (fork l n r) ≡ ok mt
      → (ml : Option Tree) × (t1 : Tree) × (mr : Option Tree) × (t2 : Tree) × (grow collapse l
          ≡ ok ml)
        × (hang collapse (from_node n) true ml ≡ ok t1)
        × (grow collapse r ≡ ok mr)
        × (hang collapse t1 false mr ≡ ok t2)
        × (mt ≡ some t2)
  unfolding grow
  grow_fork l r n mt grown =
      let (ml, e1, after1) = >>=-eq-ok (grow collapse l) _ grown in
      let (t1, e2, after2) = >>=-eq-ok (hang collapse (from_node n) true ml) _ after1 in
      let (mr, e3, after3) = >>=-eq-ok (grow collapse r) _ after2 in
      let (t2, e4, e5) = >>=-eq-ok (hang collapse t1 false mr) _ after3 in
      (ml, t1, mr, t2, e1, e2, e3, e4, cc)

  push_step :
      (n : Node) (k : List (Result Op)) (stack : List Tree) (last1 last2 : Option Bytes) (s1 s2 : S)
      → check_key n last1 ≡ ok last2
      → visit_node s1 n ≡ ok s2
      → execute_loop collapse visit_node (ok (push n) ∷ k) stack last1 s1
        ≡ execute_loop collapse visit_node k (from_node n ∷ stack) last2 s2
  unfolding execute_loop
  push_step n k stack last1 last2 s1 s2 e2 e3 = rw (e2, e3)

  -- If the tree of an outline can be built, and its nodes pass the checks on keys and the visitor from
  -- left to right, then its operators, before any others and on any stack, leave that tree on the
  -- stack, with the last key and the visitor's state of that pass.
  pub execute_loop-ops :
      (o : Outline) (k : List (Result Op)) (stack : List Tree) (last_key last_key' : Option Bytes)
      (s s' : S) (mt : Option Tree)
      → scan visit_node (nodes o) last_key s ≡ ok (last_key', s')
      → grow collapse o ≡ ok mt
      → execute_loop collapse visit_node (map ok (ops o) ++ k) stack last_key s
        ≡ execute_loop collapse visit_node k (on_stack mt stack) last_key' s'
  execute_loop-ops tip k stack last_key last_key' s s' mt seen grown =
      unfold ops nodes scan grow in ground arith
  execute_loop-ops (fork l n r) k stack last_key last_key' s s' mt seen grown =
      let (last1, s1, last2, s2, e1, e2, e3, e4) =
        scan_fork l r n last_key last_key' s s' (unfold nodes in seen) in
      let (ml, t1, mr, t2, g1, g2, g3, g4, g5) = grow_fork l r n mt grown in
      let k3 = map ok (child_op r) ++ k in
      let k2 = map ok (parent_op l) ++ (map ok (ops r) ++ k3) in
      rw (g5, ops_fork l r n k)
        (execute_loop-ops l (ok (push n) ∷ k2) stack last_key last1 s s1 ml e1 g1
          ∙ push_step n k2 (on_stack ml stack) last1 last2 s1 s2 e2 e3
          ∙ parent_step l ml (map ok (ops r) ++ k3) (from_node n) t1 stack last2 s2 g1 g2
          ∙ execute_loop-ops r k3 (t1 ∷ stack) last2 last_key' s2 s' mr e4 g3
          ∙ child_step r mr k t1 t2 stack last_key' s' g3 g4)
