-- ===== src/Proofs/Chunk/Sound.antt =====
-- What an accepted leaf chunk (src/proofs/chunk.rs) shows: a whole tree with sorted keys and values
-- behind the expected hash, since no node of the chunk may be abridged.
use liftedmerk.Base.{
  ◌≡◌, ◌∷◌, ◌++◌, [], ◌∙◌, refl, sym, ap, append_assoc, List, Bytes, Error, hash_mismatch, Bool,
  true, false, Option, none, some, Result, ok, err, panic, stuck, >>=-eq-ok, guard, cmp, is_eq,
  eq_of_cmp, lt_of_gt, cmp_trans, cmp-cases, inl, inr,
}
use Prim.Native.Nat.Ordering.{lt}
use liftedmerk.Tree.Hash.{Hash, Hasher}
use liftedmerk.Tree.Shape.{Shape, leaf, fork, root_hash}
use liftedmerk.Tree.Search.Sorted.{All-imp}
use liftedmerk.Tree.Ops.Contents.{contents}
use liftedmerk.Tree.Ops.Update.{Entries}
use liftedmerk.Tree.Ops.Update.Split.{IsBelow, All-append}
use liftedmerk.Tree.Ops.Update.Cuts.{IsAscending}
use liftedmerk.Proofs.Op.{Node, Op, hash, kv_hash, kv, push, parent, child}
use liftedmerk.Proofs.Verify.Defs.{
  Tree, absent, from_node, tree_hash, attach, run_parent, run_child, in_order, check_key,
  execute_loop, execute, only_item,
}
use liftedmerk.Proofs.Chunk.Verify.{leaf_node, verify_leaf}
use liftedmerk.Proofs.Chunk.Full.{FullTree, tree_hash-FullTree, attach_left, attach_right}

-- Entries with keys in order, followed by one with a higher key.
add_last :
    (es : Entries) (k v : Bytes) → IsAscending es → IsBelow es k → IsAscending (es ++ ((k, v) ∷ []))
add_last [] k v a below = (tt, tt)
add_last (e ∷ es) k v (above, a) (low, below) =
    (All-append (λ x. cmp e.0 x.0 ≡ lt) es ((k, v) ∷ []) above (low, tt), add_last es k v a below)

-- The last key, if there is any, is no lower than the entries.
abbrev Bounds : Option Bytes → Entries → Type 0
Bounds last es = (k : Bytes) → in_order k last ≡ true → IsBelow es k

higher_key : (k k' : Bytes) → in_order k' (some k) ≡ true → cmp k k' ≡ lt
higher_key k k' e = elim (cmp-cases k' k) [
  | inl low ↦ cc (rw low at e)
  | inr (inl same) ↦ cc (rw same at e)
  | inr (inr high) ↦ lt_of_gt k' k high
]

next_bounds : (es : Entries) (k v : Bytes) → IsBelow es k → Bounds (some k) (es ++ ((k, v) ∷ []))
next_bounds es k v below k' e =
    All-append (λ x. cmp x.0 k' ≡ lt) es ((k, v) ∷ [])
      (All-imp (λ x. cmp x.0 k ≡ lt) (λ x. cmp x.0 k' ≡ lt)
        (λ x low. cmp_trans x.0 k k' low (higher_key k k' e)) es below)
      (higher_key k k' e, tt)

pub guarded : (b : Bool) (error : Error) (u : Unit {0}) → guard b error ≡ ok u → b ≡ true
guarded true error u e = refl
guarded false error u e = cc e

module _ ⦃h : Hasher⦄ where
  -- The trees on the stack, the top last, have these entries.
  abbrev Stacked : List Tree → Entries → Type 0
  Stacked [] es = es ≡ []
  Stacked (t ∷ stack) es =
      (s : Shape) × (es0 : Entries) × FullTree s t × Stacked stack es0 × (es ≡ es0 ++ contents s)

  -- Both operators keep the entries of the stack.
  parent_keeps :
      (stack stack' : List Tree) (es : Entries)
      → Stacked stack es
      → run_parent false stack ≡ ok stack'
      → Stacked stack' es
  unfolding run_parent
  parent_keeps [] stack' es held e = cc e
  parent_keeps (top ∷ []) stack' es held e = cc e
  parent_keeps (top ∷ below ∷ stack) stack' es (s, es1, full, (s0, es0, full0, held, is_es1), is_es)
        e =
      let (t, e1, e2) = >>=-eq-ok (attach top true below) _ e in
      let (s', full', same) = attach_left s0 s below top t full0 full e1 in
      let done : (t ∷ stack) ≡ stack' = cc e2 in
      rw (← done) (
        s',
        es0,
        full',
        held,
        is_es
            ∙ ap (λ x. x ++ contents s) is_es1
            ∙ append_assoc es0 (contents s0) (contents s)
            ∙ ap (λ x. es0 ++ x) (sym same),
      )

  child_keeps :
      (stack stack' : List Tree) (es : Entries)
      → Stacked stack es
      → run_child false stack ≡ ok stack'
      → Stacked stack' es
  unfolding run_child
  child_keeps [] stack' es held e = cc e
  child_keeps (top ∷ []) stack' es held e = cc e
  child_keeps (top ∷ below ∷ stack) stack' es (s, es1, full, (s0, es0, full0, held, is_es1), is_es)
        e =
      let (t, e1, e2) = >>=-eq-ok (attach below false top) _ e in
      let (s', full', same) = attach_right s0 s below top t full0 full e1 in
      let done : (t ∷ stack) ≡ stack' = cc e2 in
      rw (← done) (
        s',
        es0,
        full',
        held,
        is_es
            ∙ ap (λ x. x ++ contents s) is_es1
            ∙ append_assoc es0 (contents s0) (contents s)
            ∙ ap (λ x. es0 ++ x) (sym same),
      )

  -- A pushed node is whole, and its key is higher than all before it.
  pushed :
      (n : Node) (last last' : Option Bytes) (s' : Unit {0}) (stack : List Tree) (es : Entries)
      → Stacked stack es
      → IsAscending es
      → Bounds last es
      → check_key n last ≡ ok last'
      → leaf_node tt n ≡ ok s'
      → (es' : Entries) × Stacked (from_node n ∷ stack) es' × IsAscending es' × Bounds last' es'
  unfolding check_key from_node contents
  pushed (hash x) last last' s' stack es held a bounds e1 e2 = cc e2
  pushed (kv_hash x) last last' s' stack es held a bounds e1 e2 = cc e2
  pushed (kv k v) last last' s' stack es held a bounds e1 e2 =
      let (u, checked, is_last) = >>=-eq-ok (guard (in_order k last) _) _ e1 in
      let below = bounds k (guarded (in_order k last) _ u checked) in
      let same : some k ≡ last' = cc is_last in
      (
        es ++ ((k, v) ∷ []),
        (fork leaf k v leaf, es, (absent, absent, 1, refl, refl, refl, refl), held, refl),
        add_last es k v a below,
        rw (← same) (λ k' higher. next_bounds es k v below k' higher),
      )

  run_keeps :
      (ops : List (Result Op)) (stack stack' : List Tree) (last : Option Bytes) (s s' : Unit {0})
      (es : Entries)
      → Stacked stack es
      → IsAscending es
      → Bounds last es
      → execute_loop false leaf_node ops stack last s ≡ ok (stack', s')
      → (es' : Entries) × Stacked stack' es' × IsAscending es'
  unfolding execute_loop
  run_keeps [] stack stack' last s s' es held a bounds e =
      let same : stack ≡ stack' = cc e in (es, rw same at held, a)
  run_keeps (err error ∷ ops) stack stack' last s s' es held a bounds e = cc e
  run_keeps (panic ∷ ops) stack stack' last s s' es held a bounds e = cc e
  run_keeps (stuck ∷ ops) stack stack' last s s' es held a bounds e = cc e
  run_keeps (ok parent ∷ ops) stack stack' last s s' es held a bounds e =
      let (stack1, e1, e2) = >>=-eq-ok (run_parent false stack) _ e in
      run_keeps ops stack1 stack' last s s' es (parent_keeps stack stack1 es held e1) a bounds e2
  run_keeps (ok child ∷ ops) stack stack' last s s' es held a bounds e =
      let (stack1, e1, e2) = >>=-eq-ok (run_child false stack) _ e in
      run_keeps ops stack1 stack' last s s' es (child_keeps stack stack1 es held e1) a bounds e2
  run_keeps (ok (push n) ∷ ops) stack stack' last s s' es held a bounds e =
      let (last1, e1, e2) = >>=-eq-ok (check_key n last) _ e in
      let (s1, e3, e4) = >>=-eq-ok (leaf_node s n) _ e2 in
      let (es1, held1, a1, bounds1) = pushed n last last1 s1 stack es held a bounds e1 e3 in
      run_keeps ops (from_node n ∷ stack) stack' last1 s1 s' es1 held1 a1 bounds1 e4

  only_whole :
      (stack : List Tree) (es : Entries) (t : Tree)
      → Stacked stack es
      → IsAscending es
      → only_item stack ≡ ok t
      → (s : Shape) × FullTree s t × IsAscending (contents s)
  only_whole [] es t held a e = cc e
  only_whole (top ∷ below ∷ stack) es t held a e = cc e
  only_whole (top ∷ []) es t (s, es0, full, none_below, is_es) a e =
      let same : top ≡ t = cc e in
      let all : es ≡ contents s = is_es ∙ ap (λ x. x ++ contents s) none_below in
      (s, rw same at full, rw all at a)

  pub is_eq_eq : (x y : Bytes) → is_eq (cmp x y) ≡ true → x ≡ y
  is_eq_eq x y e = elim (cmp-cases x y) [
    | inl low ↦ cc (rw low at e)
    | inr (inl same) ↦ eq_of_cmp x y same
    | inr (inr high) ↦ cc (rw high at e)
  ]

  -- If `verify_leaf` accepts operators for an expected hash, then the tree that it returns has all keys
  -- and values of a shape and its height, with the keys in order, and with that hash as its Merkle root.
  pub verify_leaf-FullTree :
      (ops : List (Result Op)) (expected_hash : Hash) (t : Tree)
      → verify_leaf ops expected_hash ≡ ok t
      → (s : Shape) × FullTree s t × IsAscending (contents s) × (root_hash s ≡ expected_hash)
  unfolding verify_leaf execute
  verify_leaf-FullTree ops expected_hash t accepted =
      let (ran, e1, e2) = >>=-eq-ok (execute false leaf_node ops tt) _ accepted in
      let (looped, e3, e4) = >>=-eq-ok (execute_loop false leaf_node ops [] none tt) _ e1 in
      let (t1, e5, e6) = >>=-eq-ok (only_item looped.0) _ e4 in
      let (actual, e7, e8) = >>=-eq-ok (tree_hash ran.0) _ e2 in
      let (u, e9, e10) = >>=-eq-ok (guard (is_eq (cmp actual expected_hash)) hash_mismatch) _ e8 in
      let same1 : ran.0 ≡ t = cc e10 in
      let same2 : t1 ≡ ran.0 = cc e6 in
      let (es, held, a) = run_keeps ops [] looped.0 none tt looped.1 [] refl tt (λ k e. tt) e3 in
      let (s, full, sorted) = only_whole looped.0 es t1 held a e5 in
      (
        s,
        rw (same2 ∙ same1) at full,
        sorted,
        sym (tree_hash-FullTree s ran.0 actual (rw same2 at full) e7)
            ∙ is_eq_eq actual expected_hash
                (guarded (is_eq (cmp actual expected_hash)) hash_mismatch u e9),
      )
