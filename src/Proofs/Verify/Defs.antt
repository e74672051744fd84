-- ===== src/Proofs/Verify/Defs.antt =====
-- The proof tree, `execute` and `verify_query` (src/proofs/verify.rs). A closure that mutates what it
-- captures is a function from a state to a state. The stack's top is the head of the list.
use liftedmerk.Base.{
  ℕ, ◌+◌, ◌∷◌, [], ◌++◌, max, List, Bytes, Bool, true, false, not, Option, none, some, Result, ok,
  err, panic, ◌>>=◌, ◌>>◌, guard, if◌then◌else◌, cmp, is_eq, is_gt, Ordering, replicate, length,
  child_already_some, stack_underflow, incorrect_key_ordering, not_one_stack_item,
  proof_incorrectly_formed, hash_mismatch,
}
use Prim.Native.Nat.Ordering.{lt, eq, gt}
use liftedmerk.Ed.{Ed}
use liftedmerk.Tree.Hash.{Hash, Hasher, null_hash, node_hash}
use liftedmerk.Tree.Hash as TreeHash
use liftedmerk.Proofs.Op.{Node, Op, hash, kv_hash, kv, push, parent, child}
use liftedmerk.Proofs.Encoding.{decode_all}

-- `Tree`, with the fields `node`, `left`, `right` and `height`, and `Option<Child>`.
mutual
  pub data Tree : Type 0 where
    tree : Node → MaybeChild → MaybeChild → ℕ → Tree

  pub data MaybeChild : Type 0 where
    absent : MaybeChild
    present : Tree → Hash → MaybeChild

-- `impl From<Node> for Tree`
unfoldable pub from_node : Node → Tree
from_node n = tree n absent absent 1

unfoldable pub root : Tree → Node
root (tree n l r h) = n

unfoldable pub height : Tree → ℕ
height (tree n l r h) = h

unfoldable pub get_child : Tree → Bool → MaybeChild
get_child (tree n l r h) true = l
get_child (tree n l r h) false = r

-- A write through `child_mut`.
abbrev pub set_child : Tree → Bool → MaybeChild → Tree
set_child (tree n l r h) true c = tree n c r h
set_child (tree n l r h) false c = tree n l c h

abbrev pub set_height : Tree → ℕ → Tree
set_height (tree n l r h) h' = tree n l r h'

abbrev pub hash_or_null : MaybeChild → Hash
hash_or_null absent = null_hash
hash_or_null (present t h) = h

unfoldable pub child_hash : Tree → Bool → Hash
unfolding get_child
child_hash t left = hash_or_null (get_child t left)

-- Panics unless the node is of type `KV`.
abbrev pub node_key : Node → Result Bytes
node_key (kv k v) = ok k
node_key _ = panic

unfoldable pub key : Tree → Result Bytes
unfolding root
key t = node_key (root t)

module _ ⦃h : Hasher⦄ where
  unfoldable pub compute_hash : Tree → Hash → Hash
  unfolding child_hash
  compute_hash t kvh = node_hash kvh (child_hash t true) (child_hash t false)

  abbrev pub hash_by : Node → Tree → Result Hash
  hash_by (hash hash') t = ok hash'
  hash_by (kv_hash kvh) t = ok (compute_hash t kvh)
  hash_by (kv k v) t = do kvh ← TreeHash.kv_hash k v; ok (compute_hash t kvh)

  -- `Tree::hash`: of a `Hash` node, the hash that it holds, whatever its children.
  unfoldable pub tree_hash : Tree → Result Hash
  unfolding compute_hash root
  tree_hash t = hash_by (root t) t

  abbrev pub attach_to : MaybeChild → Tree → Bool → Tree → Result Tree
  attach_to (present c ch) t left new_child = err child_already_some
  attach_to absent t left new_child = do
    ch ← tree_hash new_child
    ok (
        set_child (set_height t (max (height t) (height new_child + 1))) left
          (present new_child ch))

  unfoldable pub attach : Tree → Bool → Tree → Result Tree
  unfolding get_child height tree_hash
  attach t left new_child = attach_to (get_child t left) t left new_child

  unfoldable pub into_hash : Tree → Result Tree
  unfolding tree_hash from_node
  into_hash t = do hash' ← tree_hash t; ok (from_node (hash hash'))

  abbrev pub try_pop : List Tree → Result (Tree × List Tree)
  try_pop [] = err stack_underflow
  try_pop (t ∷ stack) = ok (t, stack)

  abbrev pub collapsed : Bool → Tree → Result Tree
  collapsed true t = into_hash t
  collapsed false t = ok t

  -- `Op::Parent`: the top is the parent.
  unfoldable pub run_parent : Bool → List Tree → Result (List Tree)
  unfolding attach into_hash
  run_parent collapse stack = do
    (top, stack1) ← try_pop stack
    (below, stack2) ← try_pop stack1
    c ← collapsed collapse below
    t ← attach top true c
    ok (t ∷ stack2)

  -- `Op::Child`: the top is the child.
  unfoldable pub run_child : Bool → List Tree → Result (List Tree)
  unfolding attach into_hash
  run_child collapse stack = do
    (top, stack1) ← try_pop stack
    (below, stack2) ← try_pop stack1
    c ← collapsed collapse top
    t ← attach below false c
    ok (t ∷ stack2)

-- `key <= last_key` is an error.
abbrev pub in_order : Bytes → Option Bytes → Bool
in_order k none = true
in_order k (some last_key) = is_gt (cmp k last_key)

-- Checks the order of keys, and gives the new last key.
unfoldable pub check_key : Node → Option Bytes → Result (Option Bytes)
check_key (kv k v) maybe_last_key = do
  guard (in_order k maybe_last_key) incorrect_key_ordering
  ok (some k)
check_key _ maybe_last_key = ok maybe_last_key

abbrev pub only_item : List Tree → Result Tree
only_item (t ∷ []) = ok t
only_item _ = err not_one_stack_item

module _ {S : Type 0} ⦃h : Hasher⦄ (collapse : Bool) (visit_node : S → Node → Result S) where
  -- The `for` loop over the operators.
  unfoldable pub execute_loop :
      List (Result Op) → List Tree → Option Bytes → S → Result (List Tree × S)
  unfolding run_parent run_child check_key from_node
  execute_loop [] stack last_key s = ok (stack, s)
  execute_loop (err e ∷ ops) stack last_key s = err e
  execute_loop (panic ∷ ops) stack last_key s = panic
  execute_loop (liftedmerk.Base.stuck ∷ ops) stack last_key s = liftedmerk.Base.stuck
  execute_loop (ok parent ∷ ops) stack last_key s = do
    stack' ← run_parent collapse stack
    execute_loop ops stack' last_key s
  execute_loop (ok child ∷ ops) stack last_key s = do
    stack' ← run_child collapse stack
    execute_loop ops stack' last_key s
  execute_loop (ok (push n) ∷ ops) stack last_key s = do
    last_key' ← check_key n last_key
    s' ← visit_node s n
    execute_loop ops (from_node n ∷ stack) last_key' s'

  unfoldable pub execute : List (Result Op) → S → Result (Tree × S)
  unfolding execute_loop
  execute ops s = do (stack, s') ← execute_loop ops [] none s; t ← only_item stack; ok (t, s')

-- What the closure of `verify_query` captures; `rest` is `keys[key_index..]`.
pub record Query : Type 0 where
  pub rest : List Bytes
  pub last_push : Option Node
  pub output : List (Option Bytes)

-- The last push was a boundary: none at all, or a lower key.
abbrev pub is_boundary : Option Node → Bool
is_boundary none = true
is_boundary (some (kv k v)) = true
is_boundary _ = false

-- The `loop` over the queried keys up to the key of a `KV` node.
unfoldable pub match_keys :
    Bytes
    → Bytes
    → Option Node
    → List Bytes
    → List (Option Bytes)
    → Result (List Bytes × List (Option Bytes))
match_keys k v last_push [] output = ok ([], output)
match_keys k v last_push (q ∷ rest) output = elim (cmp k q) [
  | lt ↦ ok (q ∷ rest, output)
  | eq ↦ match_keys k v last_push rest (output ++ some v ∷ [])
  | gt ↦ elim (is_boundary last_push) [
    | true ↦ match_keys k v last_push rest (output ++ none ∷ [])
    | false ↦ err proof_incorrectly_formed
  ]
]

unfoldable pub visit : Query → Node → Result Query
unfolding match_keys
visit q (kv k v) = do
  (rest, output) ← match_keys k v q.last_push q.rest q.output
  ok (record { rest = rest; last_push = some (kv k v); output = output })
visit q n = ok (record q { last_push = some n })

abbrev pub is_kv : Option Node → Bool
is_kv (some (kv k v)) = true
is_kv _ = false

-- The absence proofs for keys behind the right edge.
unfoldable pub right_edge : Query → Result (List (Option Bytes))
right_edge q = elim q.rest [
  | [] ↦ ok q.output
  | _ ∷ _ ↦ do
    guard (is_kv q.last_push) proof_incorrectly_formed
    ok (q.output ++ replicate (length q.rest) none)
]

abbrev pub start : List Bytes → Query
start keys = record { rest = keys; last_push = none; output = [] }

module _ ⦃h : Hasher⦄ where
  -- `verify_query` behind the decoder.
  unfoldable pub verify_ops : List (Result Op) → List Bytes → Hash → Result (List (Option Bytes))
  unfolding execute visit right_edge tree_hash
  verify_ops ops keys expected_hash = do
    (t, q) ← execute true visit ops (start keys)
    output ← right_edge q
    actual ← tree_hash t
    guard (is_eq (cmp actual expected_hash)) hash_mismatch
    ok output

  unfoldable pub verify_query : ⦃e : Ed⦄ → Bytes → List Bytes → Hash → Result (List (Option Bytes))
  unfolding verify_ops
  verify_query proof_bytes keys expected_hash =
      verify_ops (decode_all proof_bytes) keys expected_hash
