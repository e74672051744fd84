-- ===== src/Examples/Ops.antt =====
-- Applying batches of operations in memory (src/tree/ops.rs).
use liftedmerk.Base.{
  ℕ, ◌≡◌, ◌∷◌, [], refl, cmp, Bytes, List, Option, none, some, Result, ok, err, ◌>>=◌,
  delete_nonexistent, map,
}
use liftedmerk.Tree.Hash as Hash
use liftedmerk.Tree.Types.{Tree}
use liftedmerk.Tree.Link
use liftedmerk.Tree.Node
use liftedmerk.Tree.Kv
use liftedmerk.Tree.Walk as Walk
use liftedmerk.Tree.Search.{binary_search}
use liftedmerk.Tree.Iter.{Entry}
use liftedmerk.Tree.Iter.Entries.{entries}
use liftedmerk.Tree.Ops.{
  Batch, put, delete, Applied, panic_source, rotate, maybe_double, maybe_balance, remove_edge,
  promote_edge, remove, walk_apply, recurse, build, apply, apply_to,
}
use liftedmerk.Examples.Sample.{sum_hasher}

-- The entries, the height and the deleted keys.
abbrev summary : Applied → List Entry × ℕ × List Bytes
summary (none, deleted_keys) = ([], 0, deleted_keys)
summary (some t, deleted_keys) = (entries t, Node.height t, deleted_keys)

abbrev applied : Option Tree → Batch → Result Applied
applied maybe_tree batch = apply_to 6 6 panic_source maybe_tree batch

abbrev key : ℕ → Bytes
key n = n ∷ []

abbrev puts : List ℕ → Batch
puts ns = map (λ n. (key n, put (n ∷ n ∷ []))) ns

-- Keys one after the other, behind all others: the tree is rotated.
sequential :
    (applied none (puts (1 ∷ [])) >>= λ a.
    applied a.0 (puts (2 ∷ [])) >>= λ b. applied b.0 (puts (3 ∷ [])) >>= λ c. ok (summary c))
    ≡ ok ((key 1, 1 ∷ 1 ∷ []) ∷ (key 2, 2 ∷ 2 ∷ []) ∷ (key 3, 3 ∷ 3 ∷ []) ∷ [], 2, [])
unfolding apply_to apply build recurse walk_apply remove promote_edge remove_edge maybe_balance
    maybe_double rotate panic_source binary_search Walk.detach Walk.detach_expect Walk.walk_expect
    Node.attach Node.detach Node.child Node.link Node.set_slot Node.maybe_from_modified_tree
    Node.from_modified_tree Node.child_pending_writes Node.child_heights Node.child_height
    Node.height Node.balance_factor Node.new Node.with_value Kv.new Kv.with_value Hash.kv_hash
    Link.tree_key Link.tree Link.height Link.balance_factor Link.child_heights entries cmp
sequential = refl

deleted_root :
    (applied none (puts (1 ∷ 2 ∷ 3 ∷ 4 ∷ [])) >>= λ a.
    applied a.0 ((key 3, delete) ∷ []) >>= λ b. ok (summary b))
    ≡ ok ((key 1, 1 ∷ 1 ∷ []) ∷ (key 2, 2 ∷ 2 ∷ []) ∷ (key 4, 4 ∷ 4 ∷ []) ∷ [], 2, key 3 ∷ [])
unfolding apply_to apply build recurse walk_apply remove promote_edge remove_edge maybe_balance
    maybe_double rotate panic_source binary_search Walk.detach Walk.detach_expect Walk.walk_expect
    Node.attach Node.detach Node.child Node.link Node.set_slot Node.maybe_from_modified_tree
    Node.from_modified_tree Node.child_pending_writes Node.child_heights Node.child_height
    Node.height Node.balance_factor Node.new Node.with_value Kv.new Kv.with_value Hash.kv_hash
    Link.tree_key Link.tree Link.height Link.balance_factor Link.child_heights entries cmp
deleted_root = refl

deleted_nothing : applied none ((key 3, delete) ∷ []) ≡ err delete_nonexistent
unfolding apply_to build
deleted_nothing = refl
