-- ===== src/Tree/Ops.antt =====
-- Applying batches of operations, and balancing (src/tree/ops.rs). A `Walker` is its tree, with the
-- source as an argument. Two recursions take fuel: balancing, where `rotate` and `maybe_balance` call
-- one another, and the descent into the tree, which references extend beyond what is in memory.
pub mod Balances
pub mod Avl
pub mod Holds
pub mod Contents
pub mod Refines
pub mod Rebalance
pub mod Remove
pub mod Update
pub mod Applied
pub mod Sides
pub mod Apply
use liftedmerk.Base.{
  ℕ, zero, suc, ◌/◌, ◌∷◌, [], ◌++◌, List, Bytes, Bool, true, false, not, ◌&&◌, ◌||◌, Option, none,
  some, Result, ok, err, panic, stuck, ◌>>=◌, expect, if◌then◌else◌, ◌==◌, ltb, leb, length, take,
  drop, get_elem?, delete_nonexistent,
}
use liftedmerk.Tree.Hash.{Hasher}
use liftedmerk.Tree.Types.{Tree, Slot, vacant, holds}
use liftedmerk.Tree.Link
use liftedmerk.Tree.Node
use liftedmerk.Tree.Walk.{Fetch, detach, detach_expect, walk_expect}
use liftedmerk.Tree.Search.{Search, found, missing, binary_search, before, behind}

pub data Op : Type 0 where
  put : Bytes → Op
  delete : Op

abbrev pub Batch : Type 0
Batch = List (Bytes × Op)

-- `PanicSource`
unfoldable pub panic_source : Fetch
panic_source link = panic

-- Tests on the bit pattern of an `i8`. `abs` of -128 wraps to -128, which is at most 1.
abbrev pub is_negative : ℕ → Bool
is_negative b = leb 128 b

abbrev pub is_positive : ℕ → Bool
is_positive b = ltb 0 b && ltb b 128

abbrev pub abs_at_most_one : ℕ → Bool
abs_at_most_one b = leb b 1 || (b == 255 || b == 128)

abbrev pub slot_balance_factor : Slot → Result ℕ
slot_balance_factor vacant = panic
slot_balance_factor (holds l) = ok (Link.balance_factor l)

-- `==` on `bool`.
abbrev pub same_bool : Bool → Bool → Bool
same_bool true b = b
same_bool false b = not b

-- `rotate`, over `maybe_balance`.
unfoldable pub rotate : (Tree → Result Tree) → Fetch → Tree → Bool → Result Tree
unfolding detach_expect detach Node.attach
rotate balance fetch t left = do
  (tree, child) ← detach_expect fetch t left
  (child', maybe_grandchild) ← detach fetch child (not left)
  tree' ← Node.attach tree left maybe_grandchild
  tree'' ← balance tree'
  child'' ← Node.attach child' (not left) (some tree'')
  balance child''

abbrev pub some_of : Result Tree → Result (Option Tree)
some_of r = r >>= λ t. ok (some t)

-- The first rotation of a double rotation, if the child leans to the other side.
unfoldable pub maybe_double : (Tree → Result Tree) → Fetch → Tree → Bool → Result Tree
unfolding rotate walk_expect Node.link Link.balance_factor
maybe_double balance fetch t left = do
  b ← slot_balance_factor (Node.link t left)
  if same_bool left (is_positive b)
      then walk_expect fetch t left (λ child. some_of (rotate balance fetch child (not left)))
      else ok t

-- Balanced trees are left alone; others are rotated, which may unbalance what it touches.
unfoldable pub maybe_balance : ℕ → Fetch → Tree → Result Tree
unfolding maybe_double rotate Node.balance_factor
maybe_balance zero fetch t = stuck
maybe_balance (suc fuel) fetch t =
    let left = is_negative (Node.balance_factor t) in
    let rotated = maybe_double (maybe_balance fuel fetch) fetch t left >>= λ t'.
    rotate (maybe_balance fuel fetch) fetch t' left in
    if abs_at_most_one (Node.balance_factor t) then ok t else rotated

abbrev pub is_held : Slot → Bool
is_held vacant = false
is_held (holds l) = true

module _ (fuel : ℕ) (fetch : Fetch) where
  -- `remove_edge`; the first argument bounds the depth.
  unfoldable pub remove_edge : ℕ → Tree → Bool → Result (Tree × Option Tree)
  unfolding maybe_balance detach detach_expect Node.link Node.attach
  remove_edge zero t left = stuck
  remove_edge (suc depth) t left = elim (Node.link t left) [
    | holds _ ↦ do
      (tree, child) ← detach_expect fetch t left
      (edge, maybe_child) ← remove_edge depth child left
      tree' ← Node.attach tree left maybe_child
      tree'' ← maybe_balance fuel fetch tree'
      ok (edge, some tree'')
    | vacant ↦ detach fetch t (not left)
  ]

  unfoldable pub promote_edge : ℕ → Tree → Bool → Tree → Result Tree
  unfolding remove_edge
  promote_edge depth t left attached = do
    (edge, maybe_child) ← remove_edge depth t left
    edge' ← Node.attach edge (not left) maybe_child
    edge'' ← Node.attach edge' left (some attached)
    maybe_balance fuel fetch edge''

  -- `remove`: of the root; the edge of the taller child takes its place.
  unfoldable pub remove : ℕ → Tree → Result (Option Tree)
  unfolding promote_edge Node.child_height
  remove depth t =
      let has_left = is_held (Node.link t true) in
      let has_right = is_held (Node.link t false) in
      let left = ltb (Node.child_height t false) (Node.child_height t true) in
      if has_left && has_right
      then (do
        (tree, tall_child) ← detach_expect fetch t left
        (rest, short_child) ← detach_expect fetch tree (not left)
        some_of (promote_edge depth tall_child (not left) short_child))
      else if has_left || has_right
      then (detach_expect fetch t left >>= λ r. ok (some r.1))
      else ok none

-- A tree, if any is left, and the deleted keys.
abbrev pub Applied : Type 0
Applied = Option Tree × List Bytes

-- `apply_to` on the child of a side, if there are operations for it.
unfoldable pub walk_apply :
    (Option Tree → Batch → Result Applied)
    → Fetch
    → Tree
    → Bool
    → Batch
    → Result (Tree × List Bytes)
unfolding detach Node.attach
walk_apply apply_child fetch t left [] = ok (t, [])
walk_apply apply_child fetch t left (entry ∷ batch) = do
  (rest, maybe_child) ← detach fetch t left
  (new_child, deleted_keys) ← apply_child maybe_child (entry ∷ batch)
  t' ← Node.attach rest left new_child
  ok (t', deleted_keys)

-- `recurse`: the index and `exclusive` are those of the search.
unfoldable pub recurse :
    ℕ → (Option Tree → Batch → Result Applied) → Fetch → Tree → Batch → Search → Result Applied
unfolding walk_apply maybe_balance
recurse fuel apply_child fetch t batch search = do
  (t1, deleted_left) ← walk_apply apply_child fetch t true (before search batch)
  (t2, deleted_right) ← walk_apply apply_child fetch t1 false (behind search batch)
  t3 ← maybe_balance fuel fetch t2
  ok (some t3, deleted_left ++ deleted_right)

module _ ⦃h : Hasher⦄ (fuel : ℕ) where
  abbrev pub build_entry :
      (Option Tree → Batch → Result Applied) → Batch → ℕ → Bytes × Op → Result (Option Tree)
  build_entry apply_child batch mid (key, delete) = err delete_nonexistent
  build_entry apply_child batch mid (key, put value) = do
    t ← Node.new key value
    (maybe_tree, deleted_keys) ← recurse fuel apply_child panic_source t batch (found mid)
    ok maybe_tree

  -- `build`, from the middle of the batch.
  unfoldable pub build : (Option Tree → Batch → Result Applied) → Batch → Result (Option Tree)
  unfolding recurse Node.new panic_source
  build apply_child [] = ok none
  build apply_child (entry ∷ batch) = do
    mid_entry ← expect (get_elem? (entry ∷ batch) (length (entry ∷ batch) / 2))
    build_entry apply_child (entry ∷ batch) (length (entry ∷ batch) / 2) mid_entry

  abbrev pub apply_entry :
      ℕ → (Option Tree → Batch → Result Applied) → Fetch → Tree → Batch → ℕ → Op → Result Applied
  apply_entry depth apply_child fetch t batch index (put value) = do
    t' ← Node.with_value t value
    recurse fuel apply_child fetch t' batch (found index)
  apply_entry depth apply_child fetch t batch index delete = do
    maybe_tree ← remove fuel fetch depth t
    (maybe_tree1, deleted_keys) ← apply_child maybe_tree (take index batch)
    (maybe_tree2, deleted_right) ← apply_child maybe_tree1 (drop (suc index) batch)
    ok (maybe_tree2, deleted_keys ++ (deleted_right ++ (Link.tree_key t ∷ [])))

  abbrev pub apply_found :
      ℕ → (Option Tree → Batch → Result Applied) → Fetch → Tree → Batch → Search → Result Applied
  apply_found depth apply_child fetch t batch (missing index) =
      recurse fuel apply_child fetch t batch (missing index)
  apply_found depth apply_child fetch t batch (found index) = do
    entry ← expect (get_elem? batch index)
    apply_entry depth apply_child fetch t batch index entry.1

  -- `apply`, on a tree that is there.
  unfoldable pub apply :
      ℕ → (Option Tree → Batch → Result Applied) → Fetch → Tree → Batch → Result Applied
  unfolding recurse remove Node.with_value binary_search
  apply depth apply_child fetch t batch =
      apply_found depth apply_child fetch t batch
        (binary_search (λ entry. entry.0) batch (Link.tree_key t))

  -- `apply_to`; the first argument bounds the depth of the calls.
  unfoldable pub apply_to : ℕ → Fetch → Option Tree → Batch → Result Applied
  unfolding apply build
  apply_to depth fetch maybe_tree [] = ok (maybe_tree, [])
  apply_to zero fetch maybe_tree (entry ∷ batch) = stuck
  apply_to (suc depth) fetch none (entry ∷ batch) = do
    maybe_tree ← build (apply_to depth panic_source) (entry ∷ batch)
    ok (maybe_tree, [])
  apply_to (suc depth) fetch (some t) (entry ∷ batch) =
      apply depth (apply_to depth fetch) fetch t (entry ∷ batch)
