-- ===== src/Tree/Iter/Entries.antt =====
-- The items of the iterator (src/tree/iter.rs), against the entries of a tree by recursion.
use liftedmerk.Base.{
  ℕ, suc, ◌≡◌, ◌∙◌, ◌∷◌, [], ◌++◌, refl, sym, ap, List, Bool, true, false, Result, ok, err, panic,
  stuck, ◌>>=◌, append_assoc, append-nil,
}
use liftedmerk.Tree.Types.{
  Kv, Tree, node, Slot, vacant, holds, reference, modified, uncommitted, loaded,
}
use liftedmerk.Tree.Link
use liftedmerk.Tree.Node
use liftedmerk.Tree.Iter.{Entry, StackItem, new_item, to_entry, iter, is_none, next, collect}

-- The entries in memory, from left to right.
unfoldable mutual
  pub entries : Tree → List Entry
  entries (node sl sr kv) = entries_below sl ++ ((kv.key, kv.value) ∷ entries_below sr)

  pub entries_below : Slot → List Entry
  entries_below vacant = []
  entries_below (holds (reference x c k)) = []
  entries_below (holds (modified p c t)) = entries t
  entries_below (holds (uncommitted x c t)) = entries t
  entries_below (holds (loaded x c t)) = entries t

-- The fuel for a tree, over the fuel for what comes after it.
unfoldable mutual
  pub passes : Tree → ℕ → ℕ
  passes (node sl sr kv) later = passes_below sl (suc (passes_below sr (suc later)))

  pub passes_below : Slot → ℕ → ℕ
  passes_below vacant later = later
  passes_below (holds (reference x c k)) later = later
  passes_below (holds (modified p c t)) later = suc (passes t later)
  passes_below (holds (uncommitted x c t)) later = suc (passes t later)
  passes_below (holds (loaded x c t)) later = suc (passes t later)

abbrev prepend : List Entry → Result (List Entry) → Result (List Entry)
prepend es m = m >>= λ rest. ok (es ++ rest)

prepend_nil : (m : Result (List Entry)) → m ≡ prepend [] m
prepend_nil (ok a) = refl
prepend_nil (err x) = refl
prepend_nil panic = refl
prepend_nil stuck = refl

prepend_twice :
    (ls rs : List Entry) (entry : Entry) (m : Result (List Entry))
    → prepend ls (prepend rs m >>= λ rest. ok (entry ∷ rest)) ≡ prepend (ls ++ (entry ∷ rs)) m
prepend_twice ls rs entry (ok a) = ap ok (sym (append_assoc ls (entry ∷ rs) a))
prepend_twice ls rs entry (err x) = refl
prepend_twice ls rs entry panic = refl
prepend_twice ls rs entry stuck = refl

abbrev item : Tree → Bool → Bool → Bool → StackItem
item t a b c = record { tree = t; left_done = a; self_done = b; right_done = c }

mutual
  unfolding collect next new_item to_entry entries entries_below passes passes_below Node.child
      Node.link Link.tree Link.tree_key Node.value

  collect_tree :
      (t : Tree) (later : ℕ) (stack : List StackItem)
      → collect (passes t later) (new_item t ∷ stack) ≡ prepend (entries t) (collect later stack)
  collect_tree (node sl sr kv) later stack =
      collect_left sl sr kv (passes_below sr (suc later)) stack
      ∙ ap (λ m. prepend (entries_below sl) (m >>= λ rest. ok ((kv.key, kv.value) ∷ rest)))
          (collect_right sl sr kv later stack)
      ∙ prepend_twice (entries_below sl) (entries_below sr) (kv.key, kv.value) (collect later stack)

  collect_left :
      (sl sr : Slot) (kv : Kv) (later : ℕ) (stack : List StackItem)
      → collect (passes_below sl (suc later)) (new_item (node sl sr kv) ∷ stack)
        ≡ prepend (entries_below sl) (
            collect (suc later) (
              item (node sl sr kv) true false (is_none (Node.child (node sl sr kv) false)) ∷ stack))
  collect_left vacant sr kv later stack = prepend_nil _
  collect_left (holds (reference x c k)) sr kv later stack = prepend_nil _
  collect_left (holds (modified p c t)) sr kv later stack = collect_tree t (suc later) _
  collect_left (holds (uncommitted x c t)) sr kv later stack = collect_tree t (suc later) _
  collect_left (holds (loaded x c t)) sr kv later stack = collect_tree t (suc later) _

  collect_right :
      (sl sr : Slot) (kv : Kv) (later : ℕ) (stack : List StackItem)
      → collect
          (passes_below sr (suc later))
          (item (node sl sr kv) true true (is_none (Node.child (node sl sr kv) false)) ∷ stack)
        ≡ prepend (entries_below sr) (collect later stack)
  collect_right sl vacant kv later stack = prepend_nil _
  collect_right sl (holds (reference x c k)) kv later stack = prepend_nil _
  collect_right sl (holds (modified p c t)) kv later stack = collect_tree t (suc later) _
  collect_right sl (holds (uncommitted x c t)) kv later stack = collect_tree t (suc later) _
  collect_right sl (holds (loaded x c t)) kv later stack = collect_tree t (suc later) _

-- With the fuel counted by `passes`, the iterator of a tree ends without a panic, and its items are
-- the entries of the nodes in memory from left to right.
pub collect-entries : (t : Tree) → collect (passes t 1) (iter t) ≡ ok (entries t)
unfolding iter collect next
collect-entries t = collect_tree t 1 [] ∙ ap ok (append-nil (entries t))
