-- ===== src/Examples/Balance.antt =====
-- Balancing, removing and applying a batch (src/tree/ops.rs) on small trees.
use liftedmerk.Base.{
  ℕ, ◌≡◌, ◌≤◌, ◌∷◌, ◌++◌, [], refl, max, suc, cmp, Bytes, List, Option, some, ok, arith,
}
use liftedmerk.Tree.Types.{Tree, node, Slot, vacant, holds, modified}
use liftedmerk.Tree.Link
use liftedmerk.Tree.Walk.{Fetch}
use liftedmerk.Tree.Shape.{Shape, leaf, fork, height}
use liftedmerk.Tree.Ops.{Batch, put, delete, panic_source, maybe_balance, remove, apply_to}
use liftedmerk.Tree.Ops.Balances.{still}
use liftedmerk.Tree.Ops.Avl.{IsAvl}
use liftedmerk.Tree.Ops.Contents.{contents}
use liftedmerk.Tree.Ops.Holds.{pair, Holds, Stands, StandsMaybe}
use liftedmerk.Tree.Ops.Rebalance.{maybe_balance-IsAvl}
use liftedmerk.Tree.Ops.Refines.Balance.{maybe_balance-Balances}
use liftedmerk.Tree.Ops.Remove.Root.{remove-contents}
use liftedmerk.Tree.Ops.Update.{update, step}
use liftedmerk.Tree.Ops.Update.Cuts.{IsAscending}
use liftedmerk.Tree.Ops.Apply.Run.{apply_to-update}
use liftedmerk.Examples.Sample.{sum_hasher}

abbrev pub key : ℕ → Bytes
key n = n ∷ []

abbrev pub val : ℕ → Bytes
val n = n ∷ n ∷ []

abbrev pub single : ℕ → Shape
single n = fork leaf (key n) (val n) leaf

abbrev pub single_tree : ℕ → Tree
single_tree n = node vacant vacant (pair (key n) (val n))

abbrev pub single_slot : ℕ → Slot
single_slot n = holds (modified 1 (0, 0) (single_tree n))

pub single-Holds : (fetch : Fetch) (n : ℕ) → Holds fetch (single n) (single_slot n)
unfolding Link.child_heights
single-Holds fetch n =
    (modified 1 (0, 0) (single_tree n), vacant, vacant, refl, refl, tt, refl, refl, refl)

abbrev pub tall : Shape
tall = fork (single 3) (key 4) (val 4) (single 5)

abbrev pub tall_tree : Tree
tall_tree = node (single_slot 3) (single_slot 5) (pair (key 4) (val 4))

abbrev pub tall_slot : Slot
tall_slot = holds (modified 3 (1, 1) tall_tree)

pub tall-Holds : (fetch : Fetch) → Holds fetch tall tall_slot
unfolding Link.child_heights
tall-Holds fetch = (
  modified 3 (1, 1) tall_tree,
  single_slot 3,
  single_slot 5,
  refl,
  refl,
  tt,
  refl,
  single-Holds fetch 3,
  single-Holds fetch 5,
)

pub single-IsAvl : (n : ℕ) → IsAvl (single n)
single-IsAvl n = (omega arith, omega arith, tt, tt)

pub tall-IsAvl : IsAvl tall
tall-IsAvl = (omega arith, omega arith, single-IsAvl 3, single-IsAvl 5)

-- Nothing on the left, two levels on the right.
maybe_balance-IsAvl_example :
    (s' : Shape) × (t' : Tree) × (maybe_balance 386 panic_source
        (node vacant tall_slot (pair (key 2) (val 2)))
      ≡ ok t')
    × Stands panic_source s' t'
    × IsAvl s'
    × (contents s' ≡ contents (fork leaf (key 2) (val 2) tall))
    × (max 0 2 ≤ suc (height s'))
    × (height s' ≤ suc (max 0 2))
maybe_balance-IsAvl_example =
    maybe_balance-IsAvl panic_source 386 leaf tall (key 2) (val 2) vacant tall_slot (omega arith) tt
      tall-IsAvl (omega arith) (omega arith) refl (tall-Holds panic_source)

maybe_balance-Balances_example :
    (t' : Tree) × (maybe_balance 1 panic_source tall_tree ≡ ok t') × Stands panic_source tall t'
maybe_balance-Balances_example =
    maybe_balance-Balances panic_source 1
      (still 0 (single 3) (single 5) (key 4) (val 4) (omega arith) (omega arith) (omega arith)
        (omega arith))
      tall_tree
      (single_slot 3, single_slot 5, refl, single-Holds panic_source 3, single-Holds panic_source 5)

-- Removing the root of a node with two children.
remove-contents_example :
    (s : Shape) × (o : Option Tree) × (remove 386 panic_source 2
        (node (single_slot 1) tall_slot (pair (key 2) (val 2)))
      ≡ ok o)
    × StandsMaybe panic_source s o
    × IsAvl s
    × (contents s ≡ contents (single 1) ++ contents tall)
remove-contents_example =
    remove-contents panic_source 386 (omega arith) 2 (single 1) tall (key 2) (val 2) (single_slot 1)
      tall_slot (single-IsAvl 1) tall-IsAvl (single-Holds panic_source 1) (tall-Holds panic_source)
      (omega arith) (omega arith) (unfold contents in omega arith)

-- A new key below the root, and the root deleted.
abbrev pub changes : Batch
changes = (key 1, put (val 7)) ∷ (key 4, delete) ∷ []

apply_to-update_example :
    (s' : Shape) × (o' : Option Tree) × (deleted : List Bytes) × (apply_to 386 259 panic_source
        (some tall_tree)
        changes
      ≡ ok (o', deleted))
    × StandsMaybe panic_source s' o'
    × IsAvl s'
    × (contents s' ≡ (key 1, val 7) ∷ (key 3, val 3) ∷ (key 5, val 5) ∷ [])
    × IsAscending (contents s')
apply_to-update_example =
    apply_to-update 386 (omega arith) 259 panic_source tall (some tall_tree) changes
      ((key 1, val 7) ∷ (key 3, val 3) ∷ (key 5, val 5) ∷ [])
      (single_slot 3, single_slot 5, refl, single-Holds panic_source 3, single-Holds panic_source 5)
      tall-IsAvl (unfold contents cmp in ((refl, (refl, tt)), ((refl, tt), (tt, tt))))
      (unfold cmp in ((refl, tt), (tt, tt))) ((omega arith, omega arith), (tt, tt))
      (unfold update step contents cmp in refl) (unfold contents in omega arith) (omega arith)
