-- ===== src/Tree/Ops/Rebalance.antt =====
-- `maybe_balance` (src/tree/ops.rs) on a node whose sides are balanced trees.
use liftedmerk.Base.{
  ℕ, zero, suc, ◌+◌, ◌*◌, ◌^◌, ◌≡◌, ◌≤◌, ◌<◌, ◌∷◌, refl, max, Bytes, ok, length, length-append,
  arith, inl, inr,
}
use liftedmerk.Tree.Hash.{Hasher}
use liftedmerk.Tree.Types.{Tree, node, Slot}
use liftedmerk.Tree.Walk.{Fetch}
use liftedmerk.Tree.Shape.{Shape, leaf, fork, height}
use liftedmerk.Tree.Ops.{maybe_balance}
use liftedmerk.Tree.Ops.Avl.{IsAvl, le-cases}
use liftedmerk.Tree.Ops.Avl.Heavy.{levelled}
use liftedmerk.Tree.Ops.Avl.General.{balances}
use liftedmerk.Tree.Ops.Contents.{contents, contents-Balances}
use liftedmerk.Tree.Ops.Holds.{pair, Holds, Stands}
use liftedmerk.Tree.Ops.Refines.Balance.{maybe_balance-Balances}

-- More entries than there can be.
abbrev pub limit : ℕ
limit = 2 ^ 63

pub length-contents :
    (l r : Shape) (k v : Bytes)
    → length (contents (fork l k v r)) ≡ length (contents l) + suc (length (contents r))
unfolding contents
length-contents l r k v = length-append (contents l) ((k, v) ∷ contents r)

-- A balanced tree of `2 k + 1` levels has `2 ^ k` entries at least.
grown : (k : ℕ) (s : Shape) → IsAvl s → suc (2 * k) ≤ height s → 2 ^ k ≤ length (contents s)
grown k leaf avl tall = absurd (omega arith)
grown zero (fork l key v r) avl tall = omega (arith, length-contents l r key v)
grown (suc k) (fork l key v r) (lr, rl, al, ar) tall =
    omega (arith, length-contents l r key v, grown k l al (omega arith), grown k r ar (omega arith))

pub low_enough : (s : Shape) → IsAvl s → length (contents s) < limit → height s ≤ 126
low_enough s avl few = elim (le-cases (height s) 126) [
  | inl low ↦ low
  | inr tall ↦ absurd (omega (arith, grown 63 s avl (omega arith)))
]

module _ ⦃h : Hasher⦄ (fetch : Fetch) where
  -- On a node whose sides stand for balanced trees of at most 126 levels, `maybe_balance` with fuel 386
  -- succeeds. The tree that it returns stands for a balanced tree with the same entries in the same
  -- order, and is at most one level lower or higher than the taller side.
  pub maybe_balance-IsAvl :
      (n : ℕ) (l r : Shape) (k v : Bytes) (sl sr : Slot)
      → 386 ≤ n
      → IsAvl l
      → IsAvl r
      → height l ≤ 126
      → height r ≤ 126
      → Holds fetch l sl
      → Holds fetch r sr
      → (s' : Shape) × (t' : Tree) × (maybe_balance n fetch (node sl sr (pair k v)) ≡ ok t')
        × Stands fetch s' t'
        × IsAvl s'
        × (contents s' ≡ contents (fork l k v r))
        × (max (height l) (height r) ≤ suc (height s'))
        × (height s' ≤ suc (max (height l) (height r)))
  maybe_balance-IsAvl n l r k v sl sr fuel al ar fl fr hl hr =
      elim (balances l r k v n al ar fl fr fuel) [
        | levelled s' d avl low high ↦
            let (t', e, stands) =
              maybe_balance-Balances fetch n d (node sl sr (pair k v)) (sl, sr, refl, hl, hr) in
            (s', t', e, stands, avl, contents-Balances n d, omega arith, omega arith)
      ]

  -- The same for a node with few enough entries.
  pub rebalance :
      (n : ℕ) (l r : Shape) (k v : Bytes) (sl sr : Slot)
      → 386 ≤ n
      → IsAvl l
      → IsAvl r
      → length (contents (fork l k v r)) < limit
      → Holds fetch l sl
      → Holds fetch r sr
      → (s' : Shape) × (t' : Tree) × (maybe_balance n fetch (node sl sr (pair k v)) ≡ ok t')
        × Stands fetch s' t'
        × IsAvl s'
        × (contents s' ≡ contents (fork l k v r))
  rebalance n l r k v sl sr fuel al ar few hl hr =
      let (s', t', e, stands, avl, same, low, high) =
        maybe_balance-IsAvl n l r k v sl sr fuel al ar
          (low_enough l al (omega (arith, length-contents l r k v)))
          (low_enough r ar (omega (arith, length-contents l r k v))) hl hr in
      (s', t', e, stands, avl, same)
