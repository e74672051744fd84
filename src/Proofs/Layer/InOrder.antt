-- ===== src/Proofs/Layer/InOrder.antt =====
-- `LayerIter` (src/proofs/verify.rs) yields a layer from left to right, and ends.
use liftedmerk.Base.{
  ℕ, zero, suc, ◌+◌, ◌-◌, ◌^◌, ◌≡◌, ◌≢◌, ◌∷◌, [], ◌++◌, ◌∙◌, refl, sym, ap, append_assoc,
  append-nil, List, true, false, ok, stuck, cmp_refl, cmp-cases, eq_of_cmp, inl, inr, length,
  length-append, arith,
}
use liftedmerk.Tree.Hash.{Hash, Hasher}
use liftedmerk.Proofs.Op.{Node}
use liftedmerk.Proofs.Verify.Defs.{Tree, tree, absent, present, tree_hash}
use liftedmerk.Proofs.Layer.{
  LayerIter, traverse_to_start, new, fill, same_tree, climb, next, collect,
}

-- The nodes at a depth, by recursion on the tree.
abbrev pub layer : ℕ → Tree → List Tree
layer zero t = t ∷ []
layer (suc d) (tree n (present lc x) (present rc y) h) = layer d lc ++ layer d rc
layer (suc d) t = []

-- Above the depth every node has both children.
abbrev pub IsPerfect : ℕ → Tree → Type 0
IsPerfect zero t = Unit {0}
IsPerfect (suc d) (tree n (present lc x) (present rc y) m) = IsPerfect d lc × IsPerfect d rc
IsPerfect (suc d) t = ⊥

module _ ⦃h : Hasher⦄ where
  -- Above the depth the hashes of the two children of a node differ.
  abbrev pub HasUnlikeSiblings : ℕ → Tree → Type 0
  HasUnlikeSiblings (suc d) (tree n (present lc x) (present rc y) m) =
      (a : Hash) × (b : Hash) × (tree_hash lc ≡ ok a)
      × (tree_hash rc ≡ ok b)
      × (a ≢ b)
      × HasUnlikeSiblings d lc
      × HasUnlikeSiblings d rc
  HasUnlikeSiblings d t = Unit {0}

  same_tree_refl : (t : Tree) (a : Hash) → tree_hash t ≡ ok a → same_tree t t ≡ ok true
  unfolding same_tree
  same_tree_refl t a e = rw (e, cmp_refl a)

  same_tree_differs :
      (t u : Tree) (a b : Hash)
      → tree_hash t ≡ ok a
      → tree_hash u ≡ ok b
      → a ≢ b
      → same_tree t u ≡ ok false
  unfolding same_tree
  same_tree_differs t u a b ea eb differ = elim (cmp-cases a b) [
    | inl low ↦ rw (ea, eb, low)
    | inr (inl same) ↦ absurd (differ (eq_of_cmp a b same))
    | inr (inr high) ↦ rw (ea, eb, high)
  ]

  fill-traverse_to_start :
      (d : ℕ) (t : Tree) (stack : List Tree) → fill d (t ∷ stack) ≡ traverse_to_start t d stack
  unfolding fill traverse_to_start
  fill-traverse_to_start zero t stack = refl
  fill-traverse_to_start (suc d) (tree n absent r m) stack = refl
  fill-traverse_to_start (suc d) (tree n (present lc x) r m) stack =
      fill-traverse_to_start d lc (tree n (present lc x) r m ∷ stack)

  starts :
      (d : ℕ) (t : Tree) (stack : List Tree)
      → IsPerfect d t
      → (stack' : List Tree) × (traverse_to_start t d stack ≡ ok stack')
  unfolding traverse_to_start
  starts zero t stack perfect = (t ∷ stack, refl)
  starts (suc d) (tree n absent r m) stack perfect = absurd perfect
  starts (suc d) (tree n (present lc x) absent m) stack perfect = absurd perfect
  starts (suc d) (tree n (present lc x) (present rc y) m) stack (pl, pr) =
      starts d lc (tree n (present lc x) (present rc y) m ∷ stack) pl

  climb_left :
      (depth : ℕ) (n : Node) (lc rc : Tree) (x y : Hash) (m : ℕ) (stack : List Tree) (a : Hash)
      (d : ℕ)
      → tree_hash lc ≡ ok a
      → depth ≡ suc d + length stack
      → climb depth (tree n (present lc x) (present rc y) m ∷ stack) lc
        ≡ traverse_to_start rc d (tree n (present lc x) (present rc y) m ∷ stack)
  unfolding climb
  climb_left depth n lc rc x y m stack a d e deep =
      let missing : suc depth - suc (suc (length stack)) ≡ d = omega (arith, deep) in
      rw (same_tree_refl lc a e)
        (rw missing (fill-traverse_to_start d rc (tree n (present lc x) (present rc y) m ∷ stack)))

  climb_right :
      (depth : ℕ) (n : Node) (lc rc : Tree) (x y : Hash) (m : ℕ) (stack : List Tree) (a b : Hash)
      → tree_hash lc ≡ ok a
      → tree_hash rc ≡ ok b
      → a ≢ b
      → climb depth (tree n (present lc x) (present rc y) m ∷ stack) rc
        ≡ climb depth stack (tree n (present lc x) (present rc y) m)
  unfolding climb
  climb_right depth n lc rc x y m stack a b ea eb differ =
      rw (same_tree_differs lc rc a b ea eb differ) refl

  one_item :
      (depth n : ℕ) (item : Tree) (stack stack' : List Tree) (ts : List Tree)
      → climb depth stack item ≡ ok stack'
      → collect n (record { stack = stack'; depth = depth }) ≡ ok ts
      → collect (suc n) (record { stack = item ∷ stack; depth = depth }) ≡ ok (item ∷ ts)
  unfolding collect next
  one_item depth n item stack stack' ts e1 e2 = rw (e1, e2) refl

  -- What is below a node comes first, then what the stack above it gives.
  yields :
      (d depth n : ℕ) (t : Tree) (stack start after ts : List Tree)
      → IsPerfect d t
      → HasUnlikeSiblings d t
      → depth ≡ d + length stack
      → traverse_to_start t d stack ≡ ok start
      → climb depth stack t ≡ ok after
      → collect n (record { stack = after; depth = depth }) ≡ ok ts
      → collect (2 ^ d + n) (record { stack = start; depth = depth }) ≡ ok (layer d t ++ ts)
  unfolding traverse_to_start
  yields zero depth n t stack start after ts perfect unlike deep e1 e2 e3 =
      let same : (t ∷ stack) ≡ start = cc e1 in
      let one : 2 ^ 0 + n ≡ suc n = omega arith in
      ap (λ fuel. collect fuel (record { stack = start; depth = depth })) one
      ∙ rw (← same) (one_item depth n t stack after ts e2 e3)
  yields (suc d) depth n (tree k absent r m) stack start after ts perfect unlike deep e1 e2 e3 =
      absurd perfect
  yields (suc d) depth n (tree k (present lc x) absent m) stack start after ts perfect unlike deep
        e1 e2 e3 =
      absurd perfect
  yields (suc d) depth n (tree k (present lc x) (present rc y) m) stack start after ts (pl, pr)
        (a, b, ea, eb, differ, ul, ur) deep e1 e2 e3 =
      let here = tree k (present lc x) (present rc y) m in
      let (middle, e4) = starts d rc (tree k (present lc x) (present rc y) m ∷ stack) pr in
      let right =
        yields d depth n rc (tree k (present lc x) (present rc y) m ∷ stack) middle after ts pr ur
          (omega (arith, deep)) e4 (climb_right depth k lc rc x y m stack a b ea eb differ ∙ e2)
          e3 in
      let left =
        yields d depth (2 ^ d + n) lc (tree k (present lc x) (present rc y) m ∷ stack) start middle
          (layer d rc ++ ts) pl ul (omega (arith, deep)) e1
          (climb_left depth k lc rc x y m stack a d ea deep ∙ e4) right in
      let twice : 2 ^ suc d + n ≡ 2 ^ d + (2 ^ d + n) = omega arith in
      rw twice (left ∙ ap ok (sym (append_assoc (layer d lc) (layer d rc) ts)))

  pub length-layer : (d : ℕ) (t : Tree) → IsPerfect d t → length (layer d t) ≡ 2 ^ d
  length-layer zero t perfect = refl
  length-layer (suc d) (tree k absent r m) perfect = absurd perfect
  length-layer (suc d) (tree k (present lc x) absent m) perfect = absurd perfect
  length-layer (suc d) (tree k (present lc x) (present rc y) m) (pl, pr) =
      omega
        (arith, length-append (layer d lc) (layer d rc), length-layer d lc pl, length-layer d rc pr)

  -- If every node of a proof tree above a depth has two children, and the hashes of these two differ,
  -- then the iterator for that depth can be made, and ends after one step for each of the `2 ^ depth`
  -- nodes there and one more, with these nodes from left to right.
  pub collect-layer :
      (depth : ℕ) (t : Tree)
      → IsPerfect depth t
      → HasUnlikeSiblings depth t
      → (iter : LayerIter) × (new t depth ≡ ok iter)
        × (collect (2 ^ depth + 1) iter ≡ ok (layer depth t))
        × (length (layer depth t) ≡ 2 ^ depth)
  unfolding new collect next climb
  collect-layer depth t perfect unlike =
      let (start, e) = starts depth t [] perfect in
      (
        record { stack = start; depth = depth },
        rw e refl,
        yields depth depth 1 t [] start [] [] perfect unlike (omega arith) e refl refl
            ∙ ap ok (append-nil (layer depth t)),
        length-layer depth t perfect,
      )

  climb_twin :
      (n : Node) (lc rc : Tree) (x y : Hash) (m : ℕ) (a : Hash)
      → tree_hash lc ≡ ok a
      → tree_hash rc ≡ ok a
      → climb 1 (tree n (present lc x) (present rc y) m ∷ []) rc
        ≡ ok (rc ∷ tree n (present lc x) (present rc y) m ∷ [])
  unfolding climb same_tree fill
  climb_twin n lc rc x y m a ea eb = rw (ea, eb, cmp_refl a) refl

  twin_again :
      (fuel : ℕ) (n : Node) (lc rc : Tree) (x y : Hash) (m : ℕ) (a : Hash)
      → tree_hash lc ≡ ok a
      → tree_hash rc ≡ ok a
      → collect fuel
          (record { stack = rc ∷ tree n (present lc x) (present rc y) m ∷ []; depth = 1 })
        ≡ stuck
  unfolding collect next
  twin_again zero n lc rc x y m a ea eb = refl
  twin_again (suc fuel) n lc rc x y m a ea eb =
      rw (climb_twin n lc rc x y m a ea eb, twin_again fuel n lc rc x y m a ea eb) refl

  -- If the two children of a proof tree have the same hash, then the iterator for the nodes below the
  -- root can be made, and never ends: no number of steps is enough.
  pub collect_twins :
      (fuel : ℕ) (n : Node) (lc rc : Tree) (x y : Hash) (m : ℕ) (a : Hash)
      → tree_hash lc ≡ ok a
      → tree_hash rc ≡ ok a
      → (iter : LayerIter) × (new (tree n (present lc x) (present rc y) m) 1 ≡ ok iter)
        × (collect fuel iter ≡ stuck)
  unfolding new traverse_to_start collect next
  collect_twins zero n lc rc x y m a ea eb =
      (record { stack = lc ∷ tree n (present lc x) (present rc y) m ∷ []; depth = 1 }, refl, refl)
  collect_twins (suc fuel) n lc rc x y m a ea eb = (
    record { stack = lc ∷ tree n (present lc x) (present rc y) m ∷ []; depth = 1 },
    refl,
    rw (climb_left 1 n lc rc x y m [] a 0 ea refl, twin_again fuel n lc rc x y m a ea eb) refl,
  )
