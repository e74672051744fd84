-- ===== src/Tree/Ops/Holds.antt =====
-- What a tree under operations (src/tree/ops.rs) stands for: links carry the heights of the shape, and
-- all links but modified ones have an up-to-date hash, with their nodes stored. `Link::Uncommitted` is
-- made by no function.
use liftedmerk.Base.{
  ℕ, suc, ◌+◌, ◌%◌, ◌≡◌, ◌≤◌, refl, ap, max, Bytes, Bool, Option, none, some, ok, arith,
}
use liftedmerk.Tree.Hash.{Hasher}
use liftedmerk.Tree.Types.{
  Kv, Tree, node, Slot, vacant, holds, Link, reference, modified, uncommitted, loaded,
}
use liftedmerk.Tree.Link
use liftedmerk.Tree.Node
use liftedmerk.Tree.Walk.{Fetch, detach, detach_expect}
use liftedmerk.Tree.Slots.{set_slot-link}
use liftedmerk.Tree.Shape.{Shape, leaf, fork, height, kv_digest, root_hash}

module _ ⦃h : Hasher⦄ where
  abbrev pub pair : Bytes → Bytes → Kv
  pair k v = record { key = k; value = v; hash = kv_digest k v }

  abbrev pub Obtains : Fetch → Link → Tree → Type 0
  Obtains fetch (reference x c k) t = fetch (reference x c k) ≡ ok t
  Obtains fetch (modified p c t') t = t' ≡ t
  Obtains fetch (uncommitted x c t') t = ⊥
  Obtains fetch (loaded x c t') t = t' ≡ t

  -- The reference to a shape.
  abbrev pub reference_to : Shape → Slot
  reference_to leaf = vacant
  reference_to (fork l k v r) = holds (reference (root_hash (fork l k v r)) (height l, height r) k)

  -- The source has every node of a shape, with references.
  abbrev pub IsStored : Fetch → Shape → Type 0
  IsStored fetch leaf = Unit {0}
  IsStored fetch (fork l k v r) =
      (fetch (reference (root_hash (fork l k v r)) (height l, height r) k)
        ≡ ok (node (reference_to l) (reference_to r) (pair k v)))
      × IsStored fetch l
      × IsStored fetch r

  -- Links that are not modified have an up-to-date hash, and what is behind them is stored.
  abbrev pub Fresh : Fetch → Link → Shape → Type 0
  Fresh fetch (reference x c k) s = (x ≡ root_hash s) × IsStored fetch s
  Fresh fetch (modified p c t) s = Unit {0}
  Fresh fetch (uncommitted x c t) s = ⊥
  Fresh fetch (loaded x c t) s = (x ≡ root_hash s) × IsStored fetch s

  abbrev pub Holds : Fetch → Shape → Slot → Type 0
  Holds fetch leaf slot = slot ≡ vacant
  Holds fetch (fork l k v r) slot =
      (link : Link) × (sl : Slot) × (sr : Slot) × (slot ≡ holds link)
      × Obtains fetch link (node sl sr (pair k v))
      × Fresh fetch link (fork l k v r)
      × (Link.child_heights link ≡ (height l, height r))
      × Holds fetch l sl
      × Holds fetch r sr

  -- A tree, or what is there of one.
  abbrev pub Stands : Fetch → Shape → Tree → Type 0
  Stands fetch leaf t = ⊥
  Stands fetch (fork l k v r) t =
      (sl : Slot) × (sr : Slot) × (t ≡ node sl sr (pair k v)) × Holds fetch l sl × Holds fetch r sr

  abbrev pub StandsMaybe : Fetch → Shape → Option Tree → Type 0
  StandsMaybe fetch leaf o = o ≡ none
  StandsMaybe fetch (fork l k v r) o =
      (sl : Slot) × (sr : Slot) × (o ≡ some (node sl sr (pair k v)))
      × Holds fetch l sl
      × Holds fetch r sr

  pub Link-height :
      (link : Link) (a b : ℕ)
      → Link.child_heights link ≡ (a, b)
      → a ≤ 254
      → b ≤ 254
      → Link.height link ≡ suc (max a b)
  unfolding Link.height
  Link-height link a b e ha hb =
      let small : (1 + max a b) % 256 ≡ suc (max a b) = omega arith in rw (e, small)

  pub slot_height-Holds :
      (fetch : Fetch) (s : Shape) (slot : Slot)
      → Holds fetch s slot
      → height s ≤ 255
      → Node.slot_height slot ≡ height s
  unfolding Link.height
  slot_height-Holds fetch leaf slot e small = rw e
  slot_height-Holds fetch (fork l k v r) slot (link, sl, sr, e, got, fresh, hs, hl, hr) small =
      rw e (Link-height link (height l) (height r) hs (omega arith) (omega arith))

  -- Detaching a side of a node.
  pub detach-Holds :
      (fetch : Fetch) (s : Shape) (t : Tree) (left : Bool)
      → Holds fetch s (Node.link t left)
      → (o : Option Tree) × (detach fetch t left ≡ ok (Node.set_slot t left vacant, o))
        × StandsMaybe fetch s o
  unfolding detach Node.detach Node.child Link.tree
  detach-Holds fetch leaf t left e =
      let same : Node.set_slot t left vacant ≡ t = rw e at (set_slot-link t left) in
      (none, rw (e, same), refl)
  detach-Holds fetch (fork l k v r) t left (reference x c k', sl, sr, e, got, fresh, hs, hl, hr) =
      (some (node sl sr (pair k v)), rw (e, got), (sl, sr, refl, hl, hr))
  detach-Holds fetch (fork l k v r) t left (modified p c t', sl, sr, e, got, fresh, hs, hl, hr) =
      (some t', rw (e, e), (sl, sr, ap some got, hl, hr))
  detach-Holds fetch (fork l k v r) t left (uncommitted x c t', sl, sr, e, got, fresh, hs, hl, hr) =
      absurd got
  detach-Holds fetch (fork l k v r) t left (loaded x c t', sl, sr, e, got, fresh, hs, hl, hr) =
      (some t', rw (e, e), (sl, sr, ap some got, hl, hr))

  pub detach_expect-Holds :
      (fetch : Fetch) (l r : Shape) (k v : Bytes) (t : Tree) (left : Bool)
      → Holds fetch (fork l k v r) (Node.link t left)
      → (t' : Tree) × (detach_expect fetch t left ≡ ok (Node.set_slot t left vacant, t'))
        × Stands fetch (fork l k v r) t'
  unfolding detach_expect
  detach_expect-Holds fetch l r k v t left held =
      let (o, e, (sl, sr, is_some, hl, hr)) = detach-Holds fetch (fork l k v r) t left held in
      (node sl sr (pair k v), rw (e, is_some), (sl, sr, refl, hl, hr))

  -- The link that attaching makes.
  from_modified_tree-Holds :
      (fetch : Fetch) (l r : Shape) (k v : Bytes) (sl sr : Slot)
      → Holds fetch l sl
      → Holds fetch r sr
      → height l ≤ 255
      → height r ≤ 255
      → Holds fetch (fork l k v r) (holds (Node.from_modified_tree (node sl sr (pair k v))))
  unfolding Node.from_modified_tree Node.child_heights Node.child_height Node.link
  from_modified_tree-Holds fetch l r k v sl sr hl hr small_l small_r = (
    Node.from_modified_tree (node sl sr (pair k v)),
    sl,
    sr,
    refl,
    refl,
    tt,
    rw (slot_height-Holds fetch l sl hl small_l, slot_height-Holds fetch r sr hr small_r),
    hl,
    hr,
  )

  pub attach-Holds :
      (fetch : Fetch) (s : Shape) (t : Tree) (left : Bool) (o : Option Tree)
      → Node.link t left ≡ vacant
      → StandsMaybe fetch s o
      → height s ≤ 256
      → (slot : Slot) × (Node.attach t left o ≡ ok (Node.set_slot t left slot)) × Holds fetch s slot
  unfolding Node.attach Node.maybe_from_modified_tree
  attach-Holds fetch leaf t left o free none_there small = (vacant, rw (free, none_there), refl)
  attach-Holds fetch (fork l k v r) t left o free (sl, sr, e, hl, hr) small = (
    holds (Node.from_modified_tree (node sl sr (pair k v))),
    rw (free, e),
    from_modified_tree-Holds fetch l r k v sl sr hl hr (omega arith) (omega arith),
  )
