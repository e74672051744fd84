-- ===== src/Tree/Shape.antt =====
-- What a tree of src/tree stands for: a binary tree of keys and values, whatever is pruned. The
-- relation `Rep` ties a slot to it through a source of pruned nodes, with the stored hashes up to date.
use liftedmerk.Base.{
  ℕ, suc, max, ◌≡◌, ◌<◌, ◌∷◌, ◌++◌, Bytes, true, false, Option, none, some, ok, cmp, length,
  be_bytes_u16, arith,
}
use Prim.Native.Nat.Ordering.{lt, eq, gt}
use liftedmerk.Tree.Hash.{Hash, Hasher, kv_hash, node_hash, null_hash}
use liftedmerk.Tree.Types.{
  Tree, Slot, vacant, holds, Link, reference, modified, uncommitted, loaded,
}
use liftedmerk.Tree.Link
use liftedmerk.Tree.Node
use liftedmerk.Tree.Walk.{Fetch}

pub data Shape : Type 0 where
  leaf : Shape
  fork : Shape → Bytes → Bytes → Shape → Shape

abbrev pub height : Shape → ℕ
height leaf = 0
height (fork l k v r) = suc (max (height l) (height r))

-- The lengths that `kv_hash` does not panic at.
abbrev pub Sized : Shape → Type 0
Sized leaf = Unit {0}
Sized (fork l k v r) = (length k < 256) × (length v < 65536) × Sized l × Sized r

abbrev pub AllKeys : (Bytes → Type 0) → Shape → Type 0
AllKeys P leaf = Unit {0}
AllKeys P (fork l k v r) = P k × AllKeys P l × AllKeys P r

abbrev pub IsOrdered : Shape → Type 0
IsOrdered leaf = Unit {0}
IsOrdered (fork l k v r) =
    AllKeys (λ x. cmp x k ≡ lt) l × AllKeys (λ x. cmp k x ≡ lt) r × IsOrdered l × IsOrdered r

unfoldable pub lookup : Shape → Bytes → Option Bytes
lookup leaf q = none
lookup (fork l k v r) q = elim (cmp q k) [ lt ↦ lookup l q | eq ↦ some v | gt ↦ lookup r q ]

pub AllKeys-imp :
    (P Q : Bytes → Type 0) → ((x : Bytes) → P x → Q x) → (s : Shape) → AllKeys P s → AllKeys Q s
AllKeys-imp P Q f leaf a = tt
AllKeys-imp P Q f (fork l k v r) (pk, pl, pr) =
    (f k pk, AllKeys-imp P Q f l pl, AllKeys-imp P Q f r pr)

module _ ⦃h : Hasher⦄ where
  unfoldable pub kv_digest : Bytes → Bytes → Hash
  kv_digest k v = h.digest ((length k ∷ k) ++ be_bytes_u16 (length v) ++ v)

  pub kv_hash-kv_digest :
      (k v : Bytes) → length k < 256 → length v < 65536 → kv_hash k v ≡ ok (kv_digest k v)
  unfolding kv_hash kv_digest
  kv_hash-kv_digest k v hk hv = ground arith

  -- The Merkle root: the hash of the pair, and the roots of both sides.
  unfoldable pub root_hash : Shape → Hash
  root_hash leaf = null_hash
  root_hash (fork l k v r) = node_hash (kv_digest k v) (root_hash l) (root_hash r)

  -- The tree behind a link, in memory or in the source.
  abbrev pub Resolves : Fetch → Link → Tree → Type 0
  Resolves fetch (reference x c k) t = fetch (reference x c k) ≡ ok t
  Resolves fetch (modified p c t') t = ⊥
  Resolves fetch (uncommitted x c t') t = t' ≡ t
  Resolves fetch (loaded x c t') t = t' ≡ t

  abbrev pub Rep : Fetch → Shape → Slot → Type 0
  Rep fetch leaf slot = slot ≡ vacant
  Rep fetch (fork l k v r) slot =
      (link : Link) × (t : Tree) × (slot ≡ holds link)
      × Resolves fetch link t
      × (Link.hash link ≡ ok (root_hash (fork l k v r)))
      × (Link.tree_key t ≡ k)
      × (Node.value t ≡ v)
      × (Node.kv_hash t ≡ kv_digest k v)
      × Rep fetch l (Node.link t true)
      × Rep fetch r (Node.link t false)

  -- The tree stands for a node with these sides, key and value.
  abbrev pub RepTree : Fetch → Shape → Bytes → Bytes → Shape → Tree → Type 0
  RepTree fetch l k v r t =
      (Link.tree_key t ≡ k)
      × (Node.value t ≡ v)
      × (Node.kv_hash t ≡ kv_digest k v)
      × Rep fetch l (Node.link t true)
      × Rep fetch r (Node.link t false)
