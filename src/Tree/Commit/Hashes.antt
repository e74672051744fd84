-- ===== src/Tree/Commit/Hashes.antt =====
-- The hashes of a tree before and after committing (src/tree/mod.rs).
use liftedmerk.Base.{ℕ, ◌≡◌, refl, Bytes, Bool, true, false, ok}
use liftedmerk.Tree.Hash.{Hash, Hasher}
use liftedmerk.Tree.Types.{
  Kv, Tree, node, Slot, vacant, holds, Link, reference, modified, uncommitted, loaded,
}
use liftedmerk.Tree.Link
use liftedmerk.Tree.Node
use liftedmerk.Tree.Shape.{Shape, leaf, fork, kv_digest, root_hash}
use liftedmerk.Tree.Commit.{Commit, commit, commit_slot, finish, prune_slot}

-- A link that pruning does not panic at.
abbrev pub Prunable : Link → Type 0
Prunable (reference x c k) = Unit {0}
Prunable (modified p c t) = ⊥
Prunable (uncommitted x c t) = ⊥
Prunable (loaded x c t) = Unit {0}

abbrev pub PrunableSlot : Slot → Type 0
PrunableSlot vacant = Unit {0}
PrunableSlot (holds l) = Prunable l

module _ ⦃h : Hasher⦄ where
  -- A slot stands for a shape, with modified links down to links whose hash is up to date.
  pub data Draft : Shape → Slot → Type 0 where
    nothing : Draft leaf vacant
    clean :
        (s : Shape) (link : Link)
        → Link.hash link ≡ ok (root_hash s)
        → Prunable link
        → Draft s (holds link)
    changed :
        (l r : Shape) (k v : Bytes) (sl sr : Slot) (x : Hash) (p : ℕ) (c : ℕ × ℕ)
        → x ≡ kv_digest k v
        → Draft l sl
        → Draft r sr
        → Draft
            (fork l k v r)
            (holds (modified p c (node sl sr (record { key = k; value = v; hash = x }))))

  prune_slot-hash :
      (b : Bool) (slot : Slot) (x : Hash)
      → Node.slot_hash slot ≡ ok x
      → PrunableSlot slot
      → (slot' : Slot) × (prune_slot b slot ≡ ok slot')
        × (Node.slot_hash slot' ≡ ok x)
        × PrunableSlot slot'
  unfolding prune_slot Link.hash
  prune_slot-hash false slot x e fits = (slot, refl, e, fits)
  prune_slot-hash true vacant x e fits = (vacant, refl, e, fits)
  prune_slot-hash true (holds (reference y c k)) x e fits = (holds (reference y c k), refl, e, fits)
  prune_slot-hash true (holds (modified p c t)) x e fits = absurd fits
  prune_slot-hash true (holds (uncommitted y c t)) x e fits = absurd fits
  prune_slot-hash true (holds (loaded y c t)) x e fits =
      (holds (reference y c (Link.tree_key t)), refl, e, fits)

module _ ⦃h : Hasher⦄ {C : Type 0} (committer : Commit C)
    (writes : (c : C) (t : Tree)
      → PrunableSlot (Node.link t true)
      → PrunableSlot (Node.link t false)
      → (c' : C) × (committer.write c t ≡ ok c')) where
  finish-hash :
      (l r : Shape) (k v : Bytes) (sl sr : Slot) (x : Hash) (c : C)
      → x ≡ kv_digest k v
      → Node.slot_hash sl ≡ ok (root_hash l)
      → PrunableSlot sl
      → Node.slot_hash sr ≡ ok (root_hash r)
      → PrunableSlot sr
      → (t' : Tree) × (c' : C) × (finish committer sl sr (record { key = k; value = v; hash = x }) c
          ≡ ok (t', c'))
        × (Node.hash t' ≡ ok (root_hash (fork l k v r)))
  unfolding finish Node.hash Node.link root_hash
  finish-hash l r k v sl sr x c e el fl er fr =
      let kv : Kv = record { key = k; value = v; hash = x } in
      let (c', written) = writes c (node sl sr kv) fl fr in
      let pruned = committer.prune c' (node sl sr kv) in
      let (sl', pl, hl, fl') = prune_slot-hash pruned.0 sl (root_hash l) el fl in
      let (sr', pr, hr, fr') = prune_slot-hash pruned.1 sr (root_hash r) er fr in
      (node sl' sr' kv, c', rw (written, pl, pr), rw (hl, hr, e))

  commit_slot-hash :
      {s : Shape} {slot : Slot}
      → Draft s slot
      → (c : C)
      → (slot' : Slot) × (c' : C) × (commit_slot committer slot c ≡ ok (slot', c'))
        × (Node.slot_hash slot' ≡ ok (root_hash s))
        × PrunableSlot slot'
  unfolding commit commit_slot root_hash Link.hash
  commit_slot-hash nothing c = (vacant, c, refl, refl, tt)
  commit_slot-hash (clean s (reference x cc k) e fits) c =
      (holds (reference x cc k), c, refl, e, tt)
  commit_slot-hash (clean s (modified p cc t) e fits) c = absurd fits
  commit_slot-hash (clean s (uncommitted x cc t) e fits) c = absurd fits
  commit_slot-hash (clean s (loaded x cc t) e fits) c = (holds (loaded x cc t), c, refl, e, tt)
  commit_slot-hash (changed l r k v sl sr x p cc e dl dr) c =
      let (sl', c1, ran_l, hl, fl) = commit_slot-hash dl c in
      let (sr', c2, ran_r, hr, fr) = commit_slot-hash dr c1 in
      let (t', c3, ran, hashed) = finish-hash l r k v sl' sr' x c2 e hl fl hr fr in
      (
        holds (loaded (root_hash (fork l k v r)) cc t'),
        c3,
        rw (ran_l, ran_r, ran, hashed),
        refl,
        tt,
      )

  -- If the links of a tree are modified, down to loaded ones and references with up-to-date hashes, and
  -- its nodes have the hashes of their pairs, then committing it succeeds, if the committer's writes
  -- of nodes without modified and uncommitted links do and whatever it prunes, and leaves a tree whose
  -- hash is the Merkle root of what it stands for.
  pub commit-root_hash :
      (l r : Shape) (k v : Bytes) (sl sr : Slot) (c : C)
      → Draft l sl
      → Draft r sr
      → (t' : Tree) × (c' : C) × (commit committer
            (node sl sr (record { key = k; value = v; hash = kv_digest k v }))
            c
          ≡ ok (t', c'))
        × (Node.hash t' ≡ ok (root_hash (fork l k v r)))
  unfolding commit
  commit-root_hash l r k v sl sr c dl dr =
      let (sl', c1, ran_l, hl, fl) = commit_slot-hash dl c in
      let (sr', c2, ran_r, hr, fr) = commit_slot-hash dr c1 in
      let (t', c3, ran, hashed) = finish-hash l r k v sl' sr' (kv_digest k v) c2 refl hl fl hr fr in
      (t', c3, rw (ran_l, ran_r, ran), hashed)
