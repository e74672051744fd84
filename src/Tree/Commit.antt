-- ===== src/Tree/Commit.antt =====
-- `Tree::commit` (src/tree/mod.rs) and the trait `Commit` (src/tree/commit.rs). A committer is its
-- state; what an error leaves of the tree is not modelled.
pub mod Hashes
use liftedmerk.Base.{Bytes, Bool, true, false, Result, ok, ◌>>=◌}
use liftedmerk.Tree.Hash.{Hasher}
use liftedmerk.Tree.Types.{
  Kv, Tree, node, Slot, vacant, holds, Link, reference, modified, uncommitted, loaded,
}
use liftedmerk.Tree.Link
use liftedmerk.Tree.Node

-- The trait `Commit`, for a committer with state `C`.
pub record Commit (C : Type 0) : Type 0 where
  pub write : C → Tree → Result C
  pub prune : C → Tree → Bool × Bool

-- `NoopCommit`
unfoldable pub noop_commit : Commit (Unit {0})
noop_commit = record { write = λ c t. ok c; prune = λ c t. (false, false) }

-- `link.into_reference()` on a side that is to be pruned.
unfoldable pub prune_slot : Bool → Slot → Result Slot
unfolding Link.into_reference
prune_slot false s = ok s
prune_slot true vacant = ok vacant
prune_slot true (holds l) = do l' ← Link.into_reference l; ok (holds l')

-- Writes a node whose children are committed, and prunes them as the committer says.
unfoldable pub finish : {C : Type 0} → Commit C → Slot → Slot → Kv → C → Result (Tree × C)
unfolding prune_slot
finish committer l r kv c = do
  c' ← committer.write c (node l r kv)
  let pruned = committer.prune c' (node l r kv)
  l' ← prune_slot pruned.0 l
  r' ← prune_slot pruned.1 r
  ok (node l' r' kv, c')

module _ ⦃h : Hasher⦄ {C : Type 0} (committer : Commit C) where
  unfoldable mutual
    unfolding finish Node.hash

    pub commit : Tree → C → Result (Tree × C)
    commit (node l r kv) c = do
      (l', c1) ← commit_slot l c
      (r', c2) ← commit_slot r c1
      finish committer l' r' kv c2

    -- Commits a modified child, and stores its hash.
    pub commit_slot : Slot → C → Result (Slot × C)
    commit_slot vacant c = ok (vacant, c)
    commit_slot (holds (modified p heights t)) c = do
      (t', c') ← commit t c
      hash ← Node.hash t'
      ok (holds (loaded hash heights t'), c')
    commit_slot (holds (reference x heights k)) c = ok (holds (reference x heights k), c)
    commit_slot (holds (uncommitted x heights t)) c = ok (holds (uncommitted x heights t), c)
    commit_slot (holds (loaded x heights t)) c = ok (holds (loaded x heights t), c)
