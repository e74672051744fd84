-- ===== src/Tree/Types.antt =====
-- The data of src/tree: `KV`, and the mutually recursive `Tree` and `Link`. `Slot` is `Option<Link>`.
-- The boxes `Tree.inner` and `TreeInner` leave no trace.
use liftedmerk.Base.{ℕ, Bytes}
use liftedmerk.Tree.Hash.{Hash}

pub record Kv : Type 0 where
  pub key : Bytes
  pub value : Bytes
  pub hash : Hash

mutual
  -- The fields `left`, `right` and `kv`.
  pub data Tree : Type 0 where
    node : Slot → Slot → Kv → Tree

  pub data Slot : Type 0 where
    vacant : Slot
    holds : Link → Slot

  -- `child_heights` is a pair of `u8`.
  pub data Link : Type 0 where
    reference : Hash → ℕ × ℕ → Bytes → Link
    modified : ℕ → ℕ × ℕ → Tree → Link
    uncommitted : Hash → ℕ × ℕ → Tree → Link
    loaded : Hash → ℕ × ℕ → Tree → Link
