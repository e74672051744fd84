-- ===== src/Proofs/Op.antt =====
-- The operators of a proof (src/proofs/mod.rs).
use liftedmerk.Base.{Bytes}
use liftedmerk.Tree.Hash.{Hash}

pub data Node : Type 0 where
  hash : Hash → Node
  kv_hash : Hash → Node
  kv : Bytes → Bytes → Node

pub data Op : Type 0 where
  push : Node → Op
  parent : Op
  child : Op
