-- ===== src/Tree/Kv.antt =====
-- The methods of `KV` (src/tree/kv.rs). The accessors are the fields of the record.
use liftedmerk.Base.{Bytes, Result, ok, ◌>>=◌}
use liftedmerk.Tree.Hash.{Hash, Hasher, kv_hash}
use liftedmerk.Tree.Types.{Kv}

unfoldable pub from_fields : Bytes → Bytes → Hash → Kv
from_fields key value hash = record { key = key; value = value; hash = hash }

module _ ⦃h : Hasher⦄ where
  unfoldable pub new : Bytes → Bytes → Result Kv
  new key value = do hash ← kv_hash key value; ok (record { key = key; value = value; hash = hash })

  unfoldable pub with_value : Kv → Bytes → Result Kv
  with_value kv value = do
    hash ← kv_hash kv.key value
    ok (record kv { value = value; hash = hash })
