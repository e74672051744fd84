-- ===== src/Tree/Hash.antt =====
-- src/tree/hash.rs: the hashes of a key/value pair and of a node. Blake2b is a parameter: `digest`
-- takes the bytes of all the `update` calls, one after the other.
use liftedmerk.Base.{
  ℕ, ◌≡◌, ◌++◌, ◌∷◌, Bytes, Result, ok, ◌>>◌, assert, ltb, length, replicate, be_bytes_u16,
}

-- The hasher with an output of `HASH_LENGTH` bytes.
pub record Hasher : Type 0 where
  pub digest : Bytes → Bytes
  pub length-digest : (bytes : Bytes) → length (digest bytes) ≡ 20

abbrev pub hash_length : ℕ
hash_length = 20

abbrev pub Hash : Type 0
Hash = Bytes

abbrev pub null_hash : Hash
null_hash = replicate 20 0

module _ ⦃h : Hasher⦄ where
  -- Panics if the key is longer than 255 bytes or the value longer than 65,535.
  unfoldable pub kv_hash : Bytes → Bytes → Result Hash
  kv_hash key value = do
    assert (ltb (length key) 256)
    assert (ltb (length value) 65536)
    ok (h.digest ((length key ∷ key) ++ be_bytes_u16 (length value) ++ value))

  unfoldable pub node_hash : Hash → Hash → Hash → Hash
  node_hash kv left right = h.digest (kv ++ left ++ right)
