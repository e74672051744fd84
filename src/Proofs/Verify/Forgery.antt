-- ===== src/Proofs/Verify/Forgery.antt =====
-- What `verify_query` (src/proofs/verify.rs) accepts below a `Hash` node: `attach` puts a child under
-- any node, and `Tree::hash` of a `Hash` node ignores its children.
use liftedmerk.Base.{
  ◌≡◌, ◌<◌, ◌∷◌, [], ◌++◌, cmp, cmp_refl, Bytes, List, none, some, ok, length, map, arith, gt_of_lt,
  be_bytes_u16,
}
use Prim.Native.Nat.Ordering.{lt}
use liftedmerk.Ed.{Ed}
use liftedmerk.Tree.Hash.{Hash, Hasher}
use liftedmerk.Tree.Hash as TreeHash
use liftedmerk.Proofs.Op.{Op, hash, kv, push, parent, child}
use liftedmerk.Proofs.Encoding.{encode_into}
use liftedmerk.Proofs.Encoding.RoundTrip.{decode_all-encode_into}
use liftedmerk.Proofs.Verify.Defs.{
  verify_query, verify_ops, execute, execute_loop, visit, match_keys,
}

-- The expected hash itself, with any pair hung below it on the right or on the left.
abbrev pub forged_value : Hash → Bytes → Bytes → List Op
forged_value root_hash k v = push (hash root_hash) ∷ push (kv k v) ∷ child ∷ []

abbrev pub forged_absence : Hash → Bytes → Bytes → List Op
forged_absence root_hash k v = push (kv k v) ∷ push (hash root_hash) ∷ parent ∷ []

module _ ⦃h : Hasher⦄ where
  kv_hash_lem :
      (k v : Bytes)
      → length k < 256
      → length v < 65536
      → TreeHash.kv_hash k v ≡ ok (h.digest ((length k ∷ k) ++ be_bytes_u16 (length v) ++ v))
  unfolding TreeHash.kv_hash
  kv_hash_lem k v hk hv = ground arith

  verify_ops-forged_value :
      (root_hash : Hash) (k v : Bytes)
      → length k < 256
      → length v < 65536
      → verify_ops (map ok (forged_value root_hash k v)) (k ∷ []) root_hash ≡ ok (some v ∷ [])
  unfolding verify_ops execute execute_loop visit match_keys
  verify_ops-forged_value root_hash k v hk hv =
      ground (arith, cmp_refl k, kv_hash_lem k v hk hv, cmp_refl root_hash)

  verify_ops-forged_absence :
      (root_hash : Hash) (k v q : Bytes)
      → length k < 256
      → length v < 65536
      → cmp q k ≡ lt
      → verify_ops (map ok (forged_absence root_hash k v)) (q ∷ []) root_hash ≡ ok (none ∷ [])
  unfolding verify_ops execute execute_loop visit match_keys
  verify_ops-forged_absence root_hash k v q hk hv lower =
      ground (arith, gt_of_lt q k lower, kv_hash_lem k v hk hv, cmp_refl root_hash)

module _ ⦃e : Ed⦄ ⦃h : Hasher⦄ where
  -- For every root hash of 20 bytes, every key of fewer than 256 bytes and every value of fewer than
  -- 65,536 there is an encoded proof that `verify_query` accepts against that root hash, and from
  -- which it reports the value as the key's.
  pub verify_query-forged_value :
      (root_hash : Hash) (k v : Bytes)
      → length root_hash ≡ 20
      → length k < 256
      → length v < 65536
      → verify_query (encode_into (forged_value root_hash k v) []) (k ∷ []) root_hash
        ≡ ok (some v ∷ [])
  unfolding verify_query
  verify_query-forged_value root_hash k v hh hk hv =
      rw (decode_all-encode_into (forged_value root_hash k v) (hh, ((hk, hv), (tt, tt))))
        (verify_ops-forged_value root_hash k v hk hv)

  -- For every root hash of 20 bytes, every key of fewer than 256 bytes with a value of fewer than
  -- 65,536, and every lower key, there is an encoded proof that `verify_query` accepts against that
  -- root hash, and from which it reports the lower key as absent.
  pub verify_query-forged_absence :
      (root_hash : Hash) (k v q : Bytes)
      → length root_hash ≡ 20
      → length k < 256
      → length v < 65536
      → cmp q k ≡ lt
      → verify_query (encode_into (forged_absence root_hash k v) []) (q ∷ []) root_hash
        ≡ ok (none ∷ [])
  unfolding verify_query
  verify_query-forged_absence root_hash k v q hh hk hv lower =
      rw (decode_all-encode_into (forged_absence root_hash k v) ((hk, hv), (hh, (tt, tt))))
        (verify_ops-forged_absence root_hash k v q hk hv lower)
