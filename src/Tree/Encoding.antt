-- ===== src/Tree/Encoding.antt =====
-- The stored form of a node: `Encode` and `Decode` of `Link` (src/tree/link.rs), `KV` (src/tree/kv.rs)
-- and the derived ones of `Tree` (src/tree/mod.rs), with the wrappers of src/tree/encoding.rs.
pub mod RoundTrip
pub mod Stored
use liftedmerk.Base.{
  ℕ, ◌+◌, ◌%◌, ◌∷◌, [], ◌++◌, Bytes, Option, none, some, Result, ok, err, panic, stuck, ◌>>=◌,
  read_exact, length,
}
use liftedmerk.Ed.{Ed}
use liftedmerk.Tree.Hash.{hash_length}
use liftedmerk.Tree.Types.{
  Kv, Tree, node, Slot, vacant, holds, Link, reference, modified, uncommitted, loaded,
}
use liftedmerk.Tree.Link

abbrev pub slot_option : Slot → Option Link
slot_option vacant = none
slot_option (holds l) = some l

abbrev pub option_slot : Option Link → Slot
option_slot none = vacant
option_slot (some l) = holds l

abbrev pub encode_fields : Bytes → Bytes → ℕ × ℕ → Bytes
encode_fields hash key heights = (length key % 256 ∷ key) ++ (hash ++ (heights.0 ∷ heights.1 ∷ []))

-- `Encode for Link`: panics on a modified link. The length is written `as u8`.
unfoldable pub encode_link : Link → Result Bytes
unfolding Link.tree_key
encode_link (reference h c k) = ok (encode_fields h k c)
encode_link (loaded h c t) = ok (encode_fields h (Link.tree_key t) c)
encode_link (uncommitted h c t) = ok (encode_fields h (Link.tree_key t) c)
encode_link (modified p c t) = panic

unfoldable pub link_encoding_length : Link → Result ℕ
unfolding Link.tree_key
link_encoding_length (reference h c k) = ok (1 + length k + 20 + 2)
link_encoding_length (modified p c t) = panic
link_encoding_length (uncommitted h c t) = ok (1 + length (Link.tree_key t) + 20 + 2)
link_encoding_length (loaded h c t) = ok (1 + length (Link.tree_key t) + 20 + 2)

abbrev pub first_byte : Bytes × Bytes → Result (ℕ × Bytes)
first_byte ([], rest) = panic
first_byte (b ∷ bs, rest) = ok (b, rest)

-- `read_u8` of src/tree/link.rs
unfoldable pub read_u8 : Bytes → Result (ℕ × Bytes)
unfolding read_exact
read_u8 input = do r ← read_exact 1 input; first_byte r

-- `Decode for Link`: always a reference.
unfoldable pub decode_link : Bytes → Result (Link × Bytes)
unfolding read_u8
decode_link input = do
  (len, r1) ← read_u8 input
  (key, r2) ← read_exact len r1
  (hash, r3) ← read_exact hash_length r2
  (left_height, r4) ← read_u8 r3
  (right_height, r5) ← read_u8 r4
  ok (reference hash (left_height, right_height) key, r5)

-- `Encode for KV`: the key is not written.
unfoldable pub encode_kv : Kv → Bytes
encode_kv kv = kv.hash ++ kv.value

-- `Decode for KV`: the value is all that is left.
unfoldable pub decode_kv : Bytes → Result Kv
decode_kv input = do
  (hash, value) ← read_exact hash_length input
  ok (record { key = []; value = value; hash = hash })

-- `unwrap` of a decoding: an error panics.
abbrev pub unwrap {ℓ} : {A : Type ℓ} → Result A → Result A
unwrap (ok a) = ok a
unwrap (err e) = panic
unwrap panic = panic
unwrap stuck = stuck

module _ ⦃e : Ed⦄ where
  -- The fields `left`, `right` and `kv`, one after the other.
  unfoldable pub encode : Tree → Result Bytes
  unfolding encode_link encode_kv
  encode (node l r kv) = do
    left ← e.encode_option Link encode_link (slot_option l)
    right ← e.encode_option Link encode_link (slot_option r)
    ok (left ++ (right ++ encode_kv kv))

  unfoldable pub decode_fields : Bytes → Result Tree
  unfolding decode_link decode_kv
  decode_fields input = do
    (l, r1) ← e.decode_option Link decode_link input
    (r, r2) ← e.decode_option Link decode_link r1
    kv ← decode_kv r2
    ok (node (option_slot l) (option_slot r) kv)

  abbrev pub set_key : Bytes → Tree → Tree
  set_key key (node l r kv) = node l r (record kv { key = key })

  -- `Tree::decode`: the key comes from outside; undecodable bytes panic.
  unfoldable pub decode : Bytes → Bytes → Result Tree
  unfolding decode_fields
  decode key input = do t ← unwrap (decode_fields input); ok (set_key key t)
