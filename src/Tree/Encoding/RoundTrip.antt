-- ===== src/Tree/Encoding/RoundTrip.antt =====
-- Decoding a stored node (src/tree/encoding.rs, src/tree/link.rs).
use liftedmerk.Base.{
  ℕ, ◌+◌, ◌%◌, ◌∷◌, [], ◌++◌, ◌≡◌, ◌<◌, ◌∙◌, refl, ap, Bytes, ok, read_exact-append,
  read_exact-of_length, append_assoc, length, length-append, arith,
}
use liftedmerk.Ed.{Ed}
use liftedmerk.Tree.Types.{
  Kv, node, Slot, vacant, holds, Link, reference, modified, uncommitted, loaded,
}
use liftedmerk.Tree.Link
use liftedmerk.Tree.Encoding.{
  encode_fields, encode_link, link_encoding_length, read_u8, decode_link, encode_kv, decode_kv,
  encode, decode, slot_option, option_slot,
}

-- What the encoding keeps of a link: a reference to its tree.
abbrev pub stored_link : Link → Link
stored_link (reference h c k) = reference h c k
stored_link (modified p c t) = modified p c t
stored_link (uncommitted h c t) = reference h c (Link.tree_key t)
stored_link (loaded h c t) = reference h c (Link.tree_key t)

abbrev pub stored_slot : Slot → Slot
stored_slot vacant = vacant
stored_slot (holds l) = holds (stored_link l)

-- A link with an encoding: its hash is known and has 20 bytes, its key fewer than 256.
abbrev pub LinkFits : Link → Type 0
LinkFits (reference h c k) = (length h ≡ 20) × (length k < 256)
LinkFits (modified p c t) = ⊥
LinkFits (uncommitted h c t) = (length h ≡ 20) × (length (Link.tree_key t) < 256)
LinkFits (loaded h c t) = (length h ≡ 20) × (length (Link.tree_key t) < 256)

abbrev pub SlotFits : Slot → Type 0
SlotFits vacant = Unit {0}
SlotFits (holds l) = LinkFits l

read_u8_lem : (b : ℕ) (rest : Bytes) → read_u8 (b ∷ rest) ≡ ok (b, rest)
unfolding read_u8
read_u8_lem b rest = refl

decode_link-fields :
    (h k rest : Bytes) (c : ℕ × ℕ)
    → length h ≡ 20
    → length k < 256
    → decode_link (encode_fields h k c ++ rest) ≡ ok (reference h c k, rest)
unfolding decode_link
decode_link-fields h k rest c hh hk =
    let small : length k % 256 ≡ length k = omega arith in
    rw (
      small,
      append_assoc k (h ++ (c.0 ∷ c.1 ∷ [])) rest,
      append_assoc h (c.0 ∷ c.1 ∷ []) rest,
      read_exact-append k (h ++ (c.0 ∷ c.1 ∷ rest)),
      read_exact-of_length 20 h (c.0 ∷ c.1 ∷ rest) hh,
    )

fields_length :
    (h k : Bytes) (c : ℕ × ℕ) → length h ≡ 20 → 1 + length k + 20 + 2 ≡ length (encode_fields h k c)
fields_length h k c hh =
    omega (arith, length-append k (h ++ (c.0 ∷ c.1 ∷ [])), length-append h (c.0 ∷ c.1 ∷ []))

-- A link that has an encoding decodes, whatever follows, to the reference that is kept of it, and its
-- bytes are as many as its encoding length.
pub decode_link-encode_link :
    (l : Link) (rest : Bytes)
    → LinkFits l
    → (bytes : Bytes) × (encode_link l ≡ ok bytes)
      × (decode_link (bytes ++ rest) ≡ ok (stored_link l, rest))
      × (link_encoding_length l ≡ ok (length bytes))
unfolding encode_link link_encoding_length
decode_link-encode_link (reference h c k) rest (hh, hk) =
    (encode_fields h k c, refl, decode_link-fields h k rest c hh hk, ap ok (fields_length h k c hh))
decode_link-encode_link (modified p c t) rest fits = absurd fits
decode_link-encode_link (uncommitted h c t) rest (hh, hk) = (
  encode_fields h (Link.tree_key t) c,
  refl,
  decode_link-fields h (Link.tree_key t) rest c hh hk,
  ap ok (fields_length h (Link.tree_key t) c hh),
)
decode_link-encode_link (loaded h c t) rest (hh, hk) = (
  encode_fields h (Link.tree_key t) c,
  refl,
  decode_link-fields h (Link.tree_key t) rest c hh hk,
  ap ok (fields_length h (Link.tree_key t) c hh),
)

module _ ⦃e : Ed⦄ where
  slot_trip :
      (s : Slot) (rest : Bytes)
      → SlotFits s
      → (bytes : Bytes) × (e.encode_option Link encode_link (slot_option s) ≡ ok bytes)
        × (e.decode_option Link decode_link (bytes ++ rest)
            ≡ ok (slot_option (stored_slot s), rest))
  slot_trip vacant rest fits =
      (0 ∷ [], e.encode_option_none Link encode_link, e.decode_option_zero Link decode_link rest)
  slot_trip (holds l) rest fits =
      let (bytes, encoded, decoded, len) = decode_link-encode_link l rest fits in
      (
        1 ∷ bytes,
        e.encode_option_some Link encode_link l ∙ rw encoded,
        e.decode_option_one Link decode_link (bytes ++ rest) ∙ rw decoded,
      )

  option_slot_lem : (s : Slot) → option_slot (slot_option s) ≡ s
  option_slot_lem vacant = refl
  option_slot_lem (holds l) = refl

  kv_trip : (kv : Kv) → length kv.hash ≡ 20 → decode_kv (encode_kv kv) ≡ ok (record kv { key = [] })
  unfolding decode_kv encode_kv
  kv_trip kv hh = rw (read_exact-of_length 20 kv.hash kv.value hh)

  -- A node whose links have encodings, and whose hash has 20 bytes, is encoded; decoding the bytes
  -- with its key gives the node with references for its links.
  pub decode-encode_tree :
      (l r : Slot) (kv : Kv)
      → SlotFits l
      → SlotFits r
      → length kv.hash ≡ 20
      → (bytes : Bytes) × (encode (node l r kv) ≡ ok bytes)
        × (decode kv.key bytes ≡ ok (node (stored_slot l) (stored_slot r) kv))
  unfolding encode decode
  decode-encode_tree l r kv fits_l fits_r hh =
      let (right, encoded_r, decoded_r) = slot_trip r (encode_kv kv) fits_r in
      let (left, encoded_l, decoded_l) = slot_trip l (right ++ encode_kv kv) fits_l in
      (
        left ++ (right ++ encode_kv kv),
        rw (encoded_l, encoded_r),
        rw (
          decoded_l,
          decoded_r,
          kv_trip kv hh,
          option_slot_lem (stored_slot l),
          option_slot_lem (stored_slot r),
        ),
      )
