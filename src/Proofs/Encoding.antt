-- ===== src/Proofs/Encoding.antt =====
-- The binary form of proofs (src/proofs/encoding.rs). A writer is the bytes that it appends; an
-- iterator is the list of its items, up to the first error, at which its only user stops.
pub mod RoundTrip
use liftedmerk.Base.{
  ℕ, zero, suc, ◌+◌, ◌%◌, ◌∷◌, [], ◌++◌, List, Bytes, Option, none, some, Result, ok, err, stuck,
  ◌>>=◌, read_exact, unexpected_proof_value, if◌then◌else◌, ◌==◌, leb, length, drop,
}
use liftedmerk.Ed.{Ed}
use liftedmerk.Tree.Hash.{hash_length}
use liftedmerk.Proofs.Op.{Node, Op, hash, kv_hash, kv, push, parent, child}

pub record Decoder : Type 0 where
  pub offset : ℕ
  pub bytes : Bytes

-- `Decoder::new`
unfoldable pub new : Bytes → Decoder
new proof_bytes = record { offset = 0; bytes = proof_bytes }

unfoldable pub encoding_length : Op → ℕ
encoding_length (push (hash h)) = 1 + hash_length
encoding_length (push (kv_hash h)) = 1 + hash_length
encoding_length (push (kv k v)) = 4 + length k + length v
encoding_length parent = 1
encoding_length child = 1

module _ ⦃e : Ed⦄ where
  -- `as u8` and `as u16` wrap.
  unfoldable pub encode : Op → Bytes
  encode (push (hash h)) = 0x01 ∷ h
  encode (push (kv_hash h)) = 0x02 ∷ h
  encode (push (kv k v)) = 0x03 ∷ length k % 256 ∷ (k ++ (e.encode_u16 (length v % 65536) ++ v))
  encode parent = 0x10 ∷ []
  encode child = 0x11 ∷ []

  decode_kv : Bytes → Result (Op × Bytes)
  decode_kv input = do
    (key_len, r1) ← e.decode_u8 input
    (k, r2) ← read_exact key_len r1
    (value_len, r3) ← e.decode_u16 r2
    (v, r4) ← read_exact value_len r3
    ok (push (kv k v), r4)

  decode_hash : (Bytes → Node) → Bytes → Result (Op × Bytes)
  decode_hash f input = do (h, r) ← read_exact hash_length input; ok (push (f h), r)

  -- The `match` on the variant byte.
  decode_variant : ℕ → Bytes → Result (Op × Bytes)
  unfolding decode_hash decode_kv
  decode_variant variant r =
      if variant == 0x01
      then decode_hash hash r
      else if variant == 0x02
      then decode_hash kv_hash r
      else if variant == 0x03
      then decode_kv r
      else if variant == 0x10
      then ok (parent, r)
      else if variant == 0x11
      then ok (child, r)
      else err unexpected_proof_value

  unfoldable pub decode : Bytes → Result (Op × Bytes)
  unfolding decode_variant
  decode input = do (variant, r) ← e.decode_u8 input; decode_variant variant r

  -- `encode_into` over the operators of a proof.
  unfoldable pub encode_into : List Op → Bytes → Bytes
  unfolding encode
  encode_into [] output = output
  encode_into (op ∷ ops) output = encode_into ops (output ++ encode op)

  decode_at : Decoder → Result (Op × Decoder)
  unfolding decode
  decode_at d = do
    (op, rest) ← decode (drop d.offset d.bytes)
    ok (op, record d { offset = d.offset + encoding_length op })

  -- `Decoder::next`: no item at the end of the bytes; after an error the offset stays.
  unfoldable pub next : Decoder → Option (Result (Op × Decoder))
  unfolding decode_at
  next d = if leb (length d.bytes) d.offset then none else some (decode_at d)

  -- The items of the iterator. Each operator takes a byte at least, so that as much fuel as there
  -- are bytes is enough.
  unfoldable pub drain : ℕ → Decoder → List (Result Op)
  unfolding next
  drain zero d = elim (next d) [ none ↦ [] | some r ↦ stuck ∷ [] ]
  drain (suc fuel) d = elim (next d) [
    | none ↦ []
    | some (ok (op, d')) ↦ ok op ∷ drain fuel d'
    | some (err x) ↦ err x ∷ []
    | some liftedmerk.Base.panic ↦ liftedmerk.Base.panic ∷ []
    | some stuck ↦ stuck ∷ []
  ]

  unfoldable pub decode_all : Bytes → List (Result Op)
  unfolding drain new
  decode_all proof_bytes = drain (length proof_bytes) (new proof_bytes)
