-- ===== src/Proofs/Encoding/RoundTrip.antt =====
-- Decoding what was encoded (src/proofs/encoding.rs).
use liftedmerk.Base.{
  ℕ, zero, suc, ◌%◌, ◌∷◌, [], ◌++◌, ◌≡◌, ◌≤◌, ◌<◌, ◌∙◌, refl, ap, map, List, Bytes, none, some, ok,
  read_exact-append, read_exact-of_length, append-nil, append_assoc, false, true, leb, length,
  length-append, drop-append, All, arith,
}
use liftedmerk.Ed.{Ed}
use liftedmerk.Proofs.Op.{Op, hash, kv_hash, kv, push, parent, child}
use liftedmerk.Proofs.Encoding.{
  new, encoding_length, encode, decode_kv, decode_hash, decode_variant, decode, encode_into,
  decode_at, next, drain, decode_all,
}

-- What the type `[u8; 20]` and the length bytes can hold.
abbrev pub Fits : Op → Type 0
Fits (push (hash h)) = length h ≡ 20
Fits (push (kv_hash h)) = length h ≡ 20
Fits (push (kv k v)) = (length k < 256) × (length v < 65536)
Fits parent = Unit {0}
Fits child = Unit {0}

module _ ⦃e : Ed⦄ where
  decode_kv-encode :
      (k v rest : Bytes)
      → length v < 65536
      → decode_kv (length k ∷ (k ++ (e.encode_u16 (length v) ++ (v ++ rest))))
        ≡ ok (push (kv k v), rest)
  unfolding decode_kv
  decode_kv-encode k v rest hv = rw (
    e.decode_u8_cons (length k) (k ++ (e.encode_u16 (length v) ++ (v ++ rest))),
    read_exact-append k (e.encode_u16 (length v) ++ (v ++ rest)),
    e.decode_u16-encode_u16 (length v) (v ++ rest) hv,
    read_exact-append v rest,
  )

  -- Decoding the bytes of an operator, whatever follows them, gives the operator, if its key has fewer
  -- than 256 bytes, its value fewer than 65,536, or its hash 20.
  pub decode-encode :
      (op : Op) (rest : Bytes) → Fits op → decode (encode op ++ rest) ≡ ok (op, rest)
  unfolding encode decode decode_variant decode_hash
  decode-encode (push (hash h)) rest fits =
      rw (e.decode_u8_cons 1 (h ++ rest), read_exact-of_length 20 h rest fits)
  decode-encode (push (kv_hash h)) rest fits =
      rw (e.decode_u8_cons 2 (h ++ rest), read_exact-of_length 20 h rest fits)
  decode-encode (push (kv k v)) rest (hk, hv) =
      let small_k : length k % 256 ≡ length k = omega arith in
      let small_v : length v % 65536 ≡ length v = omega arith in
      rw
        (
          small_k,
          small_v,
          append_assoc k (e.encode_u16 (length v) ++ v) rest,
          append_assoc (e.encode_u16 (length v)) v rest,
          e.decode_u8_cons 3 (length k ∷ (k ++ (e.encode_u16 (length v) ++ (v ++ rest)))),
        )
        (decode_kv-encode k v rest hv)
  decode-encode parent rest fits = rw (e.decode_u8_cons 0x10 rest)
  decode-encode child rest fits = rw (e.decode_u8_cons 0x11 rest)

  -- The bytes of an operator are as many as `encoding_length` says, if its key has fewer than 256
  -- bytes, its value fewer than 65,536, or its hash 20.
  pub length-encode : (op : Op) → Fits op → length (encode op) ≡ encoding_length op
  unfolding encode encoding_length
  length-encode (push (hash h)) fits = omega arith
  length-encode (push (kv_hash h)) fits = omega arith
  length-encode (push (kv k v)) fits = omega (
    arith,
    length-append {0} k (e.encode_u16 (length v % 65536) ++ v),
    length-append {0} (e.encode_u16 (length v % 65536)) v,
    e.length-encode_u16 (length v % 65536),
  )
  length-encode parent fits = refl
  length-encode child fits = refl

  -- The bytes of a list of operators, one after the other.
  abbrev pub encodings : List Op → Bytes
  encodings [] = []
  encodings (op ∷ ops) = encode op ++ encodings ops

  encode_into-encodings :
      (ops : List Op) (output : Bytes) → encode_into ops output ≡ output ++ encodings ops
  unfolding encode_into
  encode_into-encodings [] output = rw (append-nil output)
  encode_into-encodings (op ∷ ops) output =
      encode_into-encodings ops (output ++ encode op)
      ∙ append_assoc output (encode op) (encodings ops)

  encode_pos : (op : Op) → Fits op → 0 < length (encode op)
  unfolding encode
  encode_pos (push (hash h)) fits = omega arith
  encode_pos (push (kv_hash h)) fits = omega arith
  encode_pos (push (kv k v)) fits = omega arith
  encode_pos parent fits = omega arith
  encode_pos child fits = omega arith

  -- One item, at an offset behind the bytes `before`.
  next-encode :
      (before : Bytes) (op : Op) (ops : List Op)
      → Fits op
      → next (record { offset = length before; bytes = before ++ encodings (op ∷ ops) })
        ≡ some (
            ok (
              op,
              record {
                offset = length (before ++ encode op);
                bytes = (before ++ encode op) ++ encodings ops;
              },
            ))
  unfolding next decode_at
  next-encode before op ops fits = rw (
    more,
    drop-append before (encode op ++ encodings ops),
    decode-encode op (encodings ops) fits,
    length-append before (encode op),
    length-encode op fits,
    append_assoc before (encode op) (encodings ops),
  )
    where
      more : leb (length (before ++ (encode op ++ encodings ops))) (length before) ≡ false
      more = ground (
        arith,
        length-append before (encode op ++ encodings ops),
        length-append (encode op) (encodings ops),
        encode_pos op fits,
      )

  next_end :
      (before : Bytes) → next (record { offset = length before; bytes = before ++ [] }) ≡ none
  unfolding next
  next_end before = rw (append-nil before, same)
    where
      same : leb (length before) (length before) ≡ true
      same = ground arith

  drain-encode :
      (fuel : ℕ) (before : Bytes) (ops : List Op)
      → All Fits ops
      → length (encodings ops) ≤ fuel
      → drain fuel (record { offset = length before; bytes = before ++ encodings ops }) ≡ map ok ops
  unfolding drain
  drain-encode zero before [] fits enough = rw (next_end before, drain)
  drain-encode (suc fuel) before [] fits enough = rw (next_end before, drain)
  drain-encode zero before (op ∷ ops) fits enough =
      absurd (omega (arith, encode_pos op fits.0, length-append (encode op) (encodings ops)))
  drain-encode (suc fuel) before (op ∷ ops) fits enough =
      rw (next-encode before op ops fits.0, drain)
        (ap (λ t. ok op ∷ t)
          (drain-encode fuel (before ++ encode op) ops fits.1
            (omega (arith, encode_pos op fits.0, length-append (encode op) (encodings ops)))))

  -- Iterating a decoder over an encoded proof yields its operators and no error, with the fuel that
  -- `decode_all` gives, if keys have fewer than 256 bytes, values fewer than 65,536 and hashes 20.
  pub decode_all-encode_into :
      (ops : List Op) → All Fits ops → decode_all (encode_into ops []) ≡ map ok ops
  unfolding decode_all new
  decode_all-encode_into ops fits =
      rw (encode_into-encodings ops [])
        (drain-encode (length (encodings ops)) [] ops fits (omega arith))
