-- ===== src/Ed.antt =====
-- What the sources use of the `ed` crate: the codecs of `u8`, `u16` and `Option`. The crate is not
-- part of the repository, so it is an interface; its laws are the formats that the crate documents:
-- integers are big-endian, and an option is a byte 0, or a byte 1 and the value.
use liftedmerk.Base.{
  ℕ, ◌≡◌, ◌++◌, ◌∷◌, [], ◌<◌, Bytes, Result, ok, err, unexpected_eof, ◌>>=◌, Option, none, some,
  length,
}

pub record Ed : Type 1 where
  pub decode_u8 : Bytes → Result (ℕ × Bytes)
  pub decode_u16 : Bytes → Result (ℕ × Bytes)
  pub encode_u16 : ℕ → Bytes
  pub encode_option : (A : Type 0) → (A → Result Bytes) → Option A → Result Bytes
  pub decode_option :
      (A : Type 0) → (Bytes → Result (A × Bytes)) → Bytes → Result (Option A × Bytes)
  pub decode_u8_cons : (b : ℕ) (rest : Bytes) → decode_u8 (b ∷ rest) ≡ ok (b, rest)
  pub decode_u8_nil : decode_u8 [] ≡ err unexpected_eof
  pub length-encode_u16 : (n : ℕ) → length (encode_u16 n) ≡ 2
  pub decode_u16-encode_u16 :
      (n : ℕ) (rest : Bytes) → n < 65536 → decode_u16 (encode_u16 n ++ rest) ≡ ok (n, rest)
  pub encode_option_none :
      (A : Type 0) (f : A → Result Bytes) → encode_option A f none ≡ ok (0 ∷ [])
  pub encode_option_some :
      (A : Type 0) (f : A → Result Bytes) (a : A)
      → encode_option A f (some a) ≡ (f a >>= λ bs. ok (1 ∷ bs))
  pub decode_option_zero :
      (A : Type 0) (f : Bytes → Result (A × Bytes)) (rest : Bytes)
      → decode_option A f (0 ∷ rest) ≡ ok (none, rest)
  pub decode_option_one :
      (A : Type 0) (f : Bytes → Result (A × Bytes)) (rest : Bytes)
      → decode_option A f (1 ∷ rest) ≡ (f rest >>= λ r. ok (some r.0, r.1))
  pub decode_option_inv :
      (A : Type 0) (f : Bytes → Result (A × Bytes)) (input : Bytes) (a : A) (rest : Bytes)
      → decode_option A f input ≡ ok (some a, rest)
      → (bytes : Bytes) × (f bytes ≡ ok (a, rest))
