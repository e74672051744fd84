-- ===== src/Examples/Sample.antt =====
-- A hasher, a codec, a stored tree of three nodes and proofs, to run the definitions on.
use liftedmerk.Base.{
  ℕ, ◌+◌, ◌*◌, ◌%◌, ◌/◌, ◌==◌, ◌≡◌, ◌<◌, ◌∷◌, [], ◌++◌, refl, Bytes, true, false, Option, none,
  some, Result, ok, err, ◌>>=◌, >>=-eq-ok, Bool-cases, inl, inr, unexpected_eof, cmp, is_eq, length,
  replicate, arith,
}
use liftedmerk.Ed.{Ed}
use liftedmerk.Tree.Hash.{Hasher}
use liftedmerk.Tree.Types.{Tree, node, vacant, holds, reference, loaded}
use liftedmerk.Tree.Shape.{Shape, leaf, fork, kv_digest, root_hash}
use liftedmerk.Merk.Store.{Db}

abbrev pub sum : Bytes → ℕ
sum [] = 0
sum (b ∷ bs) = b + 3 * sum bs

abbrev pub checksum : Bytes → Bytes
checksum bs = (sum bs % 256) ∷ (length bs % 256) ∷ replicate 18 7

instance abbrev pub sum_hasher : Hasher
sum_hasher = record { digest = checksum; length-digest = λ bytes. refl }

abbrev pub split_u8 : Bytes → Result (ℕ × Bytes)
split_u8 [] = err unexpected_eof
split_u8 (b ∷ rest) = ok (b, rest)

abbrev pub split_u16 : Bytes → Result (ℕ × Bytes)
split_u16 [] = err unexpected_eof
split_u16 (a ∷ []) = err unexpected_eof
split_u16 (a ∷ b ∷ rest) = ok (a * 256 + b, rest)

abbrev pub join_u16 : ℕ → Bytes
join_u16 n = (n / 256) ∷ (n % 256) ∷ []

abbrev pub join_option : (A : Type 0) → (A → Result Bytes) → Option A → Result Bytes
join_option A f none = ok (0 ∷ [])
join_option A f (some a) = f a >>= λ bs. ok (1 ∷ bs)

abbrev pub split_option :
    (A : Type 0) → (Bytes → Result (A × Bytes)) → Bytes → Result (Option A × Bytes)
split_option A f [] = err unexpected_eof
split_option A f (b ∷ rest) = elim (b == 0) [
  | true ↦ ok (none, rest)
  | false ↦ f rest >>= λ r. ok (some r.0, r.1)
]

pub split-join_u16 :
    (n : ℕ) (rest : Bytes) → n < 65536 → split_u16 (join_u16 n ++ rest) ≡ ok (n, rest)
split-join_u16 n rest small = rw (same) refl
  where
    same : (n / 256) * 256 + n % 256 ≡ n
    same = omega arith

pub split_option_inv :
    (A : Type 0) (f : Bytes → Result (A × Bytes)) (input : Bytes) (a : A) (rest : Bytes)
    → split_option A f input ≡ ok (some a, rest)
    → (bytes : Bytes) × (f bytes ≡ ok (a, rest))
split_option_inv A f [] a rest e = cc
split_option_inv A f (b ∷ input) a rest e = elim (Bool-cases (b == 0)) [
  | inl zero_tag ↦ absurd (none_not_some (rw (zero_tag, split_option) at e))
  | inr other_tag ↦
      let (r, e1, e2) = >>=-eq-ok (f input) _ (rw (other_tag, split_option) at e) in
      (input, ground arith)
]
  where
    none_not_some : ¬ (◌≡◌ {A = Result (Option A × Bytes)} (ok (none, input)) (ok (some a, rest)))
    none_not_some same = cc

instance abbrev pub sample_ed : Ed
sample_ed = record {
  decode_u8 = split_u8;
  decode_u16 = split_u16;
  encode_u16 = join_u16;
  encode_option = join_option;
  decode_option = split_option;
  decode_u8_cons = λ b rest. refl;
  decode_u8_nil = refl;
  length-encode_u16 = λ n. refl;
  decode_u16-encode_u16 = split-join_u16;
  encode_option_none = λ A f. refl;
  encode_option_some = λ A f a. refl;
  decode_option_zero = λ A f rest. refl;
  decode_option_one = λ A f rest. refl;
  decode_option_inv = split_option_inv;
}

-- Three keys, the lowest of them pruned.
abbrev pub low : Bytes
low = 1 ∷ []

abbrev pub mid : Bytes
mid = 2 ∷ 5 ∷ []

abbrev pub high : Bytes
high = 4 ∷ []

abbrev pub left_shape : Shape
left_shape = fork leaf low (10 ∷ []) leaf

abbrev pub right_shape : Shape
right_shape = fork leaf high (40 ∷ 41 ∷ []) leaf

abbrev pub left_tree : Tree
left_tree =
    node vacant vacant (record { key = low; value = 10 ∷ []; hash = kv_digest low (10 ∷ []) })

abbrev pub right_tree : Tree
right_tree =
    node vacant vacant
      (record { key = high; value = 40 ∷ 41 ∷ []; hash = kv_digest high (40 ∷ 41 ∷ []) })

abbrev pub sample_tree : Tree
sample_tree =
    node (holds (reference (root_hash left_shape) (0, 0) low))
      (holds (loaded (root_hash right_shape) (0, 0) right_tree))
      (record { key = mid; value = 20 ∷ []; hash = kv_digest mid (20 ∷ []) })

abbrev pub sample_db : Db
sample_db key = elim (is_eq (cmp key low)) [
  | true ↦ ok (some (0 ∷ 0 ∷ (kv_digest low (10 ∷ []) ++ (10 ∷ []))))
  | false ↦ ok none
]
