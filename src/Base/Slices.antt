-- ===== src/Base/Slices.antt =====
-- Byte strings: `Vec<u8>` and `&[u8]` with the order of slices, and the reads of `impl Read for &[u8]`.
use Prim.Native.Nat.{ℕ, zero, suc, ◌/◌, ◌%◌, compare, Ordering}
use Prim.Native.Nat.Ordering.{lt, eq, gt}
use mathlib.Core.Path.{◌≡◌, refl}
use mathlib.Core.Logic.{◌⊎◌}
use mathlib.Core.Bool.{Bool, true, false}
use mathlib.Core.List.{List, [], ◌∷◌, ◌++◌}
use native.Mathlib.Omega.{arith}
use liftedmerk.Base.Lists.{length}
use liftedmerk.Base.Results.{Result, ok, err, ◌>>=◌, unexpected_eof}

abbrev pub Bytes : Type 0
Bytes = List ℕ

-- `Ord for [u8]`: lexicographic.
unfoldable pub cmp : Bytes → Bytes → Ordering
cmp [] [] = eq
cmp [] (b ∷ bs) = lt
cmp (a ∷ as') [] = gt
cmp (a ∷ as') (b ∷ bs) =
    let rest = cmp as' bs in elim (compare a b) [ lt ↦ lt | eq ↦ rest | gt ↦ gt ]

abbrev pub is_lt : Ordering → Bool
is_lt lt = true
is_lt _ = false

abbrev pub is_eq : Ordering → Bool
is_eq eq = true
is_eq _ = false

abbrev pub is_gt : Ordering → Bool
is_gt gt = true
is_gt _ = false

pub cmp-cases : (a b : Bytes) → (cmp a b ≡ lt) ⊎ ((cmp a b ≡ eq) ⊎ (cmp a b ≡ gt))
cmp-cases a b = ground arith

pub cmp_refl : (a : Bytes) → cmp a a ≡ eq
unfolding cmp
cmp_refl [] = refl
cmp_refl (x ∷ a) = ground (arith, cmp_refl a)

pub eq_of_cmp : (a b : Bytes) → cmp a b ≡ eq → a ≡ b
unfolding cmp
eq_of_cmp [] [] h = refl
eq_of_cmp [] (y ∷ b) h = cc
eq_of_cmp (x ∷ a) [] h = cc
eq_of_cmp (x ∷ a) (y ∷ b) h = ground (arith, eq_of_cmp a b)

pub lt_of_gt : (a b : Bytes) → cmp a b ≡ gt → cmp b a ≡ lt
unfolding cmp
lt_of_gt [] [] h = cc
lt_of_gt [] (y ∷ b) h = cc
lt_of_gt (x ∷ a) [] h = refl
lt_of_gt (x ∷ a) (y ∷ b) h = ground (arith, lt_of_gt a b)

pub gt_of_lt : (a b : Bytes) → cmp a b ≡ lt → cmp b a ≡ gt
unfolding cmp
gt_of_lt [] [] h = cc
gt_of_lt [] (y ∷ b) h = refl
gt_of_lt (x ∷ a) [] h = cc
gt_of_lt (x ∷ a) (y ∷ b) h = ground (arith, gt_of_lt a b)

pub cmp_trans : (a b c : Bytes) → cmp a b ≡ lt → cmp b c ≡ lt → cmp a c ≡ lt
unfolding cmp
cmp_trans [] [] c h k = cc
cmp_trans [] (y ∷ b) [] h k = cc
cmp_trans [] (y ∷ b) (z ∷ c) h k = refl
cmp_trans (x ∷ a) [] c h k = cc
cmp_trans (x ∷ a) (y ∷ b) [] h k = cc
cmp_trans (x ∷ a) (y ∷ b) (z ∷ c) h k = ground (arith, cmp_trans a b c)

-- `input.read_exact(&mut buf)` with a buffer of `n` bytes: the bytes read, and what is left.
unfoldable pub read_exact : ℕ → Bytes → Result (Bytes × Bytes)
read_exact zero input = ok ([], input)
read_exact (suc n) [] = err unexpected_eof
read_exact (suc n) (b ∷ input) = do (bs, rest) ← read_exact n input; ok (b ∷ bs, rest)

pub read_exact-append : (bs rest : Bytes) → read_exact (length bs) (bs ++ rest) ≡ ok (bs, rest)
unfolding read_exact
read_exact-append [] rest = refl
read_exact-append (b ∷ bs) rest = rw (read_exact-append bs rest)

-- Reading as many bytes as there are, with the count given by an equation.
pub read_exact-of_length :
    (n : ℕ) (bs rest : Bytes) → length bs ≡ n → read_exact n (bs ++ rest) ≡ ok (bs, rest)
read_exact-of_length n bs rest h = rw (← h) (read_exact-append bs rest)

-- `u16::to_be_bytes`
abbrev pub be_bytes_u16 : ℕ → Bytes
be_bytes_u16 n = n / 256 % 256 ∷ n % 256 ∷ []
