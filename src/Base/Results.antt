-- ===== src/Base/Results.antt =====
-- What a Rust call comes back with: a value, an `Err` or a panic. `stuck` is no outcome of the code:
-- a recursion that is modelled with fuel ran out of it.
use mathlib.Core.Path.{◌≡◌, refl}
use mathlib.Core.Bool.{Bool, true, false}
use mathlib.Core.Option.{Option, none, some}

-- One constructor for each `bail!`, and the two that readers and decoders give.
pub data Error : Type 0 where
  unexpected_eof : Error
  unexpected_proof_value : Error
  decode_error : Error
  fetch_error : Error
  write_error : Error
  key_not_found : Error
  child_already_some : Error
  stack_underflow : Error
  incorrect_key_ordering : Error
  not_one_stack_item : Error
  proof_incorrectly_formed : Error
  hash_mismatch : Error
  leaf_not_full : Error
  height_proof_has_hash : Error
  inner_not_kv : Error
  leaf_not_hash : Error
  leftmost_not_kvhash : Error
  delete_nonexistent : Error
  keys_not_sorted : Error
  keys_not_unique : Error
  empty_tree : Error
  chunk_index_out_of_bounds : Error
  path_exists : Error
  chunks_remaining : Error

pub data Result {ℓ} (A : Type ℓ) : Type ℓ where
  ok : A → Result A
  err : Error → Result A
  panic : Result A
  stuck : Result A

infixl 5 ◌>>=◌
abbrev pub ◌>>=◌ {ℓ κ} :
    {Out : Type ℓ} {Next : Type κ} → Result Out → (Out → Result Next) → Result Next
panic >>= next = panic
stuck >>= next = stuck
err failure >>= next = err failure
ok value >>= next = next value

-- `assert!`, and the checks that a conversion's `expect` makes.
abbrev pub assert : Bool → Result (Unit {0})
assert false = panic
assert true = ok tt

-- `Option::expect` and `Option::unwrap`.
abbrev pub expect {ℓ} : {A : Type ℓ} → Option A → Result A
expect none = panic
expect (some a) = ok a

infixl 5 ◌>>◌
abbrev pub ◌>>◌ {κ} : {Next : Type κ} → Result (Unit {0}) → Result Next → Result Next
check >> after = check >>= (λ done. after)

-- `if !test { bail!(failure) }`
abbrev pub guard : Bool → Error → Result (Unit {0})
guard false failure = err failure
guard true failure = ok tt

pub >>=-eq-ok {ℓ κ} :
    {Out : Type ℓ} {Next : Type κ} (first : Result Out) (next : Out → Result Next) {last : Next}
    → (first >>= next) ≡ ok last
    → (out : Out) × (first ≡ ok out) × (next out ≡ ok last)
>>=-eq-ok panic next returned = cc
>>=-eq-ok stuck next returned = cc
>>=-eq-ok (err failure) next returned = cc
>>=-eq-ok (ok out) next returned = (out, refl, returned)

pub >>=_assoc {ℓ κ μ} :
    {A : Type ℓ} {B : Type κ} {C : Type μ} (m : Result A) (f : A → Result B) (g : B → Result C)
    → (m >>= f >>= g) ≡ (m >>= λ a. (f a >>= g))
>>=_assoc (ok a) f g = refl
>>=_assoc (err e) f g = refl
>>=_assoc panic f g = refl
>>=_assoc stuck f g = refl
