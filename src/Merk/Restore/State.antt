-- ===== src/Merk/Restore/State.antt =====
-- The state of a `Restorer` (src/merk/restore.rs), and its methods as actions: what an action has
-- written stays written when it fails.
use liftedmerk.Base.{◌≡◌, refl, ap, ℕ, Bytes, List, Option, Result, ok, err, panic, stuck}
use liftedmerk.Tree.Hash.{Hash}
use liftedmerk.Merk.Apply.{Merk, Outcome}

-- A peekable iterator is the list of what is left in it.
pub record Restorer (D : Type 0) : Type 0 where
  pub leaf_hashes : Option (List Hash)
  pub parent_keys : Option (List Bytes)
  pub trunk_height : Option ℕ
  pub merk : Merk D
  pub expected_root_hash : Hash
  pub stated_length : ℕ

abbrev pub Action : Type 0 → Type 0 → Type 0
Action D A = Restorer D → Result A × Restorer D

module _ {D A : Type 0} where
  abbrev pub lift : Result A → Action D A
  lift result r = (result, r)

  abbrev pub gets : (Restorer D → Result A) → Action D A
  gets f r = (f r, r)

abbrev pub modify : {D : Type 0} → (Restorer D → Restorer D) → Action D (Unit {0})
modify f r = (ok tt, f r)

-- An operation on the store.
abbrev pub on_merk : {D : Type 0} → (Merk D → Outcome D) → Action D (Unit {0})
on_merk f r = ((f r.merk).1, record r { merk = (f r.merk).0 })

abbrev pub bind :
    {D A B : Type 0} → Result A × Restorer D → (A → Action D B) → Result B × Restorer D
bind (ok a, r) f = f a r
bind (err e, r) f = (err e, r)
bind (panic, r) f = (panic, r)
bind (stuck, r) f = (stuck, r)

infixl 5 ◌>>=◌ ◌>>◌
abbrev pub ◌>>=◌ : {D A B : Type 0} → Action D A → (A → Action D B) → Action D B
◌>>=◌ m f r = bind (m r) f

abbrev pub ◌>>◌ : {D A B : Type 0} → Action D A → Action D B → Action D B
m >> k = m >>= λ a. k

-- Inversion of a successful action.
pub data Ran {D A B : Type 0} (result : Result A) (r : Restorer D) (f : A → Action D B) (b : B)
    (r' : Restorer D) : Type 0 where
  ran : (a : A) → result ≡ ok a → f a r ≡ (ok b, r') → Ran result r f b r'

pub bind-Ran :
    {D A B : Type 0} (result : Result A) (r : Restorer D) (f : A → Action D B) (b : B)
    (r' : Restorer D)
    → bind (result, r) f ≡ (ok b, r')
    → Ran result r f b r'
bind-Ran (ok a) r f b r' e = ran a refl e
bind-Ran (err error) r f b r' e = cc (ap (λ p. p.0) e)
bind-Ran panic r f b r' e = cc (ap (λ p. p.0) e)
bind-Ran stuck r f b r' e = cc (ap (λ p. p.0) e)

-- The same with the state that the first action leaves.
pub data Stepped {D A B : Type 0} (m : Action D A) (r : Restorer D) (f : A → Action D B) (b : B)
    (r' : Restorer D) : Type 0 where
  stepped : (a : A) (r1 : Restorer D) → m r ≡ (ok a, r1) → f a r1 ≡ (ok b, r') → Stepped m r f b r'

pub bind-Stepped :
    {D A B : Type 0} (m : Action D A) (r : Restorer D) (f : A → Action D B) (b : B)
    (r' : Restorer D)
    → bind (m r) f ≡ (ok b, r')
    → Stepped m r f b r'
bind-Stepped m r f b r' e = elim (bind-Ran (m r).0 (m r).1 f b r' e) [
  | ran a e1 e2 ↦ stepped a (m r).1 (ap (λ x. (x, (m r).1)) e1) e2
]
