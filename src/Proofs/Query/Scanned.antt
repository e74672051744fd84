-- ===== src/Proofs/Query/Scanned.antt =====
-- What the verifier's visitor (src/proofs/verify.rs) is left with behind the nodes of a planned proof.
use liftedmerk.Base.{
  ◌≡◌, ◌∷◌, [], ◌++◌, ◌∙◌, refl, append_assoc, List, Bytes, Bool, true, false, Option, some, ok,
  cmp, gt_of_lt, All, ◌||◌, ◌⊎◌, inl, inr,
}
use Prim.Native.Nat.Ordering.{lt}
use liftedmerk.Tree.Shape.{Shape, leaf, fork, AllKeys}
use liftedmerk.Proofs.Op as Proof
use liftedmerk.Proofs.Verify.Defs.{visit, in_order}
use liftedmerk.Proofs.Verify.Outline.{nodes, scan, scan-append}
use liftedmerk.Proofs.Verify.Outline as Outline
use liftedmerk.Proofs.Query.Plan.{Plan}
use liftedmerk.Proofs.Query.Answers.{Settled, state}
use liftedmerk.Proofs.Query.Answered.{leftover, answers}

-- All keys of the shape come behind the last key.
abbrev pub Behind : Option Bytes → Shape → Type 0
Behind last_key s = AllKeys (λ x. in_order x last_key ≡ true) s

abbrev pub Below : Bytes → Shape → Type 0
Below x s = AllKeys (λ y. cmp y x ≡ lt) s

-- What the visitor is left with behind the nodes of a plan for the keys.
pub record Scanned (p : Plan) (s : Shape) (keys rest : List Bytes) (last_key : Option Bytes)
    (last_push : Option Proof.Node) (output : List (Option Bytes)) : Type 0 where
  pub last_key' : Option Bytes
  pub last_push' : Option Proof.Node
  pub runs :
      scan visit (nodes p.0) last_key (state (keys ++ rest) last_push output)
      ≡ ok (last_key', state (leftover s keys ++ rest) last_push' (output ++ answers s keys))
  pub settled : Settled (leftover s keys) last_push'
  pub ordered : (x : Bytes) → Below x s → in_order x last_key ≡ true → in_order x last_key' ≡ true
  pub edge : p.2 ≡ false → leftover s keys ≡ []

pub All-append :
    {A : Type 0} (P : A → Type 0) (xs ys : List A) → All P xs → All P ys → All P (xs ++ ys)
All-append P [] ys a b = b
All-append P (x ∷ xs) ys (p, a) b = (p, All-append P xs ys a b)

pub AllKeys-both :
    (P Q R : Bytes → Type 0)
    → ((x : Bytes) → P x → Q x → R x)
    → (s : Shape) → AllKeys P s
    → AllKeys Q s
    → AllKeys R s
AllKeys-both P Q R f leaf a b = tt
AllKeys-both P Q R f (fork l k v r) (pk, pl, pr) (qk, ql, qr) =
    (f k pk qk, AllKeys-both P Q R f l pl ql, AllKeys-both P Q R f r pr qr)

pub or_false : (a b : Bool) → (a || b) ≡ false → a ≡ false
or_false true b e = cc
or_false false b e = refl

pub or_true : (a b : Bool) → b ≡ true → (a || b) ≡ true
or_true true b e = refl
or_true false b e = e

pub in_order-some : (k x : Bytes) → cmp k x ≡ lt → in_order x (some k) ≡ true
in_order-some k x low = rw (gt_of_lt k x low)

pub runs_fork :
    (ol or : Outline.Outline) (n : Proof.Node) (keys low mid high rest pending beyond : List Bytes)
    (k0 k1 k2 k3 : Option Bytes) (p0 p1 p2 p3 : Option Proof.Node)
    (output a m b : List (Option Bytes))
    → keys ≡ low ++ (mid ++ high)
    → scan visit (nodes ol) k0 (state (low ++ (mid ++ (high ++ rest))) p0 output)
      ≡ ok (k1, state (pending ++ (mid ++ (high ++ rest))) p1 (output ++ a))
    → scan visit (n ∷ nodes or) k1 (state (pending ++ (mid ++ (high ++ rest))) p1 (output ++ a))
      ≡ scan visit (nodes or) k2 (state (high ++ rest) p2 ((output ++ a) ++ m))
    → scan visit (nodes or) k2 (state (high ++ rest) p2 ((output ++ a) ++ m))
      ≡ ok (k3, state (beyond ++ rest) p3 (((output ++ a) ++ m) ++ b))
    → scan visit (nodes (Outline.fork ol n or)) k0 (state (keys ++ rest) p0 output)
      ≡ ok (k3, state (beyond ++ rest) p3 (output ++ ((a ++ m) ++ b)))
unfolding nodes
runs_fork ol or n keys low mid high rest pending beyond k0 k1 k2 k3 p0 p1 p2 p3 output a m b whole
      left node right =
    rw (whole, append_assoc low (mid ++ high) rest, append_assoc mid high rest)
      (scan-append visit (nodes ol) (n ∷ nodes or) k0
          (state (low ++ (mid ++ (high ++ rest))) p0 output)
        ∙ rw left (node ∙ right ∙ simp append_assoc))

-- The next last key is the pair's or is left alone; either way what is higher comes behind it.
pub in_order_next :
    (k x : Bytes) (last_key last_key' : Option Bytes)
    → (last_key' ≡ some k) ⊎ (last_key' ≡ last_key)
    → cmp k x ≡ lt
    → in_order x last_key ≡ true
    → in_order x last_key' ≡ true
in_order_next k x last_key last_key' (inl e) low ordered = rw e (in_order-some k x low)
in_order_next k x last_key last_key' (inr e) low ordered = rw e ordered
