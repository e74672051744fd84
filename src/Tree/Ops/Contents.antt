-- ===== src/Tree/Ops/Contents.antt =====
-- The entries of a shape from left to right, under balancing (src/tree/ops.rs).
use liftedmerk.Base.{
  ℕ, zero, suc, ◌≡◌, ◌∷◌, ◌++◌, [], refl, sym, ap, ◌∙◌, List, Bytes, append_assoc,
}
use liftedmerk.Tree.Shape.{Shape, leaf, fork}
use liftedmerk.Tree.Ops.Balances.{Balances, still, left_once, left_twice, right_once, right_twice}

unfoldable pub contents : Shape → List (Bytes × Bytes)
contents leaf = []
contents (fork l k v r) = contents l ++ ((k, v) ∷ contents r)

-- Moving a node over to the right keeps the order of entries.
swing :
    (a b r : Shape) (k v k2 v2 : Bytes)
    → contents (fork a k2 v2 (fork b k v r)) ≡ contents (fork (fork a k2 v2 b) k v r)
unfolding contents
swing a b r k v k2 v2 =
    sym (append_assoc (contents a) ((k2, v2) ∷ contents b) ((k, v) ∷ contents r))

contents_left :
    (l l' r : Shape) (k v : Bytes)
    → contents l' ≡ contents l
    → contents (fork l' k v r) ≡ contents (fork l k v r)
unfolding contents
contents_left l l' r k v e = ap (λ t. t ++ ((k, v) ∷ contents r)) e

contents_right :
    (l r r' : Shape) (k v : Bytes)
    → contents r' ≡ contents r
    → contents (fork l k v r') ≡ contents (fork l k v r)
unfolding contents
contents_right l r r' k v e = ap (λ t. contents l ++ ((k, v) ∷ t)) e

-- Balancing keeps the entries and their order.
pub contents-Balances : (n : ℕ) {s s' : Shape} → Balances n s s' → contents s' ≡ contents s
contents-Balances zero d = elim d [ ]
contents-Balances (suc n) (still _ l r k v a b c e) = refl
contents-Balances (suc n) (left_once _ a b r x y k v k2 v2 h1 h2 h3 d1 d2) =
    contents-Balances n d2
    ∙ contents_right a (fork b k v r) x k2 v2 (contents-Balances n d1)
    ∙ swing a b r k v k2 v2
contents-Balances (suc n)
      (left_twice _ a c e r x1 p q x y k v k2 v2 k3 v3 k4 v4 h1 h2 h3 d1 d2 d3 d4) =
    contents-Balances n d4
    ∙ contents_right p (fork q k v r) x k4 v4 (contents-Balances n d3)
    ∙ swing p q r k v k4 v4
    ∙ contents_left (fork a k2 v2 (fork c k3 v3 e)) (fork p k4 v4 q) r k v (
        contents-Balances n d2
        ∙ contents_left (fork a k2 v2 c) x1 e k3 v3 (contents-Balances n d1)
        ∙ sym (swing a c e k3 v3 k2 v2))
contents-Balances (suc n) (right_once _ l a b x y k v k2 v2 h1 h2 h3 d1 d2) =
    contents-Balances n d2
    ∙ contents_left (fork l k v a) x b k2 v2 (contents-Balances n d1)
    ∙ sym (swing l a b k2 v2 k v)
contents-Balances (suc n)
      (right_twice _ l c e b x1 p q x y k v k2 v2 k3 v3 k4 v4 h1 h2 h3 d1 d2 d3 d4) =
    contents-Balances n d4
    ∙ contents_left (fork l k v p) x q k4 v4 (contents-Balances n d3)
    ∙ sym (swing l p q k4 v4 k v)
    ∙ contents_right l (fork (fork c k3 v3 e) k2 v2 b) (fork p k4 v4 q) k v (
        contents-Balances n d2
        ∙ contents_right c (fork e k2 v2 b) x1 k3 v3 (contents-Balances n d1)
        ∙ swing c e b k2 v2 k3 v3)
