-- ===== src/Merk/Restore/Aligned.antt =====
-- The state of a `Restorer` (src/merk/restore.rs) between chunks: how many remain, and that each parent
-- key is left for two leaves.
use liftedmerk.Base.{
  ℕ, zero, suc, ◌+◌, ◌-◌, ◌/◌, ◌%◌, ◌^◌, ◌≡◌, ◌≤◌, ◌∷◌, [], ◌∙◌, refl, sym, ap, List, Bytes, false,
  some, Result, ok, length, ◌==◌, leb, Bool-cases, inl, inr, arith, >>=-eq-ok, assert,
}
use liftedmerk.Ed.{Ed}
use liftedmerk.Tree.Hash.{Hash, Hasher}
use liftedmerk.Proofs.Op.{Op}
use liftedmerk.Proofs.Verify.Defs.{Tree, tree_hash, key}
use liftedmerk.Proofs.Chunk.{min_trunk_height}
use liftedmerk.Merk.Apply.{Rocks}
use liftedmerk.Merk.Restore.State.{Restorer}
use liftedmerk.Merk.Restore.Nodes.{trunk_layers, map_layer}
use liftedmerk.Merk.Restore.{process_trunk, process_leaf}
use liftedmerk.Merk.Restore.Trunk.{assert_ok, equal_test, trunk_ran, process_trunk-TrunkRan}
use liftedmerk.Merk.Restore.Leaf.{keys_after, leaf_ran, process_leaf-LeafRan}

-- A parent key for every two leaves that remain, and one more if their number is odd.
abbrev pub IsAligned : {D : Type 0} → Restorer D → ℕ → Type 0
IsAligned r n =
    (hashes : List Hash) × (keys : List Bytes) × (r.leaf_hashes ≡ some hashes)
    × (r.parent_keys ≡ some keys)
    × (length hashes ≡ n)
    × (length keys ≡ (n + 1) / 2)

even_power : (m : ℕ) → 1 ≤ m → (2 ^ m % 2 ^ 64) % 2 ≡ 0
even_power zero positive = omega arith
even_power (suc m) positive = omega arith

same_sizes :
    (hs hashes : List Hash) (ks keys : List Bytes) (q n : ℕ)
    → length ks ≡ (q + 1) / 2
    → length hs ≡ q
    → ◌≡◌ {A = Result (List Hash × List Bytes × ℕ)} (ok (hs, ks, q)) (ok (hashes, keys, n))
    → (length hashes ≡ n) × (length keys ≡ (n + 1) / 2)
same_sizes hs hashes ks keys q n halves full e =
    let same : ◌≡◌ {A = List Hash × List Bytes × ℕ} (hs, ks, q) (hashes, keys, n) = cc e in
    (
      ap (λ x. length x.0) (sym same) ∙ full ∙ ap (λ x. x.2) same,
      ap (λ x. length x.1) (sym same) ∙ halves ∙ ap (λ x. (x.2 + 1) / 2) same,
    )

unequal_test : (a b : ℕ) → (a == b) ≡ false → ¬ (a ≡ b)
unequal_test a b e = ground arith

module _ ⦃h : Hasher⦄ where
  -- What the assertions leave.
  trunk_layers_even :
      (trunk : Tree) (trunk_height : ℕ) (hashes : List Hash) (keys : List Bytes) (n : ℕ)
      → trunk_layers trunk trunk_height ≡ ok (hashes, keys, n)
      → (length hashes ≡ n) × (length keys ≡ (n + 1) / 2)
  unfolding trunk_layers
  trunk_layers_even trunk trunk_height hashes keys n done =
      elim (Bool-cases (leb min_trunk_height trunk_height)) [
        | inr small ↦ same_sizes [] hashes [] keys 0 n (omega arith) refl (rw small at done)
        | inl tall ↦
            let (hs, e1, f1) =
              >>=-eq-ok (map_layer tree_hash trunk trunk_height) _ (rw tall at done) in
            let (ks, e2, f2) = >>=-eq-ok (map_layer key trunk (trunk_height - 1)) _ f1 in
            let (u, e3, f3) = >>=-eq-ok (assert (length ks == length hs / 2)) _ f2 in
            let (v, e4, f4) = >>=-eq-ok (assert (length hs == 2 ^ trunk_height % 2 ^ 64)) _ f3 in
            let halves =
              equal_test (length ks) (length hs / 2)
                (assert_ok (length ks == length hs / 2) u e3) in
            let full =
              equal_test (length hs) (2 ^ trunk_height % 2 ^ 64)
                (assert_ok (length hs == 2 ^ trunk_height % 2 ^ 64) v e4) in
            let positive : min_trunk_height ≤ trunk_height = ground arith in
            let even = even_power trunk_height (omega (arith, positive)) in
            same_sizes hs hashes ks keys (2 ^ trunk_height % 2 ^ 64) n
              (omega (arith, halves, full, even)) full f4
      ]

keys_left :
    (m : ℕ) (p : Bytes) (ps : List Bytes)
    → suc (length ps) ≡ (suc m + 1) / 2
    → length (keys_after (suc m) p ps) ≡ (m + 1) / 2
keys_left m p ps halves = elim (Bool-cases (suc m % 2 == 0)) [
  | inl even ↦
      let no_rest = equal_test (suc m % 2) 0 even in rw even (omega (arith, halves, no_rest))
  | inr odd ↦ let rest = unequal_test (suc m % 2) 0 odd in rw odd (omega (arith, halves, rest))
]

module _ {D : Type 0} (rocks : Rocks D) ⦃h : Hasher⦄ ⦃e : Ed⦄ where
  pub process_leaf-IsAligned :
      (ops : List (Result Op)) (r r' : Restorer D) (m n : ℕ)
      → IsAligned r m
      → process_leaf rocks ops r ≡ (ok n, r')
      → IsAligned r' n × (m ≡ suc n) × (r'.stated_length ≡ r.stated_length)
  process_leaf-IsAligned ops r r' m n (hashes, keys, known, listed, counted, halves) done =
      elim (process_leaf-LeafRan rocks ops r r' n done) [
        | leaf_ran x xs p ps leaf bytes batch db1 db2 first next accepted linked put made wrote
              is_last left ↦
            let same : hashes ≡ x ∷ xs = cc (sym known ∙ first) in
            let same_keys : keys ≡ p ∷ ps = cc (sym listed ∙ next) in
            let is_m : suc (length xs) ≡ m = sym (ap length same) ∙ counted in
            let before : suc (length ps) ≡ (suc (length xs) + 1) / 2 =
              sym (ap length same_keys) ∙ halves ∙ ap (λ q. (q + 1) / 2) (sym is_m) in
            (
              (
                xs,
                keys_after (suc (length xs)) p ps,
                ap (λ q. q.leaf_hashes) is_last,
                ap (λ q. q.parent_keys) is_last,
                sym left,
                keys_left (length xs) p ps before ∙ ap (λ q. (q + 1) / 2) (sym left),
              ),
              sym is_m ∙ ap suc (sym left),
              ap (λ q. q.stated_length) is_last,
            )
      ]

  pub process_trunk-IsAligned :
      (ops : List (Result Op)) (r r' : Restorer D) (n : ℕ)
      → process_trunk rocks ops r ≡ (ok n, r')
      → IsAligned r' n × (r.stated_length ≡ n + 1) × (r'.stated_length ≡ r.stated_length)
  process_trunk-IsAligned ops r r' n done = elim (process_trunk-TrunkRan rocks ops r r' n done) [
    | trunk_ran trunk height root_key hashes keys batch db1 db2 accepted layers stated made wrote
          put is_last ↦
        let (full, halves) = trunk_layers_even trunk (height / 2) hashes keys n layers in
        (
          (
            hashes,
            keys,
            ap (λ q. q.leaf_hashes) is_last,
            ap (λ q. q.parent_keys) is_last,
            full,
            halves,
          ),
          stated,
          ap (λ q. q.stated_length) is_last,
        )
  ]
