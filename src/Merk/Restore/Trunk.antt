-- ===== src/Merk/Restore/Trunk.antt =====
-- A trunk that a `Restorer` (src/merk/restore.rs) has accepted, step by step.
use liftedmerk.Base.{
  ℕ, ◌+◌, ◌/◌, ◌≡◌, ◌∷◌, [], ◌∙◌, refl, sym, ap, List, Bytes, Bool, true, false, some, Result, ok,
  ◌==◌, assert, arith,
}
use liftedmerk.Ed.{Ed}
use liftedmerk.Tree.Hash.{Hash, Hasher}
use liftedmerk.Proofs.Op.{Op}
use liftedmerk.Proofs.Verify.Defs.{Tree}
use liftedmerk.Merk.Apply.{
  Merk, Rocks, Write, put_cf, internal_family, root_key_key, set_root_key, write,
}
use liftedmerk.Merk.Restore.State.{Restorer, ran, bind-Ran, stepped, bind-Stepped}
use liftedmerk.Merk.Restore.Nodes.{chunk_writes, check_trunk, trunk_layers}
use liftedmerk.Merk.Restore.{process_trunk, write_chunk}
use liftedmerk.Merk.Restore.Leaf.{written_ok, chunk_ran, write_chunk-ChunkRan}

pub assert_ok : (b : Bool) (u : Unit {0}) → assert b ≡ ok u → b ≡ true
assert_ok true u e = refl
assert_ok false u e = cc e

pub equal_test : (a b : ℕ) → (a == b) ≡ true → a ≡ b
equal_test a b e = ground arith

abbrev with_merk : {D : Type 0} → Merk D → Restorer D → Restorer D
with_merk merk r = record r { merk = merk }

module _ {D : Type 0} (rocks : Rocks D) ⦃h : Hasher⦄ ⦃e : Ed⦄ where
  -- The checked tree, what its layers give, and both writes.
  pub data TrunkRan (ops : List (Result Op)) (r r' : Restorer D) (n : ℕ) : Type 0 where
    trunk_ran :
        (trunk : Tree) (height : ℕ) (root_key : Bytes) (hashes : List Hash) (keys : List Bytes)
        (batch : List Write) (db1 db2 : D)
        → check_trunk ops r.expected_root_hash ≡ ok (trunk, height, root_key)
        → trunk_layers trunk (height / 2) ≡ ok (hashes, keys, n)
        → r.stated_length ≡ n + 1
        → chunk_writes trunk ≡ ok batch
        → rocks.write_opt r.merk.db batch ≡ ok db1
        → rocks.write_opt db1 (put_cf internal_family root_key_key root_key ∷ []) ≡ ok db2
        → r' ≡ record r {
          leaf_hashes = some hashes;
          parent_keys = some keys;
          trunk_height = some (height / 2);
          merk = record { tree = r.merk.tree; db = db2 };
        }
        → TrunkRan ops r r' n

  root_key_set :
      (merk : Merk D) (root_key : Bytes)
      → (set_root_key rocks merk root_key).1 ≡ ok tt
      → (db : D) × (rocks.write_opt merk.db (put_cf internal_family root_key_key root_key ∷ [])
          ≡ ok db)
        × ((set_root_key rocks merk root_key).0 ≡ record merk { db = db })
  unfolding set_root_key write
  root_key_set merk root_key done =
      written_ok rocks merk
        (rocks.write_opt merk.db (put_cf internal_family root_key_key root_key ∷ [])) done

  pub process_trunk-TrunkRan :
      (ops : List (Result Op)) (r r' : Restorer D) (n : ℕ)
      → process_trunk rocks ops r ≡ (ok n, r')
      → TrunkRan ops r r' n
  unfolding process_trunk
  process_trunk-TrunkRan ops r r' n done =
      elim (bind-Ran (check_trunk ops r.expected_root_hash) r _ n r' done) [
        | ran (trunk, height, root_key) e1 f1 ↦
            let r1 = record r { trunk_height = some (height / 2) } in
            elim (bind-Ran (trunk_layers trunk (height / 2)) r1 _ n r' f1) [
              | ran (hashes, keys, left) e2 f2 ↦
                  let r2 = record r1 { leaf_hashes = some hashes; parent_keys = some keys } in
                  elim (bind-Ran (assert (r.stated_length == left + 1)) r2 _ n r' f2) [
                    | ran u e3 f3 ↦ elim (bind-Stepped (write_chunk rocks trunk) r2 _ n r' f3) [
                      | stepped v r3 stored f4 ↦
                          elim (bind-Ran (set_root_key rocks r3.merk root_key).1
                            (with_merk (set_root_key rocks r3.merk root_key).0 r3) _ n r' f4) [
                              | ran w e5 f5 ↦ elim (write_chunk-ChunkRan rocks trunk r2 r3 stored) [
                                | chunk_ran batch db1 made wrote is_r3 ↦
                                    let (db2, put, kept) = root_key_set r3.merk root_key e5 in
                                    let is_n : left ≡ n = cc (ap (λ q. q.0) f5) in
                                    trunk_ran trunk height root_key hashes keys batch db1 db2 e1
                                      (rw is_n at e2)
                                      (equal_test r.stated_length (left + 1)
                                          (assert_ok (r.stated_length == left + 1) u e3)
                                        ∙ ap (λ q. q + 1) is_n)
                                      made wrote (rw is_r3 at put)
                                      (sym (ap (λ q. q.1) f5) ∙ rw (kept, is_r3) refl)
                              ]
                            ]
                    ]
                  ]
            ]
      ]
