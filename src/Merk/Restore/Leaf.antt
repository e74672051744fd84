-- ===== src/Merk/Restore/Leaf.antt =====
-- A leaf chunk that a `Restorer` (src/merk/restore.rs) has accepted, step by step.
use liftedmerk.Base.{
  ℕ, suc, ◌%◌, Bool, ◌≡◌, ◌∷◌, [], ◌∙◌, refl, sym, ap, List, Bytes, Option, none, some, Result, ok,
  err, panic, stuck, expect, if◌then◌else◌, ◌==◌, length, Bool-cases, inl, inr,
}
use liftedmerk.Ed.{Ed}
use liftedmerk.Tree.Hash.{Hash, Hasher}
use liftedmerk.Proofs.Op.{Op}
use liftedmerk.Proofs.Verify.Defs.{Tree, key}
use liftedmerk.Proofs.Chunk.Verify.{verify_leaf}
use liftedmerk.Merk.Store.{fetch_node}
use liftedmerk.Merk.Apply.{main, Merk, Rocks, Write, put_cf, default, write, written}
use liftedmerk.Merk.Restore.State.{Restorer, ran, bind, modify, bind-Ran, stepped, bind-Stepped}
use liftedmerk.Merk.Restore.Nodes.{chunk_writes, rewritten_parent}
use liftedmerk.Merk.Restore.Links.{Relinked, rewritten_parent-Relinked, expect_ok}
use liftedmerk.Merk.Restore.{
  peek, advance, remaining_chunks, remaining_chunks_unchecked, write_chunk, rewrite_parent_link,
  process_leaf,
}

peek_ok :
    {A : Type 0} (o : Option (List A)) (a : A)
    → peek o ≡ ok a
    → (rest : List A) × (o ≡ some (a ∷ rest))
peek_ok none a e = cc
peek_ok (some []) a e = cc
peek_ok (some (b ∷ rest)) a e = let same : b ≡ a = cc in (rest, ap (λ x. some (x ∷ rest)) same)

pub written_ok :
    {D : Type 0} (rocks : Rocks D) (merk : Merk D) (result : Result D)
    → (written rocks merk result).1 ≡ ok tt
    → (db : D) × (result ≡ ok db) × ((written rocks merk result).0 ≡ record merk { db = db })
written_ok rocks merk (ok db) e = (db, refl, refl)
written_ok rocks merk (err error) e = cc
written_ok rocks merk panic e = cc
written_ok rocks merk stuck e = cc

abbrev pub with_db : {D : Type 0} → D → Restorer D → Restorer D
with_db db r = record r { merk = record { tree = r.merk.tree; db = db } }

abbrev hash_done : {D : Type 0} → Restorer D → Restorer D
hash_done r = record r { leaf_hashes = advance r.leaf_hashes }

-- The parent's key is left for its right child.
abbrev pub keys_after : ℕ → Bytes → List Bytes → List Bytes
keys_after remaining p ps = if remaining % 2 == 0 then p ∷ ps else ps

module _ {D : Type 0} (rocks : Rocks D) ⦃h : Hasher⦄ ⦃e : Ed⦄ where
  -- A chunk was written.
  pub data ChunkRan (t : Tree) (r r1 : Restorer D) : Type 0 where
    chunk_ran :
        (batch : List Write) (db : D)
        → chunk_writes t ≡ ok batch
        → rocks.write_opt r.merk.db batch ≡ ok db
        → r1 ≡ with_db db r
        → ChunkRan t r r1

  pub write_chunk-ChunkRan :
      (t : Tree) (r r1 : Restorer D) → write_chunk rocks t r ≡ (ok tt, r1) → ChunkRan t r r1
  unfolding write_chunk write
  write_chunk-ChunkRan t r r1 done = elim (bind-Ran (chunk_writes t) r _ tt r1 done) [
    | ran batch e1 f1 ↦
        let (db, e2, after) =
          written_ok rocks r.merk (rocks.write_opt r.merk.db batch) (ap (λ p. p.0) f1) in
        chunk_ran batch db e1 e2
          (sym (ap (λ p. p.1) f1) ∙ ap (λ merk. record r { merk = merk }) after)
  ]

  -- The parent's bytes with the leaf's key on a side.
  abbrev pub Linked : D → Tree → Bytes → Bool → Bytes → Type 0
  Linked db leaf p left bytes = (k : Bytes) × (key leaf ≡ ok k) × Relinked rocks db p left k bytes

  -- A parent was written with its child's key.
  data LinkRan (leaf : Tree) (r r1 : Restorer D) : Type 0 where
    link_ran :
        (p : Bytes) (ps : List Bytes) (bytes : Bytes) (db : D) (n : ℕ)
        → Linked r.merk.db leaf p (n % 2 == 0) bytes
        → r.parent_keys ≡ some (p ∷ ps)
        → remaining_chunks_unchecked r ≡ ok n
        → rocks.write_opt r.merk.db (put_cf default p bytes ∷ []) ≡ ok db
        → r1 ≡ record r {
          parent_keys = some (keys_after n p ps);
          merk = record { tree = r.merk.tree; db = db };
        }
        → LinkRan leaf r r1

  after_put :
      (leaf : Tree) (r r1 : Restorer D) (p : Bytes) (ps : List Bytes) (bytes : Bytes) (n : ℕ)
      (result : Result D)
      → Linked r.merk.db leaf p (n % 2 == 0) bytes
      → r.parent_keys ≡ some (p ∷ ps)
      → remaining_chunks_unchecked r ≡ ok n
      → rocks.write_opt r.merk.db (put_cf default p bytes ∷ []) ≡ result
      → (bind
          ((written rocks r.merk result).1, record r { merk = (written rocks r.merk result).0 })
          (λ u.
            modify
              (λ s. if n % 2 == 0 then s else record s { parent_keys = advance s.parent_keys })))
        ≡ (ok tt, r1)
      → LinkRan leaf r r1
  after_put leaf r r1 p ps bytes n (err error) linked keys left put done = cc (ap (λ x. x.0) done)
  after_put leaf r r1 p ps bytes n panic linked keys left put done = cc (ap (λ x. x.0) done)
  after_put leaf r r1 p ps bytes n stuck linked keys left put done = cc (ap (λ x. x.0) done)
  after_put leaf r r1 p ps bytes n (ok db) linked keys left put done =
      elim (Bool-cases (n % 2 == 0)) [
        | inl even ↦
            link_ran p ps bytes db n linked keys left put
              (sym (ap (λ x. x.1) done) ∙ rw (even, ← keys) refl)
        | inr odd ↦
            link_ran p ps bytes db n linked keys left put
              (sym (ap (λ x. x.1) done) ∙ rw (odd, keys) refl)
      ]

  rewrite_parent_link-LinkRan :
      (leaf : Tree) (r r1 : Restorer D)
      → rewrite_parent_link rocks leaf r ≡ (ok tt, r1)
      → LinkRan leaf r r1
  unfolding rewrite_parent_link write
  rewrite_parent_link-LinkRan leaf r r1 done = elim (bind-Ran (peek r.parent_keys) r _ tt r1 done) [
    | ran p e1 f1 ↦ elim (bind-Ran (fetch_node (main rocks r.merk.db) p) r _ tt r1 f1) [
      | ran maybe_parent e2 f2 ↦ elim (bind-Ran (expect maybe_parent) r _ tt r1 f2) [
        | ran parent e3 f3 ↦ elim (bind-Ran (remaining_chunks_unchecked r) r _ tt r1 f3) [
          | ran n e4 f4 ↦ elim (bind-Ran (key leaf) r _ tt r1 f4) [
            | ran leaf_key e5 f5 ↦
                elim (bind-Ran (rewritten_parent parent (n % 2 == 0) leaf_key) r _ tt r1 f5) [
                  | ran bytes e6 f6 ↦
                      let (ps, keys) = peek_ok r.parent_keys p e1 in
                      let fetched = e2 ∙ ap ok (expect_ok maybe_parent parent e3) in
                      let relinked =
                        rewritten_parent-Relinked rocks r.merk.db p (n % 2 == 0) leaf_key bytes
                          parent fetched e6 in
                      after_put leaf r r1 p ps bytes n
                        (rocks.write_opt r.merk.db (put_cf default p bytes ∷ []))
                        (leaf_key, e5, relinked) keys e4 refl f6
                ]
          ]
        ]
      ]
    ]
  ]

  -- The hash and the parent's key that were next, the accepted tree, and both writes.
  pub data LeafRan (ops : List (Result Op)) (r r' : Restorer D) (n : ℕ) : Type 0 where
    leaf_ran :
        (x : Hash) (xs : List Hash) (p : Bytes) (ps : List Bytes) (leaf : Tree) (bytes : Bytes)
        (batch : List Write) (db1 db2 : D)
        → r.leaf_hashes ≡ some (x ∷ xs)
        → r.parent_keys ≡ some (p ∷ ps)
        → verify_leaf ops x ≡ ok leaf
        → Linked r.merk.db leaf p (suc (length xs) % 2 == 0) bytes
        → rocks.write_opt r.merk.db (put_cf default p bytes ∷ []) ≡ ok db1
        → chunk_writes leaf ≡ ok batch
        → rocks.write_opt db1 batch ≡ ok db2
        → r' ≡ record r {
          leaf_hashes = some xs;
          parent_keys = some (keys_after (suc (length xs)) p ps);
          merk = record { tree = r.merk.tree; db = db2 };
        }
        → n ≡ length xs
        → LeafRan ops r r' n

  left_over :
      (r : Restorer D) (xs : List Hash) (n : ℕ)
      → r.leaf_hashes ≡ some xs
      → remaining_chunks_unchecked r ≡ ok n
      → n ≡ length xs
  unfolding remaining_chunks_unchecked remaining_chunks
  left_over r xs n hashes e =
      let found : ok (length xs) ≡ ok n = sym (rw hashes) ∙ e in sym (cc found)

  leaf_assembled :
      (ops : List (Result Op)) (r r1 r2 r' : Restorer D) (n m : ℕ) (x : Hash) (xs : List Hash)
      (p : Bytes) (ps : List Bytes) (leaf : Tree) (bytes : Bytes) (batch : List Write) (db1 db2 : D)
      → r.leaf_hashes ≡ some (x ∷ xs)
      → r.parent_keys ≡ some (p ∷ ps)
      → remaining_chunks_unchecked r ≡ ok m
      → verify_leaf ops x ≡ ok leaf
      → Linked r.merk.db leaf p (m % 2 == 0) bytes
      → rocks.write_opt r.merk.db (put_cf default p bytes ∷ []) ≡ ok db1
      → r1 ≡ record r {
        parent_keys = some (keys_after m p ps);
        merk = record { tree = r.merk.tree; db = db1 };
      }
      → chunk_writes leaf ≡ ok batch
      → rocks.write_opt r1.merk.db batch ≡ ok db2
      → r2 ≡ with_db db2 r1
      → r' ≡ hash_done r2
      → remaining_chunks_unchecked r' ≡ ok n
      → LeafRan ops r r' n
  leaf_assembled ops r r1 r2 r' n m x xs p ps leaf bytes batch db1 db2 hashes keys left accepted
        linked put is_r1 made wrote is_r2 is_r' counted =
      let count = left_over r (x ∷ xs) m hashes left in
      let is_last : r' ≡ record r {
        leaf_hashes = some xs;
        parent_keys = some (keys_after (suc (length xs)) p ps);
        merk = record { tree = r.merk.tree; db = db2 };
      } =
        is_r' ∙ ap hash_done (is_r2 ∙ ap (with_db db2) is_r1) ∙ rw (hashes, count) refl in
      leaf_ran x xs p ps leaf bytes batch db1 db2 hashes keys accepted (rw count at linked) put made
        (rw is_r1 at wrote) is_last (left_over r' xs n (ap (λ s. s.leaf_hashes) is_last) counted)

  pub process_leaf-LeafRan :
      (ops : List (Result Op)) (r r' : Restorer D) (n : ℕ)
      → process_leaf rocks ops r ≡ (ok n, r')
      → LeafRan ops r r' n
  unfolding process_leaf
  process_leaf-LeafRan ops r r' n done = elim (bind-Ran (peek r.leaf_hashes) r _ n r' done) [
    | ran x e1 f1 ↦ elim (bind-Ran (verify_leaf ops x) r _ n r' f1) [
      | ran leaf accepted f2 ↦ elim (bind-Stepped (rewrite_parent_link rocks leaf) r _ n r' f2) [
        | stepped u r1 linked f3 ↦ elim (bind-Stepped (write_chunk rocks leaf) r1 _ n r' f3) [
          | stepped v r2 stored f4 ↦ elim (rewrite_parent_link-LinkRan leaf r r1 linked) [
            | link_ran p ps bytes db1 m relinked keys left put is_r1 ↦
                elim (write_chunk-ChunkRan leaf r1 r2 stored) [
                  | chunk_ran batch db2 made wrote is_r2 ↦
                      let (xs, hashes) = peek_ok r.leaf_hashes x e1 in
                      let is_r' : r' ≡ hash_done r2 = sym (ap (λ q. q.1) f4) in
                      leaf_assembled ops r r1 r2 r' n m x xs p ps leaf bytes batch db1 db2 hashes
                        keys left accepted relinked put is_r1 made wrote is_r2 is_r'
                        (ap remaining_chunks_unchecked is_r' ∙ ap (λ q. q.0) f4)
                ]
          ]
        ]
      ]
    ]
  ]
