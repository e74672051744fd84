-- ===== src/Merk/Store/Proves.antt =====
-- `Merk::prove` (src/merk/mod.rs) against `verify_query` (src/proofs/verify.rs).
use liftedmerk.Base.{
  ℕ, ◌≡◌, ◌≢◌, ◌≤◌, [], map, true, false, List, Bytes, Option, none, some, ok, >>=-eq-ok,
}
use liftedmerk.Ed.{Ed}
use liftedmerk.Tree.Hash.{Hash, Hasher}
use liftedmerk.Tree.Types.{Tree, Slot}
use liftedmerk.Tree.Node
use liftedmerk.Tree.Walk.{Fetch}
use liftedmerk.Tree.Shape as Shape
use liftedmerk.Tree.Shape.{Shape, leaf, fork, lookup, IsOrdered, Sized, Rep, RepTree, kv_digest}
use liftedmerk.Proofs.Encoding.{encode_into}
use liftedmerk.Proofs.Encoding.RoundTrip.{decode_all-encode_into}
use liftedmerk.Proofs.Verify.Defs.{verify_query}
use liftedmerk.Proofs.Verify.Outline.{ops}
use liftedmerk.Proofs.Query.Plan.{plan_root}
use liftedmerk.Proofs.Query.Refines.{depth, create_proof-plan_root}
use liftedmerk.Proofs.Query.Complete.{verify_ops-plan_root, plan_root-Fits}
use liftedmerk.Tree.Search.Sorted.{IsSorted}
use liftedmerk.Merk.Keys.{check_keys, check_keys-IsSorted}
use liftedmerk.Merk.Store.{Db, source, prove, root_hash}

module _ ⦃h : Hasher⦄ (fetch : Fetch) where
  slot_hash-Rep :
      (s : Shape) (slot : Slot) → Rep fetch s slot → Node.slot_hash slot ≡ ok (Shape.root_hash s)
  unfolding Shape.root_hash
  slot_hash-Rep leaf slot rep = rw rep
  slot_hash-Rep (fork l k v r) slot
        (link, t, e, res, hashed, e_key, e_value, e_hash, rep_l, rep_r) =
      rw e hashed

  -- The root hash of a tree is the Merkle root of the shape that it stands for.
  pub root_hash-Rep :
      (l r : Shape) (k v : Bytes) (t : Tree)
      → RepTree fetch l k v r t
      → root_hash (some t) ≡ ok (Shape.root_hash (fork l k v r))
  unfolding root_hash Node.hash Shape.root_hash
  root_hash-Rep l r k v t (e_key, e_value, e_hash, rep_l, rep_r) =
      rw (
        slot_hash-Rep l (Node.link t true) rep_l,
        slot_hash-Rep r (Node.link t false) rep_r,
        e_hash,
      )

module _ ⦃e : Ed⦄ ⦃h : Hasher⦄ (db : Db) where
  -- If a tree stands, through the database, for an ordered shape with keys of fewer than 256 bytes
  -- and values of fewer than 65,536, and the queried keys are sorted and unique, then with fuel for
  -- its depth `prove` returns bytes that `verify_query` accepts against the tree's root hash, and
  -- from which it reports for each key what a lookup gives; the tree still stands for the shape.
  pub verify_query-prove :
      (fuel : ℕ) (l r : Shape) (k v : Bytes) (t : Tree) (keys : List Bytes)
      → depth (fork l k v r) ≤ fuel
      → IsOrdered (fork l k v r)
      → Sized (fork l k v r)
      → RepTree (source db) l k v r t
      → IsSorted keys
      → (proof : Bytes) × (t' : Tree) × (root : Hash) × (prove db fuel (some t) keys
          ≡ ok (proof, some t'))
        × (root_hash (some t) ≡ ok root)
        × (verify_query proof keys root ≡ ok (map (lookup (fork l k v r)) keys))
        × RepTree (source db) l k v r t'
  unfolding prove verify_query
  verify_query-prove fuel l r k v t keys deep ordered sized rep sorted =
      let (t', created, rep') = create_proof-plan_root (source db) fuel l r k v t keys deep rep in
      let o = (plan_root l k v r keys).0 in
      (
        encode_into (ops o) [],
        t',
        Shape.root_hash (fork l k v r),
        rw ((check_keys-IsSorted keys).1 sorted, created),
        root_hash-Rep (source db) l r k v t rep,
        rw (decode_all-encode_into (ops o) (plan_root-Fits l r k v keys sized))
            (verify_ops-plan_root l r k v keys ordered sized sorted),
        rep',
      )

  -- `prove` refuses keys that are not sorted and unique, whatever the tree.
  pub prove_unsorted :
      (fuel : ℕ) (maybe_tree : Option Tree) (keys : List Bytes)
      → ¬ IsSorted keys
      → (r : Bytes × Option Tree) → prove db fuel maybe_tree keys ≢ ok r
  unfolding prove
  prove_unsorted fuel maybe_tree keys unsorted r e =
      let (u, checked, rest) = >>=-eq-ok (check_keys none keys) _ e in
      unsorted ((check_keys-IsSorted keys).0 checked)
