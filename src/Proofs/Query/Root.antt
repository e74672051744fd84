-- ===== src/Proofs/Query/Root.antt =====
-- The hash of the planned proof of a shape, against the shape's Merkle root.
use liftedmerk.Base.{◌≡◌, ◌∷◌, [], refl, List, Bytes, Bool, true, false, ok, ◌<◌, length}
use liftedmerk.Tree.Hash.{Hash, Hasher, node_hash}
use liftedmerk.Tree.Shape.{Shape, leaf, fork, kv_digest, kv_hash-kv_digest, root_hash, Sized}
use liftedmerk.Tree.Search.{Search, found, missing, before, behind}
use liftedmerk.Proofs.Verify.Merkle.{outline_hash, combine}
use liftedmerk.Proofs.Query.Plan.{plan, plan_root, planned, search_for}

module _ ⦃h : Hasher⦄ where
  combine-planned :
      (search : Search) (boundary : Bool) (k v : Bytes) (hl hr : Hash)
      → length k < 256
      → length v < 65536
      → combine (planned search boundary k v) hl hr ≡ ok (node_hash (kv_digest k v) hl hr)
  combine-planned (found i) boundary k v hl hr hk hv = rw (kv_hash-kv_digest k v hk hv)
  combine-planned (missing i) true k v hl hr hk hv = rw (kv_hash-kv_digest k v hk hv)
  combine-planned (missing i) false k v hl hr hk hv = refl

  pub outline_hash-plan :
      (s : Shape) (keys : List Bytes) → Sized s → outline_hash (plan s keys).0 ≡ ok (root_hash s)
  unfolding outline_hash plan root_hash
  outline_hash-plan leaf [] sized = refl
  outline_hash-plan leaf (q ∷ keys) sized = refl
  outline_hash-plan (fork l k v r) [] sized = refl
  outline_hash-plan (fork l k v r) (q ∷ keys) (hk, hv, sized_l, sized_r) =
      let search = search_for (q ∷ keys) k in
      rw
        (
          outline_hash-plan l (before search (q ∷ keys)) sized_l,
          outline_hash-plan r (behind search (q ∷ keys)) sized_r,
        )
        (combine-planned search _ k v (root_hash l) (root_hash r) hk hv)

  pub outline_hash-plan_root :
      (l r : Shape) (k v : Bytes) (keys : List Bytes)
      → Sized (fork l k v r)
      → outline_hash (plan_root l k v r keys).0 ≡ ok (root_hash (fork l k v r))
  unfolding outline_hash plan_root root_hash
  outline_hash-plan_root l r k v keys (hk, hv, sized_l, sized_r) =
      let search = search_for keys k in
      rw
        (
          outline_hash-plan l (before search keys) sized_l,
          outline_hash-plan r (behind search keys) sized_r,
        )
        (combine-planned search _ k v (root_hash l) (root_hash r) hk hv)
