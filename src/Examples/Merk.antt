-- ===== src/Examples/Merk.antt =====
-- Reading, proving and forging on the sample tree (src/merk/mod.rs, src/proofs/verify.rs).
use liftedmerk.Base.{
  ◌≡◌, ◌≢◌, ◌∷◌, [], refl, map, Bytes, List, cmp, none, some, ok, ◌↔◌, arith, replicate,
}
use Prim.Native.Nat.Ordering.{lt, gt}
use liftedmerk.Tree.Hash.{Hash}
use liftedmerk.Tree.Types.{Tree, reference}
use liftedmerk.Tree.Link
use liftedmerk.Tree.Encoding.{decode, decode_fields, decode_link, decode_kv}
use liftedmerk.Tree.Shape as Shape
use liftedmerk.Tree.Shape.{Shape, leaf, fork, lookup, IsOrdered, Sized, Rep, RepTree, kv_digest}
use liftedmerk.Tree.Search.Sorted.{IsSorted}
use liftedmerk.Proofs.Encoding.{encode_into}
use liftedmerk.Proofs.Verify.Defs.{verify_query}
use liftedmerk.Proofs.Verify.Forgery.{
  forged_value, forged_absence, verify_query-forged_value, verify_query-forged_absence,
}
use liftedmerk.Merk.Keys.{check_keys, check_keys-IsSorted}
use liftedmerk.Merk.Store.{source, fetch_node, fetch_existing_node, get, prove, root_hash}
use liftedmerk.Merk.Store.Reads.{get-lookup}
use liftedmerk.Merk.Store.Proves.{verify_query-prove, prove_unsorted}
use liftedmerk.Examples.Sample.{
  sum_hasher, sample_ed, low, mid, high, left_shape, right_shape, left_tree, right_tree,
  sample_tree, sample_db,
}

abbrev pub sample_keys : List Bytes
sample_keys = low ∷ (3 ∷ []) ∷ high ∷ []

abbrev pub sample_shape : Shape
sample_shape = fork left_shape mid (20 ∷ []) right_shape

fetched_low : source sample_db (reference (Shape.root_hash left_shape) (0, 0) low) ≡ ok left_tree
unfolding source fetch_existing_node fetch_node decode decode_fields decode_link decode_kv Link.key
    kv_digest cmp
fetched_low = refl

pub sample_Rep : RepTree (source sample_db) left_shape mid (20 ∷ []) right_shape sample_tree
unfolding Link.tree_key Link.hash liftedmerk.Tree.Node.value liftedmerk.Tree.Node.kv_hash
    liftedmerk.Tree.Node.link
sample_Rep = (
  refl,
  refl,
  refl,
  (_, left_tree, refl, fetched_low, refl, refl, refl, refl, refl, refl),
  (_, right_tree, refl, refl, refl, refl, refl, refl, refl, refl),
)

pub sample_IsOrdered : IsOrdered sample_shape
unfolding cmp
sample_IsOrdered = ((refl, tt, tt), (refl, tt, tt), (tt, tt, tt, tt), (tt, tt, tt, tt))

pub sample_Sized : Sized sample_shape
sample_Sized = (
  omega arith,
  omega arith,
  (omega arith, omega arith, tt, tt),
  (omega arith, omega arith, tt, tt),
)

pub sample_keys-IsSorted : IsSorted sample_keys
unfolding cmp
sample_keys-IsSorted = ((refl, (refl, tt)), ((refl, tt), (tt, tt)))

verify_query-prove_example :
    (proof : Bytes) × (t' : Tree) × (root : Hash) × (prove sample_db 2
        (some sample_tree)
        sample_keys
      ≡ ok (proof, some t'))
    × (root_hash (some sample_tree) ≡ ok root)
    × (verify_query proof sample_keys root ≡ ok (map (lookup sample_shape) sample_keys))
    × RepTree (source sample_db) left_shape mid (20 ∷ []) right_shape t'
verify_query-prove_example =
    verify_query-prove sample_db 2 left_shape right_shape mid (20 ∷ []) sample_tree sample_keys
      (omega arith) sample_IsOrdered sample_Sized sample_Rep sample_keys-IsSorted

low_present : lookup sample_shape low ≡ none → sample_db low ≡ ok none
unfolding lookup cmp
low_present absent = cc

-- Below the pruned link.
get-lookup_example : get sample_db (some sample_tree) low ≡ ok (lookup sample_shape low)
get-lookup_example =
    get-lookup sample_db low left_shape right_shape mid (20 ∷ []) sample_tree sample_Rep low_present

gt_not_lt : ¬ (gt ≡ lt)
gt_not_lt e = cc

unsorted : ¬ IsSorted (high ∷ low ∷ [])
unfolding cmp
unsorted sorted = gt_not_lt sorted.0.0

prove_unsorted_example : prove sample_db 2 (some sample_tree) (high ∷ low ∷ []) ≢ ok ([], none)
prove_unsorted_example =
    prove_unsorted sample_db 2 (some sample_tree) (high ∷ low ∷ []) unsorted ([], none)

check_keys-IsSorted_example : (check_keys none sample_keys ≡ ok tt) ↔ IsSorted sample_keys
check_keys-IsSorted_example = check_keys-IsSorted sample_keys

-- A root hash that is no hash of the sample tree.
verify_query-forged_value_example :
    verify_query
      (encode_into (forged_value (replicate 20 9) mid high) [])
      (mid ∷ [])
      (replicate 20 9)
    ≡ ok (some high ∷ [])
verify_query-forged_value_example =
    verify_query-forged_value (replicate 20 9) mid high refl (omega arith) (omega arith)

verify_query-forged_absence_example :
    verify_query
      (encode_into (forged_absence (replicate 20 9) mid high) [])
      (low ∷ [])
      (replicate 20 9)
    ≡ ok (none ∷ [])
verify_query-forged_absence_example =
    verify_query-forged_absence (replicate 20 9) mid high low refl (omega arith) (omega arith)
      (unfold cmp in refl)
