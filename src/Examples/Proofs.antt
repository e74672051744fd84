-- ===== src/Examples/Proofs.antt =====
-- Encoding, executing and generating proofs of the sample tree (src/proofs).
use liftedmerk.Base.{
  ◌≡◌, ◌∷◌, [], ◌++◌, refl, map, List, none, some, ok, arith, cmp, true, length, replicate, All,
}
use liftedmerk.Tree.Hash.{Hash}
use liftedmerk.Tree.Types as TreeTypes
use liftedmerk.Tree.Shape.{lookup, root_hash, RepTree}
use liftedmerk.Proofs.Op.{Op, hash, kv_hash, kv, push, parent, child}
use liftedmerk.Proofs.Encoding.{encode, encode_into, encoding_length, decode, decode_all}
use liftedmerk.Proofs.Encoding.RoundTrip.{
  Fits, decode-encode, length-encode, decode_all-encode_into,
}
use liftedmerk.Proofs.Verify.Defs.{
  Tree, tree, absent, present, from_node, execute, execute_loop, tree_hash, attach, verify_ops,
  visit, match_keys, start, Query, compute_hash,
}
use liftedmerk.Proofs.Verify.Outline.{Outline, tip, ops, nodes, scan, execute_loop-ops, grow}
use liftedmerk.Proofs.Verify.Merkle.{outline_hash, execute-ops}
use liftedmerk.Proofs.Query.Defs.{create_proof}
use liftedmerk.Proofs.Query.Plan.{plan_root, proven}
use liftedmerk.Proofs.Query.Refines.{create_proof-plan_root}
use liftedmerk.Proofs.Query.Complete.{verify_ops-plan_root}
use liftedmerk.Merk.Store.{source}
use liftedmerk.Examples.Sample.{
  sum_hasher, sample_ed, mid, high, left_shape, right_shape, sample_tree, sample_db,
}
use liftedmerk.Examples.Merk.{
  sample_shape, sample_keys, sample_Rep, sample_IsOrdered, sample_Sized, sample_keys-IsSorted,
}

verify_ops-plan_root_example :
    verify_ops
      (map ok (ops (plan_root left_shape mid (20 ∷ []) right_shape sample_keys).0))
      sample_keys
      (root_hash sample_shape)
    ≡ ok (map (lookup sample_shape) sample_keys)
verify_ops-plan_root_example =
    verify_ops-plan_root left_shape right_shape mid (20 ∷ []) sample_keys sample_IsOrdered
      sample_Sized sample_keys-IsSorted

create_proof-plan_root_example :
    (t' : TreeTypes.Tree) × (create_proof 2 (source sample_db) sample_tree sample_keys
      ≡ ok (proven (plan_root left_shape mid (20 ∷ []) right_shape sample_keys), t'))
    × RepTree (source sample_db) left_shape mid (20 ∷ []) right_shape t'
create_proof-plan_root_example =
    create_proof-plan_root (source sample_db) 2 left_shape right_shape mid (20 ∷ []) sample_tree
      sample_keys (omega arith) sample_Rep

-- A pair with a hash to its left and the hash of a pair to its right.
abbrev some_hash : Hash
some_hash = replicate 20 8

abbrev left_outline : Outline
left_outline = Outline.fork tip (hash some_hash) tip

abbrev right_outline : Outline
right_outline = Outline.fork tip (kv_hash some_hash) tip

abbrev some_ops : List Op
some_ops =
    push (hash some_hash) ∷ push (kv mid high) ∷ parent ∷ push (kv_hash some_hash) ∷ child ∷ []

some_ops-Fits : All Fits some_ops
some_ops-Fits = (refl, ((omega arith, omega arith), (tt, (refl, (tt, tt)))))

decode_all-encode_into_example : decode_all (encode_into some_ops []) ≡ map ok some_ops
decode_all-encode_into_example = decode_all-encode_into some_ops some_ops-Fits

decode-encode_example :
    decode (encode (push (kv mid high)) ++ (7 ∷ [])) ≡ ok (push (kv mid high), 7 ∷ [])
decode-encode_example = decode-encode (push (kv mid high)) (7 ∷ []) (omega arith, omega arith)

length-encode_example : length (encode (push (kv mid high))) ≡ encoding_length (push (kv mid high))
length-encode_example = length-encode (push (kv mid high)) (omega arith, omega arith)

outline_hash_mid :
    (x : Hash) × (outline_hash (Outline.fork left_outline (kv mid high) right_outline) ≡ ok x)
unfolding outline_hash liftedmerk.Tree.Hash.kv_hash
outline_hash_mid = (_, refl)

scanned_mid :
    scan visit
      (nodes (Outline.fork left_outline (kv mid high) right_outline))
      none
      (start (mid ∷ []))
    ≡ ok (
      some mid,
      record { rest = []; last_push = some (kv_hash some_hash); output = some high ∷ [] },
    )
unfolding scan nodes visit match_keys cmp liftedmerk.Proofs.Verify.Defs.check_key
scanned_mid = refl

execute-ops_example :
    (t : Tree) × (execute true visit
        (map ok (ops (Outline.fork left_outline (kv mid high) right_outline)))
        (start (mid ∷ []))
      ≡ ok (t, record { rest = []; last_push = some (kv_hash some_hash); output = some high ∷ [] }))
    × (tree_hash t ≡ ok outline_hash_mid.0)
execute-ops_example =
    execute-ops true visit left_outline right_outline (kv mid high) (start (mid ∷ []))
      (record { rest = []; last_push = some (kv_hash some_hash); output = some high ∷ [] })
      (some mid) outline_hash_mid.0 outline_hash_mid.1 scanned_mid

scanned_left :
    scan visit (nodes left_outline) none (start [])
    ≡ ok (none, record (start []) { last_push = some (hash some_hash) })
unfolding scan nodes visit liftedmerk.Proofs.Verify.Defs.check_key
scanned_left = refl

execute_loop-ops_example :
    execute_loop true visit (map ok (ops left_outline) ++ (ok parent ∷ [])) [] none (start [])
    ≡ execute_loop true visit
        (ok parent ∷ [])
        (from_node (hash some_hash) ∷ [])
        none
        (record (start []) { last_push = some (hash some_hash) })
execute_loop-ops_example =
    execute_loop-ops true visit left_outline (ok parent ∷ []) [] none none (start [])
      (record (start []) { last_push = some (hash some_hash) }) (some (from_node (hash some_hash)))
      scanned_left (unfold grow in refl)
