-- ===== src/Examples/Tree.antt =====
-- Searching, encoding and committing the sample tree (src/tree).
use liftedmerk.Base.{◌≡◌, ◌∷◌, [], ◌++◌, refl, Bytes, ok, arith, length}
use liftedmerk.Tree.Hash.{node_hash}
use liftedmerk.Tree.Types.{Kv, Tree, node, vacant, holds, Link, modified, loaded}
use liftedmerk.Tree.Link
use liftedmerk.Tree.Node
use liftedmerk.Tree.Shape.{leaf, fork, root_hash, kv_digest}
use liftedmerk.Tree.Encoding.{encode_link, decode_link, link_encoding_length, encode, decode}
use liftedmerk.Tree.Encoding.RoundTrip.{
  stored_link, stored_slot, decode_link-encode_link, decode-encode_tree,
}
use liftedmerk.Tree.Commit.{commit, noop_commit}
use liftedmerk.Tree.Commit.Hashes.{nothing, clean, changed, commit-root_hash}
use liftedmerk.Tree.Iter.{iter, collect}
use liftedmerk.Tree.Iter.Entries.{entries, passes, collect-entries}
use liftedmerk.Examples.Sample.{
  sample_tree, high, sum_hasher, sample_ed, low, mid, left_shape, right_shape, left_tree,
  right_tree,
}

abbrev high_link : Link
high_link = loaded (root_hash right_shape) (0, 0) right_tree

decode_link-encode_link_example :
    (bytes : Bytes) × (encode_link high_link ≡ ok bytes)
    × (decode_link (bytes ++ (6 ∷ [])) ≡ ok (stored_link high_link, 6 ∷ []))
    × (link_encoding_length high_link ≡ ok (length bytes))
decode_link-encode_link_example =
    decode_link-encode_link high_link (6 ∷ [])
      (unfold root_hash node_hash in refl, unfold Link.tree_key in omega arith)

abbrev mid_kv : Kv
mid_kv = record { key = mid; value = 20 ∷ []; hash = kv_digest mid (20 ∷ []) }

decode-encode_tree_example :
    (bytes : Bytes) × (encode (node vacant (holds high_link) mid_kv) ≡ ok bytes)
    × (decode mid bytes ≡ ok (node vacant (stored_slot (holds high_link)) mid_kv))
decode-encode_tree_example =
    decode-encode_tree vacant (holds high_link) mid_kv tt
      (unfold root_hash node_hash in refl, unfold Link.tree_key in omega arith)
      (unfold kv_digest in refl)

-- A modified link on the left, a loaded one on the right, and a committer that writes nothing.
commit-root_hash_example :
    (t' : Tree) × (c' : Unit {0}) × (commit noop_commit
        (node (holds (modified 1 (0, 0) left_tree)) (holds high_link) mid_kv)
        tt
      ≡ ok (t', c'))
    × (Node.hash t' ≡ ok (root_hash (fork left_shape mid (20 ∷ []) right_shape)))
commit-root_hash_example =
    commit-root_hash noop_commit (λ c t left right. (c, unfold noop_commit in refl)) left_shape
      right_shape mid (20 ∷ []) (holds (modified 1 (0, 0) left_tree)) (holds high_link) tt
      (changed leaf leaf low (10 ∷ []) vacant vacant (kv_digest low (10 ∷ [])) 1 (0, 0) refl nothing
        nothing)
      (clean right_shape high_link (unfold Link.hash in refl) tt)

-- The pruned link on the left is passed over.
sample_entries : entries sample_tree ≡ (mid, 20 ∷ []) ∷ (high, 40 ∷ 41 ∷ []) ∷ []
unfolding entries
sample_entries = refl

collect-entries_example :
    collect (passes sample_tree 1) (iter sample_tree) ≡ ok (entries sample_tree)
collect-entries_example = collect-entries sample_tree
