-- ===== src/Merk/Restore/Whole.antt =====
-- A trunk of at most four levels that a `Restorer` (src/merk/restore.rs) accepts: it is the whole tree.
use liftedmerk.Base.{
  ℕ, ◌/◌, ◌≡◌, ◌<◌, ◌∷◌, [], ◌∙◌, refl, sym, ap, List, Bytes, Bool, true, false, ◌&&◌, Option, none,
  some, Result, ok, err, panic, stuck, >>=-eq-ok, guard, ltb, leb, cmp, is_eq, arith, leaf_not_full,
  hash_mismatch, if◌then◌else◌,
}
use liftedmerk.Ed.{Ed}
use liftedmerk.Tree.Hash.{Hash, Hasher}
use liftedmerk.Tree.Shape.{Shape, fork, root_hash}
use liftedmerk.Tree.Ops.Contents.{contents}
use liftedmerk.Tree.Ops.Update.Cuts.{IsAscending}
use liftedmerk.Proofs.Op.{Node, Op, push, parent, child}
use liftedmerk.Proofs.Encoding.{decode_all}
use liftedmerk.Proofs.Verify.Defs.{
  Tree, from_node, key, root, tree_hash, check_key, run_parent, run_child, only_item, execute_loop,
  execute,
}
use liftedmerk.Proofs.Chunk.{min_trunk_height}
use liftedmerk.Proofs.Chunk.Verify.{
  is_kv_node, leaf_node, trunk_node, verify_leaf, verify_trunk, verify_height_proof,
  verify_completeness,
}
use liftedmerk.Proofs.Chunk.Sound.{verify_leaf-FullTree, guarded}
use liftedmerk.Merk.Apply.{Rocks, Write, put_cf, internal_family, root_key_key}
use liftedmerk.Merk.Restore.State.{Restorer}
use liftedmerk.Merk.Restore.Nodes.{check_trunk, trunk_layers}
use liftedmerk.Merk.Restore.{process_ops, process_chunk}
use liftedmerk.Merk.Restore.Trunk.{trunk_ran, process_trunk-TrunkRan}
use liftedmerk.Merk.Restore.Links.{root_of}
use liftedmerk.Merk.Restore.Written.{Restores, chunk_writes-Restores}

both_true : (b c : Bool) → (b && c) ≡ true → (b ≡ true) × (c ≡ true)
both_true true true e = (refl, refl)
both_true true false e = cc e
both_true false true e = cc e
both_true false false e = cc e

leaf_visited : (n : Node) → is_kv_node n ≡ true → leaf_node tt n ≡ ok tt
leaf_visited n e = rw e refl

module _ ⦃h : Hasher⦄ where
  -- If only nodes with key and value were pushed, then the operators run as those of a leaf chunk.
  loop_as_leaf :
      (ops : List (Result Op)) (stack stack' : List Tree) (last : Option Bytes) (kv_only : Bool)
      → execute_loop false trunk_node ops stack last kv_only ≡ ok (stack', true)
      → (kv_only ≡ true) × (execute_loop false leaf_node ops stack last tt ≡ ok (stack', tt))
  unfolding execute_loop
  loop_as_leaf [] stack stack' last kv_only e =
      let same : ◌≡◌ {A = List Tree × Bool} (stack, kv_only) (stack', true) = cc e in
      (ap (λ q. q.1) same, ap (λ q. ok (q.0, tt)) same)
  loop_as_leaf (err error ∷ ops) stack stack' last kv_only e = cc e
  loop_as_leaf (panic ∷ ops) stack stack' last kv_only e = cc e
  loop_as_leaf (stuck ∷ ops) stack stack' last kv_only e = cc e
  loop_as_leaf (ok parent ∷ ops) stack stack' last kv_only e =
      let (stack1, e1, e2) = >>=-eq-ok (run_parent false stack) _ e in
      let (only, ran) = loop_as_leaf ops stack1 stack' last kv_only e2 in (only, rw (e1, ran) refl)
  loop_as_leaf (ok child ∷ ops) stack stack' last kv_only e =
      let (stack1, e1, e2) = >>=-eq-ok (run_child false stack) _ e in
      let (only, ran) = loop_as_leaf ops stack1 stack' last kv_only e2 in (only, rw (e1, ran) refl)
  loop_as_leaf (ok (push n) ∷ ops) stack stack' last kv_only e =
      let (last1, e1, e2) = >>=-eq-ok (check_key n last) _ e in
      let (both, ran) =
        loop_as_leaf ops (from_node n ∷ stack) stack' last1 (kv_only && is_kv_node n) e2 in
      let (only, is_kv) = both_true kv_only (is_kv_node n) both in (only, rw (e1, is_kv, ran) refl)

  execute_as_leaf :
      (ops : List (Result Op)) (t : Tree)
      → execute false trunk_node ops true ≡ ok (t, true)
      → execute false leaf_node ops tt ≡ ok (t, tt)
  unfolding execute
  execute_as_leaf ops t e =
      let ((stack, kv_only), e1, e2) =
        >>=-eq-ok (execute_loop false trunk_node ops [] none true) _ e in
      let (t1, e3, e4) = >>=-eq-ok (only_item stack) _ e2 in
      let same : ◌≡◌ {A = Tree × Bool} (t1, kv_only) (t, true) = cc e4 in
      let all_kv = ap (λ q. q.1) same in
      let (only, ran) = loop_as_leaf ops [] stack none true (e1 ∙ ap (λ b. ok (stack, b)) all_kv) in
      rw (ran, e3) (ap (λ q. ok (q.0, tt)) same)

  -- A small trunk is accepted as a leaf chunk would be.
  trunk_as_leaf :
      (ops : List (Result Op)) (expected_root_hash : Hash) (trunk : Tree) (height : ℕ)
      (root_key : Bytes)
      → check_trunk ops expected_root_hash ≡ ok (trunk, height, root_key)
      → height / 2 < min_trunk_height
      → (verify_leaf ops expected_root_hash ≡ ok trunk) × (key trunk ≡ ok root_key)
  unfolding check_trunk verify_trunk verify_leaf
  trunk_as_leaf ops expected_root_hash trunk height root_key accepted small =
      let ((t, height1), e1, f1) = >>=-eq-ok (verify_trunk ops) _ accepted in
      let (actual, e2, f2) = >>=-eq-ok (tree_hash t) _ f1 in
      let (u, e3, f3) =
        >>=-eq-ok (guard (is_eq (cmp actual expected_root_hash)) hash_mismatch) _ f2 in
      let (root_key1, e4, f4) = >>=-eq-ok (key t) _ f3 in
      let same : ◌≡◌ {A = Tree × ℕ × Bytes} (t, height1, root_key1) (trunk, height, root_key) =
        cc f4 in
      let ((t2, kv_only), e5, f5) = >>=-eq-ok (execute false trunk_node ops true) _ e1 in
      let (height2, e6, f6) = >>=-eq-ok (verify_height_proof t2) _ f5 in
      let (v, e7, f7) =
        >>=-eq-ok
          (if ltb (height2 / 2) min_trunk_height
            then guard kv_only leaf_not_full
            else verify_completeness t2 (height2 / 2) true)
          _ f6 in
      let same2 : ◌≡◌ {A = Tree × ℕ} (t2, height2) (t, height1) = cc f7 in
      let is_height = ap (λ q. q.1) same2 ∙ ap (λ q. q.1) same in
      let below : ltb (height2 / 2) min_trunk_height ≡ true = rw is_height (ground arith) in
      let all_kv = guarded kv_only leaf_not_full v (rw below at e7) in
      let is_trunk = ap (λ q. q.0) same2 ∙ ap (λ q. q.0) same in
      let ran = execute_as_leaf ops t2 (e5 ∙ ap (λ b. ok (t2, b)) all_kv) in
      (
        rw (ran, ap (λ q. q.0) same2, e2, e3) (ap (λ q. ok q.0) same),
        rw (← ap (λ q. q.0) same) (e4 ∙ ap (λ q. ok q.2) same),
      )

small_layers :
    ⦃h : Hasher⦄
    → (trunk : Tree) (trunk_height : ℕ) (hashes : List Hash) (keys : List Bytes) (n : ℕ)
    → trunk_layers trunk trunk_height ≡ ok (hashes, keys, n)
    → trunk_height < min_trunk_height
    → (hashes ≡ []) × (n ≡ 0)
unfolding trunk_layers
small_layers trunk trunk_height hashes keys n e small =
    let below : leb min_trunk_height trunk_height ≡ false = ground arith in
    let same : ◌≡◌ {A = List Hash × List Bytes × ℕ} ([], [], 0) (hashes, keys, n) =
      cc (rw below at e) in
    (ap (λ q. q.0) (sym same), ap (λ q. q.2) (sym same))

module _ {D : Type 0} (rocks : Rocks D) ⦃h : Hasher⦄ ⦃e : Ed⦄ where
  -- If a restorer that knows no leaf hashes yet accepts a chunk and notes a trunk height below the
  -- minimum for leaf chunks, then it was promised one chunk, and none remains. The database was
  -- written to twice: first one node for each entry of a tree in order, with the links to both sides,
  -- then the key of the tree's root as the root key. The tree has sorted entries, and its Merkle root is the expected root hash.
  pub process_chunk_whole :
      (chunk_bytes : Bytes) (r r' : Restorer D) (n trunk_height : ℕ)
      → r.leaf_hashes ≡ none
      → process_chunk rocks chunk_bytes r ≡ (ok n, r')
      → r'.trunk_height ≡ some trunk_height
      → trunk_height < min_trunk_height
      → (left : Shape) × (k : Bytes) × (v : Bytes) × (right : Shape) × (batch : List Write)
        × (db1 : D) × (root_hash (fork left k v right) ≡ r.expected_root_hash)
        × IsAscending (contents (fork left k v right))
        × (r.stated_length ≡ 1)
        × (n ≡ 0)
        × (r'.leaf_hashes ≡ some [])
        × Restores (fork left k v right) batch
        × (rocks.write_opt r.merk.db batch ≡ ok db1)
        × (rocks.write_opt db1 (put_cf internal_family root_key_key k ∷ []) ≡ ok r'.merk.db)
  unfolding process_chunk
  process_chunk_whole chunk_bytes r r' n trunk_height unknown done noted small =
      elim (process_trunk-TrunkRan rocks (decode_all chunk_bytes) r r' n
        (ap (λ o. process_ops rocks o (decode_all chunk_bytes) r) (sym unknown) ∙ done)) [
          | trunk_ran trunk height root_key hashes keys batch db1 db2 accepted layers stated made
                wrote put is_last ↦
              let found : some (height / 2) ≡ some trunk_height =
                sym (ap (λ q. q.trunk_height) is_last) ∙ noted in
              let is_height : height / 2 ≡ trunk_height = cc found in
              let (as_leaf, rooted) =
                trunk_as_leaf (decode_all chunk_bytes) r.expected_root_hash trunk height root_key
                  accepted (rw is_height small) in
              let (s, full, sorted, root) =
                verify_leaf-FullTree (decode_all chunk_bytes) r.expected_root_hash trunk as_leaf in
              let (left, v, right, is_s) = root_of s trunk root_key full rooted in
              let (no_hashes, none_left) =
                small_layers trunk (height / 2) hashes keys n layers (rw is_height small) in
              (
                left,
                root_key,
                v,
                right,
                batch,
                db1,
                ap root_hash (sym is_s) ∙ root,
                rw is_s at sorted,
                rw none_left at stated,
                none_left,
                ap (λ q. q.leaf_hashes) is_last ∙ ap some no_hashes,
                rw is_s at (chunk_writes-Restores s trunk batch full made),
                wrote,
                rw is_last put,
              )
        ]
