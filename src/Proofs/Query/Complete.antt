-- ===== src/Proofs/Query/Complete.antt =====
-- Verifying the planned proof of a shape: `create_proof` (src/proofs/query.rs) against `verify_query`
-- (src/proofs/verify.rs).
use liftedmerk.Base.{
  ◌≡◌, ◌∷◌, [], ◌++◌, ◌∙◌, ◌<◌, refl, ap, map, append-nil, List, Bytes, Bool, true, false, Option,
  none, some, Result, ok, cmp_refl, All, ◌||◌, arith, length, replicate, >>=-eq-ok,
}
use liftedmerk.Tree.Hash.{Hasher, node_hash}
use liftedmerk.Tree.Shape.{
  Shape, leaf, fork, lookup, AllKeys, IsOrdered, Sized, root_hash, kv_digest,
}
use liftedmerk.Tree.Search.{Search, found, missing, before, behind}
use liftedmerk.Tree.Search.Sorted.{IsSorted}
use liftedmerk.Proofs.Op as Proof
use liftedmerk.Proofs.Op.{Op, push, parent, child}
use liftedmerk.Proofs.Encoding.RoundTrip.{Fits}
use liftedmerk.Proofs.Verify.Defs as Proved
use liftedmerk.Proofs.Verify.Defs.{
  Query, visit, is_kv, in_order, right_edge, start, execute, verify_ops, verify_query, tree_hash,
  check_key,
}
use liftedmerk.Proofs.Verify.Outline.{Outline, nodes, scan, ops, parent_op, child_op}
use liftedmerk.Proofs.Verify.Merkle.{execute-ops}
use liftedmerk.Proofs.Query.Plan.{plan, plan_root, planned}
use liftedmerk.Proofs.Query.Root.{outline_hash-plan_root}
use liftedmerk.Proofs.Query.Answers.{nones, Settled, state, HigherThan}
use liftedmerk.Proofs.Query.Answered.{leftover, answers, split, answers-lookup}
use liftedmerk.Proofs.Query.Scanned.{Behind, All-append}
use liftedmerk.Proofs.Query.Scan.{scan-plan_root}

visit-last_push : (q q' : Query) (n : Proof.Node) → visit q n ≡ ok q' → q'.last_push ≡ some n
unfolding visit
visit-last_push q q' (Proof.hash x) e = ground arith
visit-last_push q q' (Proof.kv_hash x) e = ground arith
visit-last_push q q' (Proof.kv k v) e = ground arith

-- After a node was pushed there is a last push.
scan_pushed :
    (ns : List Proof.Node) (k k' : Option Bytes) (q q' : Query) (m : Proof.Node)
    → q.last_push ≡ some m
    → scan visit ns k q ≡ ok (k', q')
    → (m' : Proof.Node) × (q'.last_push ≡ some m')
unfolding scan
scan_pushed [] k k' q q' m e runs = (m, ground arith)
scan_pushed (n ∷ ns) k k' q q' m e runs =
    let (k1, e1, after1) = >>=-eq-ok (check_key n k) _ runs in
    let (q1, e2, after2) = >>=-eq-ok (visit q n) _ after1 in
    scan_pushed ns k1 k' q1 q' n (visit-last_push q q1 n e2) after2

scan_nonempty :
    (ns ms : List Proof.Node) (n : Proof.Node) (k k' : Option Bytes) (q q' : Query)
    → scan visit (ns ++ (n ∷ ms)) k q ≡ ok (k', q')
    → (m' : Proof.Node) × (q'.last_push ≡ some m')
unfolding scan
scan_nonempty [] ms n k k' q q' runs =
    let (k1, e1, after1) = >>=-eq-ok (check_key n k) _ runs in
    let (q1, e2, after2) = >>=-eq-ok (visit q n) _ after1 in
    scan_pushed ms k1 k' q1 q' n (visit-last_push q q1 n e2) after2
scan_nonempty (n' ∷ ns) ms n k k' q q' runs =
    let (k1, e1, after1) = >>=-eq-ok (check_key n' k) _ runs in
    let (q1, e2, after2) = >>=-eq-ok (visit q n') _ after1 in
    scan_nonempty ns ms n k1 k' q1 q' after2

replicate-nones : (keys : List Bytes) → replicate (length keys) none ≡ nones keys
replicate-nones [] = refl
replicate-nones (q ∷ keys) = ap (λ t. none ∷ t) (replicate-nones keys)

right_edge-nones :
    (rest : List Bytes) (output : List (Option Bytes)) (m : Proof.Node)
    → Settled rest (some m)
    → right_edge (state rest (some m) output) ≡ ok (output ++ nones rest)
unfolding right_edge
right_edge-nones [] output m settled = rw append-nil
right_edge-nones (q ∷ rest) output (Proof.kv k v) settled = rw (replicate-nones rest)
right_edge-nones (q ∷ rest) output (Proof.hash x) settled = cc
right_edge-nones (q ∷ rest) output (Proof.kv_hash x) settled = cc

Behind-none : (s : Shape) → Behind none s
Behind-none leaf = tt
Behind-none (fork l k v r) = (refl, Behind-none l, Behind-none r)

nothing_higher : (s : Shape) → AllKeys (λ x. HigherThan x []) s
nothing_higher leaf = tt
nothing_higher (fork l k v r) = (tt, nothing_higher l, nothing_higher r)

module _ ⦃h : Hasher⦄ where
  verify_ops-ok :
      (items : List (Result Op)) (keys : List Bytes) (root' : Bytes) (t : Proved.Tree) (q : Query)
      (output : List (Option Bytes))
      → execute true visit items (start keys) ≡ ok (t, q)
      → right_edge q ≡ ok output
      → tree_hash t ≡ ok root'
      → verify_ops items keys root' ≡ ok output
  unfolding verify_ops
  verify_ops-ok items keys root' t q output e1 e2 e3 = rw (e1, e2, e3, cmp_refl root')

  scanned_root :
      (l r : Shape) (k v : Bytes) (keys : List Bytes)
      → IsOrdered (fork l k v r)
      → IsSorted keys
      → (last_key : Option Bytes) × (m : Proof.Node) × (scan visit
            (nodes (plan_root l k v r keys).0)
            none
            (start keys)
          ≡ ok (
            last_key,
            state (leftover (fork l k v r) keys) (some m) (answers (fork l k v r) keys),
          ))
        × Settled (leftover (fork l k v r) keys) (some m)
  unfolding plan_root nodes
  scanned_root l r k v keys tree_ordered sorted =
      let s = fork l k v r in
      let scanned =
        scan-plan_root l r k v keys tree_ordered sorted (Behind-none s) (nothing_higher s) in
      let runs = rw (append-nil keys, append-nil (leftover s keys)) at scanned.runs in
      let search = split keys k in
      let pl = plan l (before search keys) in
      let pr = plan r (behind search keys) in
      let (m, is_m) =
        scan_nonempty (nodes pl.0) (nodes pr.0) (planned search (pl.2 || pr.1) k v) none
          scanned.last_key' (start keys)
          (state (leftover s keys) scanned.last_push' (answers s keys)) runs in
      (scanned.last_key', m, rw is_m at runs, rw is_m at scanned.settled)

  -- The planned proof of an ordered shape, with keys of fewer than 256 bytes and values of fewer than
  -- 65,536, for keys that are sorted and unique, verifies against the Merkle root of the shape, and
  -- gives for each key what a lookup gives.
  pub verify_ops-plan_root :
      (l r : Shape) (k v : Bytes) (keys : List Bytes)
      → IsOrdered (fork l k v r)
      → Sized (fork l k v r)
      → IsSorted keys
      → verify_ops (map ok (ops (plan_root l k v r keys).0)) keys (root_hash (fork l k v r))
        ≡ ok (map (lookup (fork l k v r)) keys)
  unfolding plan_root
  verify_ops-plan_root l r k v keys tree_ordered sized sorted =
      let s = fork l k v r in
      let search = split keys k in
      let pl = plan l (before search keys) in
      let pr = plan r (behind search keys) in
      let (last_key, m, runs, settled) = scanned_root l r k v keys tree_ordered sorted in
      let (t, executed, hashed) =
        execute-ops true visit pl.0 pr.0 (planned search (pl.2 || pr.1) k v) (start keys)
          (state (leftover s keys) (some m) (answers s keys)) last_key (root_hash s)
          (outline_hash-plan_root l r k v keys sized) runs in
      verify_ops-ok (map ok (ops (plan_root l k v r keys).0)) keys (root_hash s) t
        (state (leftover s keys) (some m) (answers s keys))
        (answers s keys ++ nones (leftover s keys)) executed
        (right_edge-nones (leftover s keys) (answers s keys) m settled) hashed
      ∙ ap ok (answers-lookup s keys sorted)

  ops-Fits :
      (l r : Outline) (n : Proof.Node)
      → All Fits (ops l)
      → Fits (push n)
      → All Fits (ops r)
      → All Fits (ops (Outline.fork l n r))
  unfolding ops
  ops-Fits l r n fits_l fits_n fits_r =
      All-append Fits (ops l) (push n ∷ (parent_op l ++ (ops r ++ child_op r))) fits_l (
        fits_n,
        All-append Fits (parent_op l) (ops r ++ child_op r) (parent_fits l)
            (All-append Fits (ops r) (child_op r) fits_r (child_fits r)),
      )
    where
      parent_fits : (o : Outline) → All Fits (parent_op o)
      parent_fits Outline.tip = tt
      parent_fits (Outline.fork a m b) = (tt, tt)

      child_fits : (o : Outline) → All Fits (child_op o)
      child_fits Outline.tip = tt
      child_fits (Outline.fork a m b) = (tt, tt)

  planned-Fits :
      (search : Search) (b : Bool) (k v : Bytes)
      → length k < 256
      → length v < 65536
      → Fits (push (planned search b k v))
  unfolding kv_digest
  planned-Fits (found i) b k v hk hv = (hk, hv)
  planned-Fits (missing i) true k v hk hv = (hk, hv)
  planned-Fits (missing i) false k v hk hv = h.length-digest _

  plan-Fits : (s : Shape) (keys : List Bytes) → Sized s → All Fits (ops (plan s keys).0)
  unfolding plan root_hash node_hash
  plan-Fits leaf [] sized = unfold ops in tt
  plan-Fits leaf (q ∷ keys) sized = unfold ops in tt
  plan-Fits (fork l k v r) [] sized = unfold ops in (h.length-digest _, tt)
  plan-Fits (fork l k v r) (q ∷ keys) (hk, hv, sized_l, sized_r) =
      let search = split (q ∷ keys) k in
      ops-Fits (plan l (before search (q ∷ keys))).0 (plan r (behind search (q ∷ keys))).0 _
        (plan-Fits l (before search (q ∷ keys)) sized_l) (planned-Fits search _ k v hk hv)
        (plan-Fits r (behind search (q ∷ keys)) sized_r)

  pub plan_root-Fits :
      (l r : Shape) (k v : Bytes) (keys : List Bytes)
      → Sized (fork l k v r)
      → All Fits (ops (plan_root l k v r keys).0)
  unfolding plan_root
  plan_root-Fits l r k v keys (hk, hv, sized_l, sized_r) =
      let search = split keys k in
      ops-Fits (plan l (before search keys)).0 (plan r (behind search keys)).0 _
        (plan-Fits l (before search keys) sized_l) (planned-Fits search _ k v hk hv)
        (plan-Fits r (behind search keys) sized_r)
