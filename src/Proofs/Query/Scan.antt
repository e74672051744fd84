-- ===== src/Proofs/Query/Scan.antt =====
-- The verifier's visitor (src/proofs/verify.rs) over all nodes of a planned proof.
use liftedmerk.Base.{
  ◌≡◌, ◌∷◌, [], ◌++◌, refl, append-nil, List, Bytes, true, Option, none, some, cmp, cmp_trans, ◌||◌,
}
use Prim.Native.Nat.Ordering.{lt}
use liftedmerk.Tree.Hash.{Hasher}
use liftedmerk.Tree.Shape.{Shape, leaf, fork, AllKeys, AllKeys-imp, IsOrdered, root_hash}
use liftedmerk.Tree.Search.{Search, found, missing, before, behind}
use liftedmerk.Tree.Search.Sorted.{IsSorted, hit, binary_search-IsSplit, All-imp}
use liftedmerk.Proofs.Op as Proof
use liftedmerk.Proofs.Verify.Defs.{visit, is_boundary, check_key, in_order}
use liftedmerk.Proofs.Verify.Outline.{nodes, scan}
use liftedmerk.Proofs.Query.Plan.{plan, plan_root, planned}
use liftedmerk.Proofs.Query.Answers.{HigherThan, nones, hits, scan-planned}
use liftedmerk.Proofs.Query.Answered.{
  split, leftover, answers, leftover-nil, answers-nil, All-leftover,
}
use liftedmerk.Proofs.Query.Scanned.{
  Behind, Scanned, All-append, AllKeys-both, or_false, or_true, runs_fork, in_order_next,
}

module _ ⦃h : Hasher⦄ where
  -- A child that is not queried is a hash.
  scan_hash :
      (l r : Shape) (k v : Bytes) (rest : List Bytes) (last_key : Option Bytes)
      (last_push : Option Proof.Node) (output : List (Option Bytes))
      → Scanned (plan (fork l k v r) []) (fork l k v r) [] rest last_key last_push output
  unfolding plan nodes scan check_key visit
  scan_hash l r k v rest last_key last_push output = record {
    last_key' = last_key;
    last_push' = some (Proof.hash (root_hash (fork l k v r)));
    runs = rw (leftover-nil (fork l k v r), answers-nil (fork l k v r), append-nil output);
    settled = rw (leftover-nil (fork l k v r)) tt;
    ordered = λ x below e. e;
    edge = λ e. leftover-nil (fork l k v r);
  }

  scan_leaf :
      (keys rest : List Bytes) (last_key : Option Bytes) (last_push : Option Proof.Node)
      (output : List (Option Bytes))
      → ((plan leaf keys).1 ≡ true → is_boundary last_push ≡ true)
      → Scanned (plan leaf keys) leaf keys rest last_key last_push output
  unfolding plan nodes scan leftover answers
  scan_leaf [] rest last_key last_push output boundary = record {
    last_key' = last_key;
    last_push' = last_push;
    runs = rw (append-nil output);
    settled = tt;
    ordered = λ x below e. e;
    edge = λ e. refl;
  }
  scan_leaf (q ∷ keys) rest last_key last_push output boundary = record {
    last_key' = last_key;
    last_push' = last_push;
    runs = rw (append-nil output);
    settled = boundary refl;
    ordered = λ x below e. e;
    edge = λ e. cc;
  }

  fork_scan :
      (l r : Shape) (k v : Bytes) (keys rest : List Bytes) (last_key : Option Bytes)
      (last_push : Option Proof.Node) (output : List (Option Bytes))
      → IsOrdered (fork l k v r)
      → IsSorted keys
      → Behind last_key (fork l k v r)
      → AllKeys (λ x. HigherThan x rest) (fork l k v r)
      → Scanned
          (plan l (before (split keys k) keys))
          l
          (before (split keys k) keys)
          (hit (split keys k) k ++ (behind (split keys k) keys ++ rest))
          last_key
          last_push
          output
      → ((last_key1 : Option Bytes) (last_push1 : Option Proof.Node) (output1 : List (Option Bytes))
          → Behind last_key1 r
          → ((plan r (behind (split keys k) keys)).1 ≡ true → is_boundary last_push1 ≡ true)
          → Scanned
              (plan r (behind (split keys k) keys))
              r
              (behind (split keys k) keys)
              rest
              last_key1
              last_push1
              output1)
      → Scanned (plan_root l k v r keys) (fork l k v r) keys rest last_key last_push output
  unfolding plan_root
  fork_scan l r k v keys rest last_key last_push output tree_ordered sorted fresh higher left
        right =
      let search = split keys k in
      let parts = binary_search-IsSplit keys k sorted in
      let lower_keys = before search keys in
      let higher_keys = behind search keys in
      let pl = plan l lower_keys in
      let pr = plan r higher_keys in
      let pending = leftover l lower_keys in
      let (last_key2, last_push2, run2, which, bound) =
        scan-planned search (pl.2 || pr.1) k v pending (higher_keys ++ rest) left.last_key'
          left.last_push' (output ++ answers l lower_keys)
          (All-leftover (λ x. cmp x k ≡ lt) l lower_keys parts.lower) left.settled
          (λ e. left.edge (or_false pl.2 pr.1 e))
          (All-append (λ x. cmp k x ≡ lt) higher_keys rest parts.higher higher.0)
          (left.ordered k tree_ordered.0 fresh.0) in
      let between : (x : Bytes)
          → cmp k x ≡ lt
          → in_order x last_key ≡ true
          → in_order x last_key2 ≡ true =
        λ x above e. in_order_next k x left.last_key' last_key2 which above (
          left.ordered x
            (AllKeys-imp (λ y. cmp y k ≡ lt) (λ y. cmp y x ≡ lt)
              (λ y low. cmp_trans y k x low above) l tree_ordered.0)
            e) in
      let after =
        right last_key2 last_push2
          ((output ++ answers l lower_keys) ++ (nones pending ++ hits search v))
          (AllKeys-both (λ x. cmp k x ≡ lt) (λ x. in_order x last_key ≡ true)
            (λ x. in_order x last_key2 ≡ true) between r tree_ordered.1 fresh.2)
          (λ e. bound (or_true pl.2 pr.1 e)) in
      record {
        last_key' = after.last_key';
        last_push' = after.last_push';
        runs =
            unfold leftover answers in
            runs_fork pl.0 pr.0 (planned search (pl.2 || pr.1) k v) keys lower_keys (hit search k)
              higher_keys rest pending (leftover r higher_keys) last_key left.last_key' last_key2
              after.last_key' last_push left.last_push' last_push2 after.last_push' output
              (answers l lower_keys) (nones pending ++ hits search v) (answers r higher_keys)
              parts.whole left.runs (run2 (nodes pr.0)) after.runs;
        settled = unfold leftover in after.settled;
        ordered = λ x below e.
            after.ordered x below.2
              (in_order_next k x left.last_key' last_key2 which below.0 (left.ordered x below.1 e));
        edge = unfold leftover in after.edge;
      }

  hit_higher : (search : Search) (x k : Bytes) → cmp x k ≡ lt → HigherThan x (hit search k)
  hit_higher (found i) x k low = (low, tt)
  hit_higher (missing i) x k low = tt

  abbrev pub ScansPlan : Shape → Type 0
  ScansPlan s =
      (keys rest : List Bytes) (last_key : Option Bytes) (last_push : Option Proof.Node)
      (output : List (Option Bytes))
      → IsOrdered s
      → IsSorted keys
      → Behind last_key s
      → AllKeys (λ x. HigherThan x rest) s
      → ((plan s keys).1 ≡ true → is_boundary last_push ≡ true)
      → Scanned (plan s keys) s keys rest last_key last_push output

  scan_sides :
      (l r : Shape) (k v : Bytes) (keys rest : List Bytes) (last_key : Option Bytes)
      (last_push : Option Proof.Node) (output : List (Option Bytes))
      → ScansPlan l
      → ScansPlan r
      → IsOrdered (fork l k v r)
      → IsSorted keys
      → Behind last_key (fork l k v r)
      → AllKeys (λ x. HigherThan x rest) (fork l k v r)
      → ((plan_root l k v r keys).1 ≡ true → is_boundary last_push ≡ true)
      → Scanned (plan_root l k v r keys) (fork l k v r) keys rest last_key last_push output
  unfolding plan_root
  scan_sides l r k v keys rest last_key last_push output scans_l scans_r tree_ordered sorted fresh
        higher boundary =
      let search = split keys k in
      let parts = binary_search-IsSplit keys k sorted in
      let high = behind search keys in
      let left_higher : AllKeys (λ x. HigherThan x (hit search k ++ (high ++ rest))) l =
        AllKeys-both (λ x. cmp x k ≡ lt) (λ x. HigherThan x rest)
          (λ x. HigherThan x (hit search k ++ (high ++ rest)))
          (λ x low behind_rest.
            All-append (λ y. cmp x y ≡ lt) (hit search k) (high ++ rest) (hit_higher search x k low)
              (All-append (λ y. cmp x y ≡ lt) high rest
                (All-imp (λ y. cmp k y ≡ lt) (λ y. cmp x y ≡ lt)
                  (λ y above. cmp_trans x k y low above) high parts.higher)
                behind_rest))
          l tree_ordered.0 higher.1 in
      fork_scan l r k v keys rest last_key last_push output tree_ordered sorted fresh higher
        (scans_l (before search keys) (hit search k ++ (high ++ rest)) last_key last_push output
          tree_ordered.2 parts.before_sorted fresh.1 left_higher boundary)
        (λ last_key1 last_push1 output1 fresh1 boundary1.
          scans_r high rest last_key1 last_push1 output1 tree_ordered.3 parts.behind_sorted fresh1
            higher.2 boundary1)

  scan_fork_keys :
      (l r : Shape) (k v : Bytes) → ScansPlan l → ScansPlan r → ScansPlan (fork l k v r)
  unfolding plan plan_root
  scan_fork_keys l r k v scans_l scans_r [] rest last_key last_push output tree_ordered sorted fresh
        higher boundary =
      scan_hash l r k v rest last_key last_push output
  scan_fork_keys l r k v scans_l scans_r (q ∷ keys) rest last_key last_push output tree_ordered
        sorted fresh higher boundary =
      scan_sides l r k v (q ∷ keys) rest last_key last_push output scans_l scans_r tree_ordered
        sorted fresh higher boundary

  -- The visitor accepts the nodes of a plan for sorted keys, if the shape is ordered and lies between
  -- the last key and the keys that follow, and an absence at its left edge finds a boundary there.
  pub scan-plan : (s : Shape) → ScansPlan s
  unfolding plan plan_root
  scan-plan leaf = λ keys rest last_key last_push output tree_ordered sorted fresh higher boundary.
      scan_leaf keys rest last_key last_push output boundary
  scan-plan (fork l k v r) = λ keys. scan_fork_keys l r k v (scan-plan l) (scan-plan r) keys

  -- The same of the proof of a whole tree, in front of which nothing was visited.
  pub scan-plan_root :
      (l r : Shape) (k v : Bytes) (keys : List Bytes)
      → IsOrdered (fork l k v r)
      → IsSorted keys
      → Behind none (fork l k v r)
      → AllKeys (λ x. HigherThan x []) (fork l k v r)
      → Scanned (plan_root l k v r keys) (fork l k v r) keys [] none none []
  scan-plan_root l r k v keys tree_ordered sorted fresh higher =
      scan_sides l r k v keys [] none none [] (scan-plan l) (scan-plan r) tree_ordered sorted fresh
        higher (λ _. refl)
