-- ===== src/Merk/Store.antt =====
-- `Merk` (src/merk/mod.rs): reading, proving and committing. The database is not part of the
-- repository: what is read of it is a function from keys to stored bytes. `use_tree` and
-- `use_tree_mut` leave no trace.
pub mod Reads
pub mod Proves
use liftedmerk.Base.{
  ℕ, ◌+◌, ◌-◌, ◌%◌, ◌∷◌, [], ◌++◌, List, Bytes, Bool, Option, none, some, Result, ok, err, ◌>>=◌,
  ◌>>◌, cmp, leb, key_not_found, empty_tree,
}
use Prim.Native.Nat.Ordering.{lt, eq, gt}
use liftedmerk.Ed.{Ed}
use liftedmerk.Tree.Hash.{Hash, Hasher, null_hash}
use liftedmerk.Tree.Types.{
  Kv, Tree, node, Slot, vacant, holds, Link, reference, modified, uncommitted, loaded,
}
use liftedmerk.Tree.Link
use liftedmerk.Tree.Node
use liftedmerk.Tree.Walk.{Fetch}
use liftedmerk.Tree.Encoding.{encode, decode}
use liftedmerk.Tree.Commit.{Commit}
use liftedmerk.Proofs.Op as Proof
use liftedmerk.Proofs.Encoding.{encode_into}
use liftedmerk.Proofs.Query.Defs.{create_proof}
use liftedmerk.Merk.Keys.{check_keys}

-- `db.get_pinned`
abbrev pub Db : Type 0
Db = Bytes → Result (Option Bytes)

-- Where the loop of `get` ends: at the key, at an empty slot, or at a pruned link.
pub data Cursor : Type 0 where
  hit : Bytes → Cursor
  miss : Cursor
  pruned : Cursor

unfoldable mutual
  pub cursor_tree : Tree → Bytes → Cursor
  cursor_tree (node l r kv) key = elim (cmp key kv.key) [
    | lt ↦ cursor_slot l key
    | eq ↦ hit kv.value
    | gt ↦ cursor_slot r key
  ]

  pub cursor_slot : Slot → Bytes → Cursor
  cursor_slot vacant key = miss
  cursor_slot (holds (reference h c k)) key = pruned
  cursor_slot (holds (modified p c t)) key = cursor_tree t key
  cursor_slot (holds (uncommitted h c t)) key = cursor_tree t key
  cursor_slot (holds (loaded h c t)) key = cursor_tree t key

module _ ⦃e : Ed⦄ (db : Db) where
  abbrev pub decode_stored : Bytes → Option Bytes → Result (Option Tree)
  decode_stored key none = ok none
  decode_stored key (some stored) = do t ← decode key stored; ok (some t)

  unfoldable pub fetch_node : Bytes → Result (Option Tree)
  unfolding decode
  fetch_node key = do stored ← db key; decode_stored key stored

  abbrev pub existing : Option Tree → Result Tree
  existing none = err key_not_found
  existing (some t) = ok t

  unfoldable pub fetch_existing_node : Bytes → Result Tree
  unfolding fetch_node
  fetch_existing_node key = do t ← fetch_node key; existing t

  -- `MerkSource`
  unfoldable pub source : Fetch
  unfolding fetch_existing_node Link.key
  source link = fetch_existing_node (Link.key link)

  abbrev pub value_of : Option Tree → Option Bytes
  value_of none = none
  value_of (some t) = some (Node.value t)

  unfoldable pub fetch_value : Bytes → Result (Option Bytes)
  unfolding fetch_node Node.value
  fetch_value key = do t ← fetch_node key; ok (value_of t)

  abbrev pub get_at : Cursor → Bytes → Result (Option Bytes)
  get_at (hit v) key = ok (some v)
  get_at miss key = ok none
  get_at pruned key = fetch_value key

  -- `Merk::get`
  unfoldable pub get : Option Tree → Bytes → Result (Option Bytes)
  unfolding cursor_tree fetch_value
  get none key = ok none
  get (some t) key = get_at (cursor_tree t key) key

  -- `Merk::prove_unchecked`; the fuel bounds the depth of the tree.
  unfoldable pub prove_unchecked :
      ⦃h : Hasher⦄ → ℕ → Option Tree → List Bytes → Result (Bytes × Option Tree)
  unfolding create_proof encode_into source
  prove_unchecked fuel none query = err empty_tree
  prove_unchecked fuel (some t) query = do
    (proven, t') ← create_proof fuel source t query
    ok (encode_into proven.0 [], some t')

  -- `Merk::prove`
  unfoldable pub prove : ⦃h : Hasher⦄ → ℕ → Option Tree → List Bytes → Result (Bytes × Option Tree)
  unfolding prove_unchecked check_keys
  prove fuel maybe_tree query = do check_keys none query; prove_unchecked fuel maybe_tree query

-- `Merk::root_hash`
unfoldable pub root_hash : ⦃h : Hasher⦄ → Option Tree → Result Hash
unfolding Node.hash
root_hash none = ok null_hash
root_hash (some t) = Node.hash t

-- `MerkCommitter`
pub record Committer : Type 0 where
  pub batch : List (Bytes × Option Bytes)
  pub height : ℕ
  pub levels : ℕ

unfoldable pub new_committer : ℕ → ℕ → Committer
new_committer height levels = record { batch = []; height = height; levels = levels }

module _ ⦃e : Ed⦄ where
  unfoldable pub write : Committer → Tree → Result Committer
  unfolding encode Link.tree_key
  write c t = do
    buf ← encode t
    ok (record c { batch = c.batch ++ (Link.tree_key t, some buf) ∷ [] })

  -- Keeps the top levels of the tree. The difference of heights is a `u8`.
  unfoldable pub prune : Committer → Tree → Bool × Bool
  unfolding Node.height
  prune c t = let far = leb c.levels ((c.height + 256 - Node.height t) % 256) in (far, far)

  unfoldable pub merk_committer : Commit Committer
  unfolding write prune
  merk_committer = record { write = write; prune = prune }
