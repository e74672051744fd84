-- ===== src/Merk/Chunks.antt =====
-- `ChunkProducer` and `ChunkIter` (src/merk/chunks.rs). RocksDB's raw iterator is the list of keys and
-- values before it; where a seek puts it is a parameter. The crate `ed` encodes a vector of operators
-- as one operator after the other.
pub mod Ends
use liftedmerk.Base.{
  ℕ, zero, suc, ◌+◌, ◌-◌, ◌∷◌, [], ◌||◌, List, Bytes, Bool, true, false, Option, none, some, Result,
  ok, err, panic, stuck, ◌>>=◌, ◌>>◌, expect, guard, not, if◌then◌else◌, ◌==◌, leb, length,
  get_elem?, drop, chunk_index_out_of_bounds,
}
use liftedmerk.Ed.{Ed}
use liftedmerk.Tree.Hash.{Hasher}
use liftedmerk.Tree.Types as Stored
use liftedmerk.Tree.Walk.{Fetch}
use liftedmerk.Proofs.Op.{Op, kv, push}
use liftedmerk.Proofs.Encoding.{encode_into}
use liftedmerk.Proofs.Chunk.{create_trunk_proof, get_next_chunk}

abbrev pub Rows : Type 0
Rows = List (Bytes × Bytes)

-- `seek_to_first` and `seek`.
pub record Seeks : Type 0 where
  pub first : Rows
  pub from : Bytes → Rows

pub record Producer : Type 0 where
  pub trunk : List Op
  pub chunk_boundaries : List Bytes
  pub raw_iter : Rows
  pub index : ℕ

-- The keys of the trunk's `KV` nodes.
unfoldable pub pushed_keys : List Op → List Bytes
pushed_keys [] = []
pushed_keys (push (kv k v) ∷ ops) = k ∷ pushed_keys ops
pushed_keys (op ∷ ops) = pushed_keys ops

abbrev pub boundaries : Bool → List Op → List Bytes
boundaries true trunk = pushed_keys trunk
boundaries false trunk = []

-- `Merk::walk` with `create_trunk_proof`: the operators, whether more follow, and the tree left.
abbrev pub trunk_of :
    ⦃h : Hasher⦄ → ℕ → Fetch → Option Stored.Tree → Result (List Op × Bool × Option Stored.Tree)
trunk_of fuel fetch none = ok ([], false, none)
trunk_of fuel fetch (some t) = do
  (trunk, has_more, t') ← create_trunk_proof fuel fetch t
  ok (trunk, has_more, some t')

module _ (seeks : Seeks) where
  unfoldable pub new :
      ⦃h : Hasher⦄ → ℕ → Fetch → Option Stored.Tree → Result (Producer × Option Stored.Tree)
  unfolding create_trunk_proof pushed_keys
  new fuel fetch maybe_tree = do
    (trunk, has_more, left) ← trunk_of fuel fetch maybe_tree
    ok (
      record {
        trunk = trunk;
        chunk_boundaries = boundaries has_more trunk;
        raw_iter = seeks.first;
        index = 0;
      },
      left,
    )

unfoldable pub len : Producer → ℕ
len p = elim p.chunk_boundaries [ [] ↦ 1 | boundary ∷ more ↦ length p.chunk_boundaries + 2 ]

module _ ⦃e : Ed⦄ where
  unfoldable pub next_chunk : Producer → Result (Bytes × Producer)
  unfolding len encode_into get_next_chunk
  next_chunk p =
      let behind = (do
        (chunk, raw_iter) ← get_next_chunk p.raw_iter (get_elem? p.chunk_boundaries (p.index - 1))
        ok (encode_into chunk [], record p { raw_iter = raw_iter; index = suc p.index })) in
      let checked = if leb (len p) p.index then panic else behind in
      if p.index == 0 then ok (encode_into p.trunk [], record p { index = 1 }) else checked

  -- `Iterator::next`
  unfoldable pub next : Producer → Result (Option Bytes × Producer)
  unfolding len
  next p =
      let more = (do (chunk, p') ← next_chunk p; ok (some chunk, p')) in
      if leb (len p) p.index then ok (none, p) else more

  -- All that the iterator yields.
  unfoldable pub collect : ℕ → Producer → Result (List Bytes)
  unfolding next
  collect zero p = stuck
  collect (suc fuel) p = do
    (item, p') ← next p
    let rest = collect fuel p'
    elim item [ none ↦ ok [] | some chunk ↦ (rest >>= λ chunks. ok (chunk ∷ chunks)) ]

module _ ⦃e : Ed⦄ (seeks : Seeks) where
  -- Where `chunk` puts the iterator; an index of at least 2 is behind a boundary.
  abbrev pub sought : Producer → ℕ → Result Rows
  sought p index =
      let behind = (do
        preceding_key ← expect (get_elem? p.chunk_boundaries (index - 2))
        ok (drop 1 (seeks.from preceding_key))) in
      if index == 0 || index == 1 then ok seeks.first else behind

  unfoldable pub chunk : Producer → ℕ → Result (Bytes × Producer)
  unfolding len next_chunk
  chunk p index = do
    guard (not (leb (len p) index)) chunk_index_out_of_bounds
    raw_iter ← sought p index
    next_chunk (record p { raw_iter = raw_iter; index = index })
