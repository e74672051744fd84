-- ===== src/Merk/Restore/Runs.antt =====
-- A `Restorer` (src/merk/restore.rs) from `new`, over the chunks that it accepts.
use liftedmerk.Base.{
  ℕ, zero, suc, ◌+◌, ◌≡◌, ◌<◌, ◌∙◌, refl, sym, ap, Bytes, Bool, true, false, none, some, Result, ok,
  err, panic, stuck, arith, chunks_remaining,
}
use liftedmerk.Ed.{Ed}
use liftedmerk.Tree.Hash.{Hash, Hasher}
use liftedmerk.Proofs.Encoding.{decode_all}
use liftedmerk.Merk.Apply.{Merk, Rocks}
use liftedmerk.Merk.Restore.State.{Restorer}
use liftedmerk.Merk.Restore.{new, is_zero, remaining_chunks, process_chunk, process_ops, finalize}
use liftedmerk.Merk.Restore.Aligned.{IsAligned, process_leaf-IsAligned, process_trunk-IsAligned}

module _ {D : Type 0} (rocks : Rocks D) ⦃h : Hasher⦄ ⦃e : Ed⦄ where
  -- So many chunks were accepted one after the other.
  pub data Runs (first : Restorer D) : ℕ → Restorer D → Type 0 where
    idle : Runs first 0 first
    accepts :
        (k n : ℕ) (chunk_bytes : Bytes) (r r' : Restorer D)
        → Runs first k r
        → process_chunk rocks chunk_bytes r ≡ (ok n, r')
        → Runs first (suc k) r'

  -- Before the first chunk nothing is known; after it the chunks add up to the stated length.
  abbrev pub IsCounted : ℕ → Restorer D → Type 0
  IsCounted zero r = r.leaf_hashes ≡ none
  IsCounted (suc k) r = (n : ℕ) × IsAligned r n × (suc k + n ≡ r.stated_length)

  process_chunk-IsCounted :
      (k n : ℕ) (chunk_bytes : Bytes) (r r' : Restorer D)
      → IsCounted k r
      → process_chunk rocks chunk_bytes r ≡ (ok n, r')
      → IsCounted (suc k) r' × (r'.stated_length ≡ r.stated_length)
  unfolding process_chunk
  process_chunk-IsCounted zero n chunk_bytes r r' unknown done =
      let (aligned, stated, kept) =
        process_trunk-IsAligned rocks (decode_all chunk_bytes) r r' n
          (ap (λ o. process_ops rocks o (decode_all chunk_bytes) r) (sym unknown) ∙ done) in
      ((n, aligned, omega (arith, stated, kept)), kept)
  process_chunk-IsCounted (suc k) n chunk_bytes r r' (m, aligned0, total) done =
      let (aligned, fewer, kept) =
        process_leaf-IsAligned rocks (decode_all chunk_bytes) r r' m n aligned0
          (ap (λ o. process_ops rocks o (decode_all chunk_bytes) r) (sym aligned0.2) ∙ done) in
      ((n, aligned, omega (arith, total, fewer, kept)), kept)

  Runs-IsCounted :
      (first r : Restorer D) (k : ℕ)
      → first.leaf_hashes ≡ none
      → Runs first k r
      → IsCounted k r × (r.stated_length ≡ first.stated_length)
  Runs-IsCounted first r zero unknown idle = (unknown, refl)
  Runs-IsCounted first r (suc k) unknown (accepts _ n chunk_bytes r0 _ runs done) =
      let (counted, stated) = Runs-IsCounted first r0 k unknown runs in
      let (next, kept) = process_chunk-IsCounted k n chunk_bytes r0 r counted done in
      (next, kept ∙ stated)

  fresh :
      (exists : Bool) (opened : Result (Merk D)) (expected_root_hash : Hash) (stated_length : ℕ)
      (first : Restorer D)
      → new exists opened expected_root_hash stated_length ≡ ok first
      → (first.leaf_hashes ≡ none) × (first.stated_length ≡ stated_length)
  unfolding new
  fresh true opened expected_root_hash stated_length first made = cc made
  fresh false (ok merk) expected_root_hash stated_length first made =
      let same : record {
        leaf_hashes = none;
        parent_keys = none;
        trunk_height = none;
        merk = merk;
        expected_root_hash = expected_root_hash;
        stated_length = stated_length;
      }
          ≡ first =
        cc made in
      (ap (λ r. r.leaf_hashes) (sym same), ap (λ r. r.stated_length) (sym same))
  fresh false (err error) expected_root_hash stated_length first made = cc made
  fresh false panic expected_root_hash stated_length first made = cc made
  fresh false stuck expected_root_hash stated_length first made = cc made

  -- If a new restorer is told that there are `stated_length` chunks and it accepts at least one, then
  -- the chunks it has accepted and the number it says remain add up to `stated_length`. It then has one
  -- leaf hash for each chunk that remains, and half as many parent keys, rounded up.
  pub remaining_chunks-Runs :
      (exists : Bool) (opened : Result (Merk D)) (expected_root_hash : Hash) (stated_length : ℕ)
      (first r : Restorer D) (k : ℕ)
      → new exists opened expected_root_hash stated_length ≡ ok first
      → Runs first (suc k) r
      → (n : ℕ) × (remaining_chunks r ≡ some n) × (suc k + n ≡ stated_length) × IsAligned r n
  unfolding remaining_chunks
  remaining_chunks-Runs exists opened expected_root_hash stated_length first r k made runs =
      let (unknown, stated) = fresh exists opened expected_root_hash stated_length first made in
      let ((n, aligned, total), kept) = Runs-IsCounted first r (suc k) unknown runs in
      (n, rw aligned.2 (ap some aligned.4), total ∙ kept ∙ stated, aligned)

  unfinished :
      (k : ℕ) (r : Restorer D)
      → IsCounted k r
      → k < r.stated_length
      → is_zero (remaining_chunks r) ≡ false
  unfolding remaining_chunks
  unfinished zero r unknown short = rw unknown refl
  unfinished (suc k) r (n, (hashes, keys, known, listed, count, halves), total) short =
      let more : ¬ (n ≡ 0) = omega (arith, total, short) in rw (known, count) (ground arith)

  -- If a new restorer is told that there are `stated_length` chunks and it has accepted fewer, then
  -- `finalize` gives the error that chunks remain, and changes nothing.
  pub finalize-Runs :
      (flush : D → Result D) (exists : Bool) (opened : Result (Merk D)) (expected_root_hash : Hash)
      (stated_length : ℕ) (first r : Restorer D) (k : ℕ)
      → new exists opened expected_root_hash stated_length ≡ ok first
      → Runs first k r
      → k < stated_length
      → finalize rocks flush r ≡ (err chunks_remaining, r)
  unfolding finalize
  finalize-Runs flush exists opened expected_root_hash stated_length first r k made runs short =
      let (unknown, stated) = fresh exists opened expected_root_hash stated_length first made in
      let (counted, kept) = Runs-IsCounted first r k unknown runs in
      rw (unfinished k r counted (omega (arith, short, kept, stated))) refl
