-- ===== src/Merk/Chunks/Ends.antt =====
-- Iterating over a `ChunkProducer` (src/merk/chunks.rs) ends with the last chunk.
use liftedmerk.Base.{
  ℕ, zero, suc, ◌+◌, ◌-◌, ◌≡◌, ◌≤◌, ◌<◌, ◌∷◌, ◌++◌, [], refl, ap, List, Bytes, true, false, Option,
  ok, All, leb, ◌==◌, length, get_elem?, Bool-cases, inl, inr, arith,
}
use liftedmerk.Ed.{Ed}
use liftedmerk.Tree.Types as Stored
use liftedmerk.Tree.Encoding.{decode}
use liftedmerk.Proofs.Op.{Op}
use liftedmerk.Proofs.Encoding.{encode_into}
use liftedmerk.Proofs.Chunk.{is_end, chunk_node, chunk_loop, get_next_chunk}
use liftedmerk.Merk.Chunks.{Rows, Producer, len, next_chunk, next, collect}

module _ ⦃e : Ed⦄ where
  -- Every value is a stored node.
  abbrev pub Decodes : Rows → Type 0
  Decodes rows = All (λ row. (t : Stored.Tree) × (decode [] row.1 ≡ ok t)) rows

  chunk_loop-Decodes :
      (rows : Rows) (end_key : Option Bytes) (stack : List Bytes)
      → Decodes rows
      → (ops : List Op) × (rows' : Rows) × (chunk_loop rows end_key stack ≡ ok (ops, rows'))
        × Decodes rows'
  unfolding chunk_loop
  chunk_loop-Decodes [] end_key stack stored = ([], [], refl, tt)
  chunk_loop-Decodes ((key, value) ∷ rows) end_key stack ((t, decoded), stored) =
      elim (Bool-cases (is_end end_key key)) [
        | inl ends ↦ ([], rows, rw ends refl, stored)
        | inr further ↦
            let (ops, rows', e1, stored') =
              chunk_loop-Decodes rows end_key (chunk_node key t stack).1 stored in
            ((chunk_node key t stack).0 ++ ops, rows', rw (further, decoded, e1) refl, stored')
      ]

  -- A chunk, and a producer for the rest.
  data Produced (p : Producer) : Type 0 where
    produced :
        (chunk : Bytes) (p' : Producer)
        → next_chunk p ≡ ok (chunk, p')
        → p'.index ≡ suc p.index
        → len p' ≡ len p
        → Decodes p'.raw_iter
        → Produced p

  next_chunk-Produced : (p : Producer) → p.index < len p → Decodes p.raw_iter → Produced p
  unfolding next_chunk get_next_chunk len
  next_chunk-Produced p inside stored = elim (Bool-cases (p.index == 0)) [
    | inl start ↦
        let first : p.index ≡ 0 = ground arith in
        produced (encode_into p.trunk []) (record p { index = 1 }) (rw start refl)
          (omega (arith, first)) refl stored
    | inr behind ↦
        let (ops, rows', e1, stored') =
          chunk_loop-Decodes p.raw_iter (get_elem? p.chunk_boundaries (p.index - 1)) [] stored in
        let there : leb (len p) p.index ≡ false = ground arith in
        produced (encode_into ops []) (record p { raw_iter = rows'; index = suc p.index })
          (rw (behind, there, e1) refl) refl refl stored'
  ]

  one_more :
      (n : ℕ) (p p' : Producer) (chunk : Bytes) (chunks : List Bytes)
      → p.index < len p
      → next_chunk p ≡ ok (chunk, p')
      → collect n p' ≡ ok chunks
      → collect (suc n) p ≡ ok (chunk ∷ chunks)
  unfolding collect next
  one_more n p p' chunk chunks inside e1 e2 =
      let there : leb (len p) p.index ≡ false = ground arith in rw (there, e1, e2) refl

  at_end : (n : ℕ) (p : Producer) → len p ≤ p.index → collect (suc n) p ≡ ok []
  unfolding collect next
  at_end n p outside = let over : leb (len p) p.index ≡ true = ground arith in rw over refl

  -- If every value before the iterator is a stored node, then iterating over a producer that has `more`
  -- chunks left ends, after one step for each and one to see the end, with that many chunks.
  pub collect-length :
      (more : ℕ) (p : Producer)
      → len p ≡ p.index + more
      → All (λ row. (t : Stored.Tree) × (decode [] row.1 ≡ ok t)) p.raw_iter
      → (chunks : List Bytes) × (collect (suc more) p ≡ ok chunks) × (length chunks ≡ more)
  collect-length zero p left stored = ([], at_end zero p (omega (arith, left)), refl)
  collect-length (suc more) p left stored =
      elim (next_chunk-Produced p (omega (arith, left)) stored) [
        | produced chunk p' e1 index same_len stored' ↦
            let (chunks, e2, counted) =
              collect-length more p' (omega (arith, left, index, same_len)) stored' in
            (
              chunk ∷ chunks,
              one_more (suc more) p p' chunk chunks (omega (arith, left)) e1 e2,
              ap suc counted,
            )
      ]
