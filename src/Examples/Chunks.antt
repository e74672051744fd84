-- ===== src/Examples/Chunks.antt =====
-- Iterating over the chunks of a small store (src/merk/chunks.rs).
use liftedmerk.Base.{◌≡◌, ◌∷◌, ◌++◌, [], refl, Bytes, List, ok, length}
use liftedmerk.Tree.Types.{Tree, node, vacant}
use liftedmerk.Tree.Encoding.{decode, decode_fields, decode_link, decode_kv}
use liftedmerk.Tree.Shape.{kv_digest}
use liftedmerk.Proofs.Op.{kv, push}
use liftedmerk.Merk.Chunks.{Producer, len, collect}
use liftedmerk.Merk.Chunks.Ends.{collect-length}
use liftedmerk.Examples.Sample.{sum_hasher, sample_ed, low}

abbrev stored : Bytes
stored = 0 ∷ 0 ∷ (kv_digest low (10 ∷ []) ++ (10 ∷ []))

abbrev low_node : Tree
low_node = node vacant vacant (record { key = []; value = 10 ∷ []; hash = kv_digest low (10 ∷ []) })

stored_decodes : decode [] stored ≡ ok low_node
unfolding decode decode_fields decode_link decode_kv kv_digest
stored_decodes = refl

abbrev producer : Producer
producer = record {
  trunk = push (kv low (10 ∷ [])) ∷ [];
  chunk_boundaries = low ∷ [];
  raw_iter = (low, stored) ∷ [];
  index = 0;
}

collect-length_example :
    (chunks : List Bytes) × (collect 4 producer ≡ ok chunks) × (length chunks ≡ 3)
collect-length_example =
    collect-length 3 producer (unfold len in refl) ((low_node, stored_decodes), tt)
