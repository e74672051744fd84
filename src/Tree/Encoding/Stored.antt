-- ===== src/Tree/Encoding/Stored.antt =====
-- The key and the links of a node that was decoded (src/tree/encoding.rs, src/tree/link.rs).
use liftedmerk.Base.{
  ℕ, ◌≡◌, refl, Bytes, Option, none, some, Result, ok, err, panic, stuck, >>=-eq-ok, read_exact,
  true, false,
}
use liftedmerk.Ed.{Ed}
use liftedmerk.Tree.Hash.{hash_length}
use liftedmerk.Tree.Types.{
  Tree, node, Slot, vacant, holds, Link, reference, modified, uncommitted, loaded,
}
use liftedmerk.Tree.Link
use liftedmerk.Tree.Node
use liftedmerk.Tree.Encoding.{
  decode_link, decode_kv, decode_fields, decode, read_u8, option_slot, unwrap, set_key,
}

abbrev pub Referring : Slot → Type 0
Referring vacant = Unit {0}
Referring (holds (reference x c k)) = Unit {0}
Referring (holds (modified p c t)) = ⊥
Referring (holds (uncommitted x c t)) = ⊥
Referring (holds (loaded x c t)) = ⊥

reference-Referring :
    (x k r rest : Bytes) (c : ℕ × ℕ) (link : Link)
    → ◌≡◌ {A = Result (Link × Bytes)} (ok (reference x c k, r)) (ok (link, rest))
    → Referring (holds link)
reference-Referring x k r rest c link e = let same : link ≡ reference x c k = cc in rw same tt

decode_link-Referring :
    (input rest : Bytes) (link : Link)
    → decode_link input ≡ ok (link, rest)
    → Referring (holds link)
unfolding decode_link
decode_link-Referring input rest link e =
    let (a1, e1, f1) = >>=-eq-ok (read_u8 input) _ e in
    let (a2, e2, f2) = >>=-eq-ok (read_exact a1.0 a1.1) _ f1 in
    let (a3, e3, f3) = >>=-eq-ok (read_exact hash_length a2.1) _ f2 in
    let (a4, e4, f4) = >>=-eq-ok (read_u8 a3.1) _ f3 in
    let (a5, e5, f5) = >>=-eq-ok (read_u8 a4.1) _ f4 in
    reference-Referring a3.0 a2.0 a5.1 rest (a4.0, a5.0) link f5

unwrap-ok : (m : Result Tree) (t : Tree) → unwrap m ≡ ok t → m ≡ ok t
unwrap-ok (ok u) t e = e
unwrap-ok (err x) t e = cc
unwrap-ok panic t e = cc
unwrap-ok stuck t e = cc

module _ ⦃e : Ed⦄ where
  slot-Referring :
      (o : Option Link) (input rest : Bytes)
      → e.decode_option Link decode_link input ≡ ok (o, rest)
      → Referring (option_slot o)
  slot-Referring none input rest decoded = tt
  slot-Referring (some link) input rest decoded =
      let (bytes, linked) = e.decode_option_inv Link decode_link input link rest decoded in
      decode_link-Referring bytes rest link linked

  -- Decoding gives the node the key, and only references for links.
  pub decode-Referring :
      (key input : Bytes) (t : Tree)
      → decode key input ≡ ok t
      → (Link.tree_key t ≡ key) × Referring (Node.link t true) × Referring (Node.link t false)
  unfolding decode decode_fields Link.tree_key Node.link
  decode-Referring key input t decoded =
      let (u, e1, f1) = >>=-eq-ok (unwrap (decode_fields input)) _ decoded in
      let (a2, e2, f2) =
        >>=-eq-ok (e.decode_option Link decode_link input) _
          (unwrap-ok (decode_fields input) u e1) in
      let (a3, e3, f3) = >>=-eq-ok (e.decode_option Link decode_link a2.1) _ f2 in
      let (kv, e4, f4) = >>=-eq-ok (decode_kv a3.1) _ f3 in
      let built : u ≡ node (option_slot a2.0) (option_slot a3.0) kv = cc in
      let keyed : t ≡ set_key key u = cc in
      rw (keyed, built) (refl, slot-Referring a2.0 input a2.1 e2, slot-Referring a3.0 a2.1 a3.1 e3)
