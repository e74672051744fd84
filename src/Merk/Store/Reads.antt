-- ===== src/Merk/Store/Reads.antt =====
-- `Merk::get` (src/merk/mod.rs) against lookups in what the tree stands for.
use liftedmerk.Base.{
  eq_of_cmp, ◌∙◌, sym, Option-cases, >>=-eq-ok, ◌≡◌, refl, ap, Bytes, true, false, Option, none,
  some, ok, cmp-cases, inl, inr,
}
use liftedmerk.Ed.{Ed}
use liftedmerk.Tree.Hash.{Hasher}
use liftedmerk.Tree.Types.{Tree, node, Slot, holds, Link, reference, modified, uncommitted, loaded}
use liftedmerk.Tree.Link
use liftedmerk.Tree.Node
use liftedmerk.Tree.Shape.{Shape, leaf, fork, lookup, Rep, RepTree, Resolves}
use liftedmerk.Tree.Encoding.{decode}
use liftedmerk.Tree.Encoding.Stored.{Referring, decode-Referring}
use liftedmerk.Merk.Store.{
  fetch_node, fetch_existing_node, source, existing, decode_stored, Db, Cursor, hit, miss, pruned,
  cursor_tree, cursor_slot, get, fetch_value, get_at,
}

-- What the cursor has found agrees with an answer, which a pruned link leaves to the database.
abbrev pub Agrees : ⦃e : Ed⦄ → Db → Bytes → Cursor → Option Bytes → Type 0
Agrees db q (hit v) o = o ≡ some v
Agrees db q miss o = o ≡ none
Agrees db q pruned o = fetch_value db q ≡ ok o

module _ ⦃e : Ed⦄ (db : Db) where
  pub existing-some : (o : Option Tree) (t : Tree) → existing db o ≡ ok t → o ≡ some t
  existing-some none t found = cc
  existing-some (some u) t found = cc

  -- What the source fetches is stored under the link's key, has that key, and only references.
  fetched :
      (link : Link) (t : Tree)
      → source db link ≡ ok t
      → (fetch_node db (Link.key link) ≡ ok (some t))
        × (Link.tree_key t ≡ Link.key link)
        × Referring (Node.link t true)
        × Referring (Node.link t false)
  unfolding source fetch_existing_node fetch_node
  fetched link t res =
      let (o, e1, f1) = >>=-eq-ok (fetch_node db (Link.key link)) _ res in
      let is_some = existing-some o t f1 in
      let (stored, e2, f2) = >>=-eq-ok (db (Link.key link)) _ e1 in
      let (keyed, left, right) =
        decode_stored-Referring (Link.key link) stored t (rw is_some at f2) in
      (rw is_some at e1, keyed, left, right)
    where
      decode_stored-Referring :
          (key : Bytes) (stored : Option Bytes) (t : Tree)
          → decode_stored db key stored ≡ ok (some t)
          → (Link.tree_key t ≡ key) × Referring (Node.link t true) × Referring (Node.link t false)
      decode_stored-Referring key none t decoded = cc
      decode_stored-Referring key (some bytes) t decoded =
          let (u, e3, f3) = >>=-eq-ok (decode key bytes) _ decoded in
          let same : u ≡ t = cc in decode-Referring key bytes t (rw same at e3)

  fetch_value-some :
      (q : Bytes) (t : Tree)
      → fetch_node db q ≡ ok (some t)
      → fetch_value db q ≡ ok (some (Node.value t))
  unfolding fetch_value
  fetch_value-some q t found = rw found

  pub fetch_value-none : (q : Bytes) → db q ≡ ok none → fetch_value db q ≡ ok none
  unfolding fetch_value fetch_node
  fetch_value-none q gone = rw gone

module _ ⦃e : Ed⦄ ⦃h : Hasher⦄ (db : Db) (q : Bytes) where
  pruned_link :
      (l r : Shape) (k v : Bytes) (link : Link) (t : Tree) (v' : Bytes)
      → Referring (holds link)
      → Resolves (source db) link t
      → Link.tree_key t ≡ k
      → Node.value t ≡ v
      → (Referring (Node.link t true) → lookup l q ≡ some v' → fetch_value db q ≡ ok (some v'))
      → (Referring (Node.link t false) → lookup r q ≡ some v' → fetch_value db q ≡ ok (some v'))
      → lookup (fork l k v r) q ≡ some v'
      → fetch_value db q ≡ ok (some v')
  unfolding lookup
  pruned_link l r k v (modified p c u) t v' refers res e_key e_value left right seen = absurd refers
  pruned_link l r k v (uncommitted x c u) t v' refers res e_key e_value left right seen =
      absurd refers
  pruned_link l r k v (loaded x c u) t v' refers res e_key e_value left right seen = absurd refers
  pruned_link l r k v (reference x c k') t v' refers res e_key e_value left right seen =
      let (stored, is_key, refers_l, refers_r) = fetched db (reference x c k') t res in
      elim (cmp-cases q k) [
        | inl low ↦ left refers_l (rw (low, lookup) at seen)
        | inr (inl same) ↦
            let at_key : q ≡ Link.key (reference x c k') =
              eq_of_cmp q k same ∙ sym e_key ∙ is_key in
            let is_value : some v ≡ some v' = rw (same, lookup) at seen in
            ap (fetch_value db) at_key
            ∙ fetch_value-some db (Link.key (reference x c k')) t stored
            ∙ ap (λ x. ok (some x)) e_value
            ∙ ap ok is_value
        | inr (inr high) ↦ right refers_r (rw (high, lookup) at seen)
      ]

  -- The keys below a reference are stored, each with its value.
  pruned_slot :
      (s : Shape) (slot : Slot) (v' : Bytes)
      → Referring slot
      → Rep (source db) s slot
      → lookup s q ≡ some v'
      → fetch_value db q ≡ ok (some v')
  unfolding lookup
  pruned_slot leaf slot v' refers rep seen = cc
  pruned_slot (fork l k v r) slot v' refers
        (link, t, e, res, hashed, e_key, e_value, e_hash, rep_l, rep_r) seen =
      pruned_link l r k v link t v' (rw e at refers) res e_key e_value
        (λ refers_l. pruned_slot l (Node.link t true) v' refers_l rep_l)
        (λ refers_r. pruned_slot r (Node.link t false) v' refers_r rep_r) seen

  pruned_answer :
      (s : Shape) (slot : Slot)
      → Referring slot
      → Rep (source db) s slot
      → (lookup s q ≡ none → db q ≡ ok none)
      → fetch_value db q ≡ ok (lookup s q)
  pruned_answer s slot refers rep gone = elim (Option-cases (lookup s q)) [
    | inl absent ↦ fetch_value-none db q (gone absent) ∙ ap ok (sym absent)
    | inr (v', present) ↦ pruned_slot s slot v' refers rep present ∙ ap ok (sym present)
  ]

  pub cursor_node :
      (l r : Shape) (k v : Bytes) (t : Tree)
      → Link.tree_key t ≡ k
      → Node.value t ≡ v
      → ((lookup l q ≡ none → db q ≡ ok none)
          → Agrees db q (cursor_slot (Node.link t true) q) (lookup l q))
      → ((lookup r q ≡ none → db q ≡ ok none)
          → Agrees db q (cursor_slot (Node.link t false) q) (lookup r q))
      → (lookup (fork l k v r) q ≡ none → db q ≡ ok none)
      → Agrees db q (cursor_tree t q) (lookup (fork l k v r) q)
  unfolding cursor_tree lookup Link.tree_key Node.value Node.link
  cursor_node l r k v (node sl sr kv) e_key e_value left right gone = elim (cmp-cases q k) [
    | inl low ↦ rw (e_key, low, cursor_tree, lookup) (left (rw (low, lookup) at gone))
    | inr (inl same) ↦ rw (e_key, same, cursor_tree, lookup) (ap some (sym e_value))
    | inr (inr high) ↦ rw (e_key, high, cursor_tree, lookup) (right (rw (high, lookup) at gone))
  ]

  cursor_link :
      (s : Shape) (link : Link) (t : Tree)
      → Rep (source db) s (holds link)
      → Resolves (source db) link t
      → (lookup s q ≡ none → db q ≡ ok none)
      → Agrees db q (cursor_tree t q) (lookup s q)
      → Agrees db q (cursor_slot (holds link) q) (lookup s q)
  unfolding cursor_slot
  cursor_link s (reference x c k) t rep res gone agrees =
      pruned_answer s (holds (reference x c k)) tt rep gone
  cursor_link s (modified p c u) t rep res gone agrees = absurd res
  cursor_link s (uncommitted x c u) t rep res gone agrees = rw res agrees
  cursor_link s (loaded x c u) t rep res gone agrees = rw res agrees

  cursor-lookup :
      (s : Shape) (slot : Slot)
      → Rep (source db) s slot
      → (lookup s q ≡ none → db q ≡ ok none)
      → Agrees db q (cursor_slot slot q) (lookup s q)
  unfolding lookup cursor_slot
  cursor-lookup leaf slot rep gone = rw (rep, cursor_slot) refl
  cursor-lookup (fork l k v r) slot (link, t, e, res, hashed, e_key, e_value, e_hash, rep_l, rep_r)
        gone =
      rw e (
        cursor_link (fork l k v r) link t
          (link, t, refl, res, hashed, e_key, e_value, e_hash, rep_l, rep_r) res gone
          (cursor_node l r k v t e_key e_value (cursor-lookup l (Node.link t true) rep_l)
            (cursor-lookup r (Node.link t false) rep_r) gone))

  pub get_at-Agrees : (c : Cursor) (o : Option Bytes) → Agrees db q c o → get_at db c q ≡ ok o
  get_at-Agrees (hit v) o agrees = rw agrees
  get_at-Agrees miss o agrees = rw agrees
  get_at-Agrees pruned o agrees = agrees

  -- If a tree stands, through the database, for a shape, and the database has nothing under the key if
  -- the shape does not have it, then `get` returns what a lookup in the shape gives, whether the key is
  -- in memory, below a pruned link or absent.
  pub get-lookup :
      (l r : Shape) (k v : Bytes) (t : Tree)
      → RepTree (source db) l k v r t
      → (lookup (fork l k v r) q ≡ none → db q ≡ ok none)
      → get db (some t) q ≡ ok (lookup (fork l k v r) q)
  unfolding get
  get-lookup l r k v t (e_key, e_value, e_hash, rep_l, rep_r) gone =
      get_at-Agrees (cursor_tree t q) (lookup (fork l k v r) q) (
        cursor_node l r k v t e_key e_value (cursor-lookup l (Node.link t true) rep_l)
          (cursor-lookup r (Node.link t false) rep_r) gone)
