-- ===== src/Merk/Apply/Held.antt =====
-- `Merk::get` (src/merk/mod.rs) on a tree under operations, some of whose links are modified.
use liftedmerk.Base.{
  ◌≡◌, ◌∙◌, refl, ap, Bytes, Option, none, some, ok, cmp-cases, eq_of_cmp, inl, inr,
}
use liftedmerk.Ed.{Ed}
use liftedmerk.Tree.Hash.{Hasher}
use liftedmerk.Tree.Types.{Tree, node, Slot, reference, modified, uncommitted, loaded}
use liftedmerk.Tree.Link
use liftedmerk.Tree.Node
use liftedmerk.Tree.Shape.{Shape, leaf, fork, height, lookup, root_hash}
use liftedmerk.Tree.Encoding.{decode}
use liftedmerk.Tree.Ops.Holds.{pair, Holds, IsStored, StandsMaybe, reference_to}
use liftedmerk.Merk.Store.{Db, source, fetch_node, fetch_value, cursor_tree, cursor_slot, get}
use liftedmerk.Merk.Store.Reads.{Agrees, cursor_node, get_at-Agrees, fetch_value-none}
use liftedmerk.Merk.Apply.Saves.{source_ok}

module _ ⦃h : Hasher⦄ ⦃e : Ed⦄ (db : Db) (q : Bytes) where
  value_found :
      (bytes k v : Bytes) (sl sr : Slot)
      → db q ≡ ok (some bytes)
      → decode q bytes ≡ ok (node sl sr (pair k v))
      → fetch_value db q ≡ ok (some v)
  unfolding fetch_value fetch_node Node.value
  value_found bytes k v sl sr found decoded = rw (found, decoded) refl

  -- What is stored answers for a shape.
  stored_value :
      (s : Shape)
      → IsStored (source db) s
      → (lookup s q ≡ none → db q ≡ ok none)
      → fetch_value db q ≡ ok (lookup s q)
  unfolding lookup
  stored_value leaf stored gone = fetch_value-none db q (gone refl)
  stored_value (fork l k v r) (here, sl, sr) gone = elim (cmp-cases q k) [
    | inl low ↦ rw (low, lookup) (stored_value l sl (rw (low, lookup) at gone))
    | inr (inl same) ↦
        let (bytes, found, decoded) =
          source_ok db (root_hash (fork l k v r)) (height l, height r) k _ here in
        let is_k = eq_of_cmp q k same in
        rw (same, lookup)
          (value_found bytes k v (reference_to l) (reference_to r) (ap db is_k ∙ found)
            (ap (λ x. decode x bytes) is_k ∙ decoded))
    | inr (inr high) ↦ rw (high, lookup) (stored_value r sr (rw (high, lookup) at gone))
  ]

  held_cursor :
      (s : Shape) (slot : Slot)
      → Holds (source db) s slot
      → (lookup s q ≡ none → db q ≡ ok none)
      → Agrees db q (cursor_slot slot q) (lookup s q)
  unfolding lookup cursor_slot Link.tree_key Node.value Node.link
  held_cursor leaf slot held gone = rw (held, cursor_slot) refl
  held_cursor (fork l k v r) slot (reference x c p, sl, sr, is_slot, got, fresh, hs, hl, hr) gone =
      rw (is_slot, cursor_slot) (stored_value (fork l k v r) fresh.1 gone)
  held_cursor (fork l k v r) slot (modified p c t, sl, sr, is_slot, got, fresh, hs, hl, hr) gone =
      rw (is_slot, got, cursor_slot)
        (cursor_node db q l r k v (node sl sr (pair k v)) refl refl (held_cursor l sl hl)
          (held_cursor r sr hr) gone)
  held_cursor (fork l k v r) slot (uncommitted x c t, sl, sr, is_slot, got, fresh, hs, hl, hr)
        gone =
      absurd got
  held_cursor (fork l k v r) slot (loaded x c t, sl, sr, is_slot, got, fresh, hs, hl, hr) gone =
      rw (is_slot, got, cursor_slot)
        (cursor_node db q l r k v (node sl sr (pair k v)) refl refl (held_cursor l sl hl)
          (held_cursor r sr hr) gone)

  -- `get` gives what a lookup gives.
  pub get-StandsMaybe :
      (s : Shape) (o : Option Tree)
      → StandsMaybe (source db) s o
      → (lookup s q ≡ none → db q ≡ ok none)
      → get db o q ≡ ok (lookup s q)
  unfolding get lookup Link.tree_key Node.value Node.link
  get-StandsMaybe leaf o stands gone = rw stands refl
  get-StandsMaybe (fork l k v r) o (sl, sr, is_some, hl, hr) gone = rw is_some (
      get_at-Agrees db q (cursor_tree (node sl sr (pair k v)) q) (lookup (fork l k v r) q) (
        cursor_node db q l r k v (node sl sr (pair k v)) refl refl (held_cursor l sl hl)
          (held_cursor r sr hr) gone))
