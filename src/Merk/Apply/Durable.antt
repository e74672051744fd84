-- ===== src/Merk/Apply/Durable.antt =====
-- The database after `Merk::commit`, and `Merk::load_root` on it (src/merk/mod.rs).
use liftedmerk.Base.{◌≡◌, ◌∷◌, refl, Bytes, ok, All, inl, inr, cmp, cmp_refl, cmp_trans}
use Prim.Native.Nat.Ordering.{lt}
use liftedmerk.Ed.{Ed}
use liftedmerk.Tree.Hash.{Hasher}
use liftedmerk.Tree.Types.{node}
use liftedmerk.Tree.Shape.{Shape, leaf, fork, height, AllKeys, IsOrdered, root_hash}
use liftedmerk.Tree.Encoding.{decode}
use liftedmerk.Tree.Ops.Contents.{contents}
use liftedmerk.Tree.Ops.Holds.{pair, IsStored, reference_to}
use liftedmerk.Tree.Ops.Update.Cuts.{IsAscending, IsAscending-middle, All-split}
use liftedmerk.Merk.Store.{Db, source}
use liftedmerk.Merk.Apply.Rows.{HasKey, IsRow}
use liftedmerk.Merk.Apply.Saves.{HasRow, source_found}

pub keys_All : (P : Bytes → Type 0) (s : Shape) → All (λ e. P e.0) (contents s) → AllKeys P s
unfolding contents
keys_All P leaf a = tt
keys_All P (fork l k v r) a =
    let (b, c) = All-split (λ e. P e.0) (contents l) ((k, v) ∷ contents r) a in
    (c.0, keys_All P l b, keys_All P r c.1)

pub contents-IsOrdered : (s : Shape) → IsAscending (contents s) → IsOrdered s
unfolding contents
contents-IsOrdered leaf a = tt
contents-IsOrdered (fork l k v r) a =
    let (al, below, above, ar) = IsAscending-middle (contents l) (k, v) (contents r) a in
    (
      keys_All (λ x. cmp x k ≡ lt) l below,
      keys_All (λ x. cmp k x ≡ lt) r above,
      contents-IsOrdered l al,
      contents-IsOrdered r ar,
    )

pub key_of : (P : Bytes → Type 0) (s : Shape) (q : Bytes) → AllKeys P s → HasKey s q → P q
key_of P leaf q a found = absurd found
key_of P (fork l k v r) q (p, al, ar) (inl same) = rw same p
key_of P (fork l k v r) q (p, al, ar) (inr (inl below)) = key_of P l q al below
key_of P (fork l k v r) q (p, al, ar) (inr (inr below)) = key_of P r q ar below

not_lower : (q : Bytes) → ¬ (cmp q q ≡ lt)
not_lower q low = cc (rw (cmp_refl q) at low)

module _ ⦃h : Hasher⦄ ⦃e : Ed⦄ where
  pub row-HasKey : (s : Shape) (q bytes : Bytes) → IsRow s q bytes → HasKey s q
  row-HasKey leaf q bytes row = absurd row
  row-HasKey (fork l k v r) q bytes (inl (same, decoded)) = inl same
  row-HasKey (fork l k v r) q bytes (inr (inl row)) = inr (inl (row-HasKey l q bytes row))
  row-HasKey (fork l k v r) q bytes (inr (inr row)) = inr (inr (row-HasKey r q bytes row))

  -- The row of a node, and of its sides, among those of an ordered shape.
  own_row :
      (l r : Shape) (k v bytes : Bytes)
      → IsOrdered (fork l k v r)
      → IsRow (fork l k v r) k bytes
      → decode k bytes ≡ ok (node (reference_to l) (reference_to r) (pair k v))
  own_row l r k v bytes ordered (inl (same, decoded)) = decoded
  own_row l r k v bytes (below, above, ol, or) (inr (inl row)) =
      absurd (not_lower k (key_of (λ x. cmp x k ≡ lt) l k below (row-HasKey l k bytes row)))
  own_row l r k v bytes (below, above, ol, or) (inr (inr row)) =
      absurd (not_lower k (key_of (λ x. cmp k x ≡ lt) r k above (row-HasKey r k bytes row)))

  left-IsRow :
      (l r : Shape) (k v q bytes : Bytes)
      → IsOrdered (fork l k v r)
      → HasKey l q
      → IsRow (fork l k v r) q bytes
      → IsRow l q bytes
  left-IsRow l r k v q bytes (below, above, ol, or) found (inl (same, decoded)) =
      absurd (not_lower k (rw same at (key_of (λ x. cmp x k ≡ lt) l q below found)))
  left-IsRow l r k v q bytes ordered found (inr (inl row)) = row
  left-IsRow l r k v q bytes (below, above, ol, or) found (inr (inr row)) = absurd (
      not_lower q (
        cmp_trans q k q (key_of (λ x. cmp x k ≡ lt) l q below found)
          (key_of (λ x. cmp k x ≡ lt) r q above (row-HasKey r q bytes row))))

  right-IsRow :
      (l r : Shape) (k v q bytes : Bytes)
      → IsOrdered (fork l k v r)
      → HasKey r q
      → IsRow (fork l k v r) q bytes
      → IsRow r q bytes
  right-IsRow l r k v q bytes (below, above, ol, or) found (inl (same, decoded)) =
      absurd (not_lower k (rw same at (key_of (λ x. cmp k x ≡ lt) r q above found)))
  right-IsRow l r k v q bytes (below, above, ol, or) found (inr (inl row)) = absurd (
      not_lower q (
        cmp_trans q k q (key_of (λ x. cmp x k ≡ lt) l q below (row-HasKey l q bytes row))
          (key_of (λ x. cmp k x ≡ lt) r q above found)))
  right-IsRow l r k v q bytes ordered found (inr (inr row)) = row

  pub rows-IsStored :
      (now : Db) (s : Shape)
      → IsOrdered s
      → ((q : Bytes) → HasKey s q → HasRow now s q)
      → IsStored (source now) s
  rows-IsStored now leaf ordered rows = tt
  rows-IsStored now (fork l k v r) ordered rows =
      let (bytes, found, row) = rows k (inl refl) in
      (
        source_found now (root_hash (fork l k v r)) (height l, height r) k bytes _ found
            (own_row l r k v bytes ordered row),
        rows-IsStored now l ordered.2 (λ q there.
            let (b, f, x) = rows q (inr (inl there)) in
            (b, f, left-IsRow l r k v q b ordered there x)),
        rows-IsStored now r ordered.3 (λ q there.
            let (b, f, x) = rows q (inr (inr there)) in
            (b, f, right-IsRow l r k v q b ordered there x)),
      )
