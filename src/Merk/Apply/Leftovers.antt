-- ===== src/Merk/Apply/Leftovers.antt =====
-- What `Merk::commit` (src/merk/mod.rs) deletes from the database.
use liftedmerk.Base.{
  ◌≡◌, ◌⊎◌, ◌∷◌, ◌++◌, [], ◌∙◌, refl, sym, ap, List, Bytes, Option, none, ok, All, map, inl, inr,
}
use liftedmerk.Ed.{Ed}
use liftedmerk.Tree.Hash.{Hasher}
use liftedmerk.Tree.Shape.{Shape}
use liftedmerk.Tree.Ops.{Batch}
use liftedmerk.Tree.Ops.Update.Split.{All-append}
use liftedmerk.Tree.Ops.Apply.Removed.{IsAmong}
use liftedmerk.Tree.Search.Sorted.{All-imp}
use liftedmerk.Merk.Apply.{default, Write, Rocks, Change, main, writes}
use liftedmerk.Merk.Apply.Rows.{HasKey, Changes, Changes-append, RowChange}
use liftedmerk.Merk.Apply.Database.{IsReliable, last_write, last_write_good, sort-All, sort-Changes}
use liftedmerk.Merk.Apply.Durable.{row-HasKey}
use liftedmerk.Merk.Apply.Changed.{all_changes, writes_default}

abbrev IsDeletion : Bytes → Change → Type 0
IsDeletion q c = q ≡ c.0 → c.1 ≡ none

deletions :
    (q : Bytes) (deleted : List Bytes) → All (IsDeletion q) (map (λ key. (key, none)) deleted)
deletions q [] = tt
deletions q (k ∷ deleted) = (λ same. refl, deletions q deleted)

deleted-Changes :
    (deleted : List Bytes) (q : Bytes)
    → IsAmong deleted q
    → Changes (map (λ key. (key, none)) deleted) q
deleted-Changes [] q among = among
deleted-Changes (k ∷ deleted) q (inl same) = inl same
deleted-Changes (k ∷ deleted) q (inr later) = inr (deleted-Changes deleted q later)

module _ ⦃h : Hasher⦄ ⦃e : Ed⦄ where
  other_key : (s : Shape) (q : Bytes) → ¬ HasKey s q → (c : Change) → RowChange s c → IsDeletion q c
  other_key s q missing c (bytes, is_some, row) same =
      absurd (missing (rw (sym same) at (row-HasKey s c.0 bytes row)))

  module _ {D : Type 0} (rocks : Rocks D) (reliable : IsReliable rocks) where
    -- A key that the shape does not have is gone, if it was deleted or not there.
    pub rows_gone :
        (s : Shape) (db db' : D) (w : Write) (changes : List Change) (deleted : List Bytes)
        (aux : Batch)
        → ((old : Option Bytes) (q : Bytes) → last_write old default q (w ∷ []) ≡ old)
        → rocks.write_opt db (writes w changes deleted aux) ≡ ok db'
        → All (RowChange s) changes
        → (q : Bytes) → ¬ HasKey s q
        → IsAmong deleted q ⊎ (main rocks db q ≡ ok none)
        → main rocks db' q ≡ ok none
    rows_gone s db db' w changes deleted aux skipped wrote rows q missing gone =
        let (old, read) = reliable.reads db default q in
        reliable.reads_back db db' (writes w changes deleted aux) default q old wrote read
        ∙ ap ok (
            writes_default w changes deleted aux old q (skipped old q)
            ∙ last_write_good (λ o. o ≡ none) q (all_changes changes deleted) old
                (sort-All (IsDeletion q) (changes ++ map (λ key. (key, none)) deleted) (
                  All-append (IsDeletion q) changes (map (λ key. (key, none)) deleted)
                    (All-imp (RowChange s) (IsDeletion q) (other_key s q missing) changes rows)
                    (deletions q deleted)))
                (known gone old read))
      where
        known :
            IsAmong deleted q ⊎ (main rocks db q ≡ ok none)
            → (old : Option Bytes) → rocks.get_cf db default q ≡ ok old
            → Changes (all_changes changes deleted) q ⊎ (old ≡ none)
        known (inl among) old read = inl (
            sort-Changes (changes ++ map (λ key. (key, none)) deleted) q
              (Changes-append changes _ q (inr (deleted-Changes deleted q among))))
        known (inr absent) old read =
            let same : ok old ≡ ok none = sym read ∙ absent in inr (cc same)
