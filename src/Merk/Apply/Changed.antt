-- ===== src/Merk/Apply/Changed.antt =====
-- What the writes of `Merk::commit` (src/merk/mod.rs) leave under the key of a node, and under the
-- root's key.
use liftedmerk.Base.{
  ◌≡◌, ◌⊎◌, ◌∷◌, ◌++◌, [], ◌∙◌, ap, List, Bytes, Option, none, All, map, inl, inr,
}
use liftedmerk.Ed.{Ed}
use liftedmerk.Tree.Hash.{Hasher}
use liftedmerk.Tree.Shape.{Shape}
use liftedmerk.Tree.Ops.{Batch}
use liftedmerk.Tree.Ops.Update.Split.{All-append}
use liftedmerk.Tree.Search.Sorted.{All-imp}
use liftedmerk.Merk.Apply.{
  default, internal_family, Write, root_key_key, Change, sort, change_write, aux_write, writes,
}
use liftedmerk.Merk.Apply.Rows.{HasKey, Changes, Changes-append, IsRow, RowChange}
use liftedmerk.Merk.Apply.Database.{
  last_write, last_write-append, last_write-aux, root_aux, root_changes, sort-All, sort-Changes,
  GoodChange, IsGood, last_write_good,
}

abbrev pub all_changes : List Change → List Bytes → List Change
all_changes changes deleted = sort (changes ++ map (λ key. (key, none)) deleted)

module _ ⦃h : Hasher⦄ ⦃e : Ed⦄ where
  IsRow-GoodChange :
      (s : Shape) (q : Bytes) (c : Change) → RowChange s c → GoodChange (IsRow s q) q c
  IsRow-GoodChange s q c (bytes, is_some, row) same = (bytes, is_some, rw (← same) at row)

  deleted_GoodChange :
      (s : Shape) (q : Bytes) (deleted : List Bytes)
      → HasKey s q
      → All (λ k. ¬ HasKey s k) deleted
      → All (GoodChange (IsRow s q) q) (map (λ key. (key, none)) deleted)
  deleted_GoodChange s q [] found gone = tt
  deleted_GoodChange s q (k ∷ deleted) found (not_there, gone) =
      (λ same. absurd (not_there (rw same at found)), deleted_GoodChange s q deleted found gone)

  pub Changes-IsGood :
      (s : Shape) (q : Bytes) (changes : List Change) (deleted : List Bytes) (old : Option Bytes)
      → HasKey s q
      → All (RowChange s) changes
      → All (λ k. ¬ HasKey s k) deleted
      → Changes changes q ⊎ IsGood (IsRow s q) q old
      → IsGood
          (IsRow s q)
          q
          (last_write old default q (map change_write (all_changes changes deleted)))
  Changes-IsGood s q changes deleted old found rows gone covered =
      last_write_good (IsGood (IsRow s q) q) q (all_changes changes deleted) old
        (sort-All (GoodChange (IsRow s q) q) (changes ++ map (λ key. (key, none)) deleted) (
          All-append (GoodChange (IsRow s q) q) changes (map (λ key. (key, none)) deleted)
            (All-imp (RowChange s) (GoodChange (IsRow s q) q) (IsRow-GoodChange s q) changes rows)
            (deleted_GoodChange s q deleted found gone)))
        (sorted_changes covered)
    where
      sorted_changes :
          Changes changes q ⊎ IsGood (IsRow s q) q old
          → Changes (all_changes changes deleted) q ⊎ IsGood (IsRow s q) q old
      sorted_changes (inl changed) = inl (
          sort-Changes (changes ++ map (λ key. (key, none)) deleted) q
            (Changes-append changes _ q (inl changed)))
      sorted_changes (inr good) = inr good

-- The default family after the writes of `commit`, and the root's key.
pub writes_default :
    (w : Write) (changes : List Change) (deleted : List Bytes) (aux : Batch) (old : Option Bytes)
    (q : Bytes)
    → last_write old default q (w ∷ []) ≡ old
    → last_write old default q (writes w changes deleted aux)
      ≡ last_write old default q (map change_write (all_changes changes deleted))
unfolding writes
writes_default w changes deleted aux old q skipped =
    last_write-append default q (w ∷ map change_write (all_changes changes deleted))
      (map aux_write aux) old
    ∙ last_write-aux (last_write old default q (w ∷ map change_write (all_changes changes deleted)))
        q aux
    ∙ last_write-append default q (w ∷ []) (map change_write (all_changes changes deleted)) old
    ∙ ap (λ o. last_write o default q (map change_write (all_changes changes deleted))) skipped

pub writes_root :
    (w : Write) (changes : List Change) (deleted : List Bytes) (aux : Batch) (old : Option Bytes)
    → last_write old internal_family root_key_key (writes w changes deleted aux)
      ≡ last_write old internal_family root_key_key (w ∷ [])
unfolding writes
writes_root w changes deleted aux old =
    last_write-append internal_family root_key_key
      (w ∷ map change_write (all_changes changes deleted)) (map aux_write aux) old
    ∙ root_aux
        (last_write old internal_family root_key_key
          (w ∷ map change_write (all_changes changes deleted)))
        root_key_key aux
    ∙ last_write-append internal_family root_key_key (w ∷ [])
        (map change_write (all_changes changes deleted)) old
    ∙ root_changes (last_write old internal_family root_key_key (w ∷ [])) root_key_key
        (all_changes changes deleted)
