-- ===== src/Merk/Apply/Database.antt =====
-- What RocksDB promises of reads and writes, and what the writes of `Merk::commit` (src/merk/mod.rs)
-- leave under a key.
use liftedmerk.Base.{
  ◌≡◌, ◌⊎◌, ◌∷◌, ◌++◌, [], refl, sym, List, Bytes, Bool, true, false, ◌&&◌, Option, none, some, ok,
  All, map, inl, inr, cmp, is_eq, cmp-cases, eq_of_cmp, if◌then◌else◌,
}
use mathlib.Core.Path.{subst}
use liftedmerk.Tree.Ops as Ops
use liftedmerk.Tree.Ops.Update.Gone.{not_lower_self, not_higher_self}
use liftedmerk.Tree.Ops.{Batch}
use liftedmerk.Merk.Apply.{
  Family, default, aux_family, internal_family, Write, put_cf, delete_cf, Rocks, Change,
  insert_sorted, sort, change_write, aux_write,
}
use liftedmerk.Merk.Apply.Rows.{Changes}

abbrev pub same_family : Family → Family → Bool
same_family default default = true
same_family aux_family aux_family = true
same_family internal_family internal_family = true
same_family f g = false

abbrev pub is_at : Family → Bytes → Family → Bytes → Bool
is_at f k g q = same_family f g && is_eq (cmp k q)

-- The value under a key after a batch of writes: the last write to it counts.
abbrev pub last_write : Option Bytes → Family → Bytes → List Write → Option Bytes
last_write old f k [] = old
last_write old f k (put_cf g q v ∷ ws) = last_write (if is_at f k g q then some v else old) f k ws
last_write old f k (delete_cf g q ∷ ws) = last_write (if is_at f k g q then none else old) f k ws

-- Reads and writes succeed, and a read gives what was written last.
pub record IsReliable {D : Type 0} (rocks : Rocks D) : Type 0 where
  pub reads : (db : D) (f : Family) (k : Bytes) → (o : Option Bytes) × (rocks.get_cf db f k ≡ ok o)
  pub writes : (db : D) (ws : List Write) → (db' : D) × (rocks.write_opt db ws ≡ ok db')
  pub reads_back :
      (db db' : D) (ws : List Write) (f : Family) (k : Bytes) (o : Option Bytes)
      → rocks.write_opt db ws ≡ ok db'
      → rocks.get_cf db f k ≡ ok o
      → rocks.get_cf db' f k ≡ ok (last_write o f k ws)

pub last_write-append :
    (f : Family) (k : Bytes) (ws vs : List Write) (old : Option Bytes)
    → last_write old f k (ws ++ vs) ≡ last_write (last_write old f k ws) f k vs
last_write-append f k [] vs old = refl
last_write-append f k (put_cf g q v ∷ ws) vs old = last_write-append f k ws vs _
last_write-append f k (delete_cf g q ∷ ws) vs old = last_write-append f k ws vs _

pub last_write-aux :
    (old : Option Bytes) (k : Bytes) (aux : Batch)
    → last_write old default k (map aux_write aux) ≡ old
last_write-aux old k [] = refl
last_write-aux old k ((q, Ops.put v) ∷ aux) = last_write-aux old k aux
last_write-aux old k ((q, Ops.delete) ∷ aux) = last_write-aux old k aux

pub root_aux :
    (old : Option Bytes) (k : Bytes) (aux : Batch)
    → last_write old internal_family k (map aux_write aux) ≡ old
root_aux old k [] = refl
root_aux old k ((q, Ops.put v) ∷ aux) = root_aux old k aux
root_aux old k ((q, Ops.delete) ∷ aux) = root_aux old k aux

pub root_changes :
    (old : Option Bytes) (k : Bytes) (cs : List Change)
    → last_write old internal_family k (map change_write cs) ≡ old
root_changes old k [] = refl
root_changes old k ((q, some v) ∷ cs) = root_changes old k cs
root_changes old k ((q, none) ∷ cs) = root_changes old k cs

insert_sorted-cases :
    (c d : Change) (ds : List Change)
    → (insert_sorted c (d ∷ ds) ≡ c ∷ d ∷ ds) ⊎ (insert_sorted c (d ∷ ds) ≡ d ∷ insert_sorted c ds)
unfolding insert_sorted
insert_sorted-cases c d ds = elim (cmp-cases c.0 d.0) [
  | inl low ↦ inl (rw (low, insert_sorted) refl)
  | inr (inl same) ↦ inl (rw (same, insert_sorted) refl)
  | inr (inr high) ↦ inr (rw (high, insert_sorted) refl)
]

insert_sorted-All :
    (P : Change → Type 0) (c : Change) (cs : List Change)
    → P c
    → All P cs
    → All P (insert_sorted c cs)
unfolding insert_sorted
insert_sorted-All P c [] p a = (p, tt)
insert_sorted-All P c (d ∷ ds) p (pd, a) = elim (insert_sorted-cases c d ds) [
  | inl first ↦ subst (All P) (sym first) (p, (pd, a))
  | inr later ↦ subst (All P) (sym later) (pd, insert_sorted-All P c ds p a)
]

pub sort-All : (P : Change → Type 0) (cs : List Change) → All P cs → All P (sort cs)
unfolding sort
sort-All P [] a = tt
sort-All P (c ∷ cs) (p, a) = insert_sorted-All P c (sort cs) p (sort-All P cs a)

swapped :
    (c d : Change) (ds ds' : List Change) (q : Bytes)
    → (Changes (c ∷ ds) q → Changes ds' q)
    → Changes (c ∷ d ∷ ds) q
    → Changes (d ∷ ds') q
swapped c d ds ds' q f (inl here) = inr (f (inl here))
swapped c d ds ds' q f (inr (inl next)) = inl next
swapped c d ds ds' q f (inr (inr later)) = inr (f (inr later))

insert_sorted-Changes :
    (c : Change) (cs : List Change) (q : Bytes)
    → Changes (c ∷ cs) q
    → Changes (insert_sorted c cs) q
unfolding insert_sorted
insert_sorted-Changes c [] q a = a
insert_sorted-Changes c (d ∷ ds) q a = elim (insert_sorted-cases c d ds) [
  | inl first ↦ subst (λ x. Changes x q) (sym first) a
  | inr later ↦
      subst (λ x. Changes x q) (sym later)
        (swapped c d ds (insert_sorted c ds) q (insert_sorted-Changes c ds q) a)
]

pub sort-Changes : (cs : List Change) (q : Bytes) → Changes cs q → Changes (sort cs) q
unfolding sort
sort-Changes (c ∷ cs) q (inl here) = insert_sorted-Changes c (sort cs) q (inl here)
sort-Changes (c ∷ cs) q (inr later) =
    insert_sorted-Changes c (sort cs) q (inr (sort-Changes cs q later))
sort-Changes [] q a = a

-- Changes of another key.
other_change :
    {Rest : Type 0} (q : Bytes) (c : Change) (cs : List Change)
    → ¬ (q ≡ c.0)
    → Changes (c ∷ cs) q ⊎ Rest
    → Changes cs q ⊎ Rest
other_change q c cs differ (inl (inl same)) = absurd (differ same)
other_change q c cs differ (inl (inr later)) = inl later
other_change q c cs differ (inr rest) = inr rest

-- The value under a key after changes that set it to good values only, if it is good or is changed.
pub last_write_good :
    (Good : Option Bytes → Type 0) (q : Bytes) (cs : List Change) (old : Option Bytes)
    → All (λ c. q ≡ c.0 → Good c.1) cs
    → Changes cs q ⊎ Good old
    → Good (last_write old default q (map change_write cs))
last_write_good Good q [] old a (inl none_there) = absurd none_there
last_write_good Good q [] old a (inr good) = good
last_write_good Good q ((k, none) ∷ cs) old (g, a) found = elim (cmp-cases q k) [
  | inl low ↦
      rw low (
        last_write_good Good q cs old a
          (other_change q (k, none) cs (not_lower_self q k low) found))
  | inr (inl same) ↦ rw same (last_write_good Good q cs none a (inr (g (eq_of_cmp q k same))))
  | inr (inr high) ↦ rw high (
      last_write_good Good q cs old a
        (other_change q (k, none) cs (not_higher_self q k high) found))
]
last_write_good Good q ((k, some v) ∷ cs) old (g, a) found = elim (cmp-cases q k) [
  | inl low ↦ rw low (
      last_write_good Good q cs old a
        (other_change q (k, some v) cs (not_lower_self q k low) found))
  | inr (inl same) ↦ rw same (last_write_good Good q cs (some v) a (inr (g (eq_of_cmp q k same))))
  | inr (inr high) ↦ rw high (
      last_write_good Good q cs old a
        (other_change q (k, some v) cs (not_higher_self q k high) found))
]

module _ (P : Bytes → Type 0) (q : Bytes) where
  abbrev pub IsGood : Option Bytes → Type 0
  IsGood o = (bytes : Bytes) × (o ≡ some bytes) × P bytes

  -- Changes of the key leave good values.
  abbrev pub GoodChange : Change → Type 0
  GoodChange c = q ≡ c.0 → IsGood c.1
