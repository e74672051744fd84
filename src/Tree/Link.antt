-- ===== src/Tree/Link.antt =====
-- The methods of `Link` (src/tree/link.rs) that look at a link alone. Arithmetic on `u8` and `i8`
-- wraps, as in a release build; an `i8` is its bit pattern below 256.
use liftedmerk.Base.{
  ℕ, ◌+◌, ◌-◌, ◌%◌, max, Bytes, Bool, true, false, Option, none, some, Result, ok, panic,
}
use liftedmerk.Tree.Hash.{Hash}
use liftedmerk.Tree.Types.{Tree, node, Link, reference, modified, uncommitted, loaded}

-- `right as i8 - left as i8`
abbrev pub sub_i8 : ℕ → ℕ → ℕ
sub_i8 a b = (a + 256 - b) % 256

-- `Tree::key`
unfoldable pub tree_key : Tree → Bytes
tree_key (node l r kv) = kv.key

unfoldable pub is_reference : Link → Bool
is_reference (reference h c k) = true
is_reference _ = false

unfoldable pub is_modified : Link → Bool
is_modified (modified p c t) = true
is_modified _ = false

unfoldable pub is_uncommitted : Link → Bool
is_uncommitted (uncommitted h c t) = true
is_uncommitted _ = false

unfoldable pub is_stored : Link → Bool
is_stored (loaded h c t) = true
is_stored _ = false

unfoldable pub key : Link → Bytes
unfolding tree_key
key (reference h c k) = k
key (modified p c t) = tree_key t
key (uncommitted h c t) = tree_key t
key (loaded h c t) = tree_key t

unfoldable pub tree : Link → Option Tree
tree (reference h c k) = none
tree (modified p c t) = some t
tree (uncommitted h c t) = some t
tree (loaded h c t) = some t

-- Panics on a modified link, whose hash is not computed yet.
unfoldable pub hash : Link → Result Hash
hash (modified p c t) = panic
hash (reference h c k) = ok h
hash (uncommitted h c t) = ok h
hash (loaded h c t) = ok h

unfoldable pub child_heights : Link → ℕ × ℕ
child_heights (reference h c k) = c
child_heights (modified p c t) = c
child_heights (uncommitted h c t) = c
child_heights (loaded h c t) = c

-- What `child_heights_mut` lets a caller write.
unfoldable pub set_child_heights : Link → ℕ × ℕ → Link
set_child_heights (reference h c k) c' = reference h c' k
set_child_heights (modified p c t) c' = modified p c' t
set_child_heights (uncommitted h c t) c' = uncommitted h c' t
set_child_heights (loaded h c t) c' = loaded h c' t

unfoldable pub height : Link → ℕ
unfolding child_heights
height link = (1 + max (child_heights link).0 (child_heights link).1) % 256

unfoldable pub balance_factor : Link → ℕ
unfolding child_heights
balance_factor link = sub_i8 (child_heights link).1 (child_heights link).0

unfoldable pub into_reference : Link → Result Link
unfolding tree_key
into_reference (reference h c k) = ok (reference h c k)
into_reference (modified p c t) = panic
into_reference (uncommitted h c t) = panic
into_reference (loaded h c t) = ok (reference h c (tree_key t))

unfoldable pub default_reference : Link
default_reference = reference liftedmerk.Tree.Hash.null_hash (0, 0) liftedmerk.Base.[]
