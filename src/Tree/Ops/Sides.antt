-- ===== src/Tree/Ops/Sides.antt =====
-- Parts of `apply_to` (src/tree/ops.rs): the source for trees in memory, new pairs, and the calls for
-- the two sides of a key.
use liftedmerk.Base.{ℕ, suc, ◌+◌, ◌*◌, ◌≡◌, ◌<◌, Bytes, Option, some, ok, All, length, max, arith}
use liftedmerk.Tree.Hash.{Hasher}
use liftedmerk.Tree.Types.{Tree, node, Slot, vacant, reference, modified, uncommitted, loaded}
use liftedmerk.Tree.Kv
use liftedmerk.Tree.Node
use liftedmerk.Tree.Walk.{Fetch}
use liftedmerk.Tree.Shape.{Shape, leaf, fork, height, kv_hash-kv_digest}
use liftedmerk.Tree.Ops.{Batch, panic_source}
use liftedmerk.Tree.Ops.Avl.{IsAvl}
use liftedmerk.Tree.Ops.Contents.{contents}
use liftedmerk.Tree.Ops.Holds.{pair, Holds, StandsMaybe}
use liftedmerk.Tree.Ops.Rebalance.{limit}
use liftedmerk.Tree.Ops.Update.{Entries, update}
use liftedmerk.Tree.Ops.Update.Cuts.{IsAscending}
use liftedmerk.Tree.Ops.Applied.{Fits, Ready}

module _ ⦃h : Hasher⦄ where
  -- The panicking source serves trees without references, which any other source serves as well.
  any_source :
      (fetch : Fetch) (s : Shape) (slot : Slot) → Holds panic_source s slot → Holds fetch s slot
  unfolding panic_source
  any_source fetch leaf slot held = held
  any_source fetch (fork l k v r) slot (reference x c q, sl, sr, e, got, fresh, hs, hl, hr) = cc got
  any_source fetch (fork l k v r) slot (modified p c t, sl, sr, e, got, fresh, hs, hl, hr) = (
    modified p c t,
    sl,
    sr,
    e,
    got,
    fresh,
    hs,
    any_source fetch l sl hl,
    any_source fetch r sr hr,
  )
  any_source fetch (fork l k v r) slot (uncommitted x c t, sl, sr, e, got, fresh, hs, hl, hr) =
      absurd got
  any_source fetch (fork l k v r) slot (loaded x c t, sl, sr, e, got, fresh, hs, hl, hr) =
      cc (fresh.1.0)

  pub any_source_maybe :
      (fetch : Fetch) (s : Shape) (o : Option Tree)
      → StandsMaybe panic_source s o
      → StandsMaybe fetch s o
  any_source_maybe fetch leaf o none_there = none_there
  any_source_maybe fetch (fork l k v r) o (sl, sr, e, hl, hr) =
      (sl, sr, e, any_source fetch l sl hl, any_source fetch r sr hr)

  pub new-pair :
      (k v : Bytes)
      → length k < 256
      → length v < 65536
      → Node.new k v ≡ ok (node vacant vacant (pair k v))
  unfolding Node.new Kv.new
  new-pair k v hk hv = rw (kv_hash-kv_digest k v hk hv)

  pub with_value-pair :
      (sl sr : Slot) (k v v2 : Bytes)
      → length k < 256
      → length v2 < 65536
      → Node.with_value (node sl sr (pair k v)) v2 ≡ ok (node sl sr (pair k v2))
  unfolding Node.with_value Kv.with_value
  with_value-pair sl sr k v v2 hk hv = rw (kv_hash-kv_digest k v2 hk hv)

  -- The calls for the two sides of a key, after one level of descent.
  pub Ready-sides :
      (bound : ℕ) (l r : Shape) (first second : Batch) (xs ys : Entries)
      → IsAvl l
      → IsAvl r
      → IsAscending (contents l)
      → IsAscending (contents r)
      → IsAscending first
      → IsAscending second
      → All Fits first
      → All Fits second
      → update first (contents l) ≡ some xs
      → update second (contents r) ≡ some ys
      → length (contents l) + length first + suc (length (contents r) + length second) < limit
      → suc (max (height l) (height r)) + 128 * (length first + length second) < suc bound
      → Ready bound l first xs × Ready bound r second ys
  Ready-sides bound l r first second xs ys al ar ol or1 a1 a2 f1 f2 u1 u2 few deep = (
    record {
      avl = al;
      ordered = ol;
      sorted = a1;
      fits = f1;
      updates = u1;
      few = omega arith;
      deep = omega arith;
    },
    record {
      avl = ar;
      ordered = or1;
      sorted = a2;
      fits = f2;
      updates = u2;
      few = omega arith;
      deep = omega arith;
    },
  )
