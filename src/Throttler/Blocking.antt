-- ===== src/Throttler/Blocking.antt =====
-- A block in force, and how it can be lost.
use apicenter_hehe.Common.{
  ◌+◌, ◌-◌, ◌≤◌, ◌<◌, String, ◌≡◌, true, false, some, arith, eq_refl, lt→ltb, le→leb,
  leb-false_of_lt,
}
use apicenter_hehe.Common.Int.{pos}
use apicenter_hehe.Common.Dict.{lookup, remove, lookup-remove}
use apicenter_hehe.Throttler.{Bucket, MemoryStore, Call, memory_increment}

module _ (key : String) (b : Bucket) (store : MemoryStore) (there : lookup key store ≡ some b) where
  -- Until its bucket runs out, a blocked key is told that it is blocked, one hit over its limit and
  -- for the time that is left, and the store stays as it is.
  stays_blocked :
      (c : Call)
      → c.now < b.blocked_until
      → c.now < b.expires_at
      → memory_increment key c store ≡ (
        record {
          total_hits = c.limit + 1;
          time_to_expire = pos (b.blocked_until - c.now);
          is_blocked = true;
          time_to_block_expire = b.blocked_until - c.now;
        },
        store,
      )
  unfolding memory_increment
  stays_blocked c blocked runs = rw (there, lt→ltb _ _ blocked, leb-false_of_lt _ _ runs)

  forgets :
      (c : Call)
      → c.now < b.blocked_until
      → b.expires_at ≤ c.now
      → ((memory_increment key c store).0.is_blocked ≡ true)
        × ((memory_increment key c store).1 ≡ remove key store)
  unfolding memory_increment
  forgets c blocked expired =
      (rw (there, lt→ltb _ _ blocked), rw (there, lt→ltb _ _ blocked, le→leb _ _ expired))

  starts_anew :
      (c : Call) → 0 < c.limit → (memory_increment key c (remove key store)).0.is_blocked ≡ false
  unfolding memory_increment
  starts_anew c h = ground (arith, lookup-remove key key store, eq_refl key)

  -- A block that outlasts the window of its bucket is lost: once the bucket has run out, the next
  -- call is told of the block and deletes it, and the call after that passes, however long the
  -- block had still to go.
  pub block_is_lost :
      (c c' : Call)
      → c.now < b.blocked_until
      → b.expires_at ≤ c.now
      → 0 < c'.limit
      → ((memory_increment key c store).0.is_blocked ≡ true)
        × ((memory_increment key c' (memory_increment key c store).1).0.is_blocked ≡ false)
  block_is_lost c c' blocked expired some_allowed =
      let (told, deleted) = forgets c blocked expired in
      (told, rw deleted (starts_anew c' some_allowed))
