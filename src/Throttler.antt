-- ===== src/Throttler.antt =====
-- shared/redis-throttler-storage.ts: the fallback in memory of `RedisThrottlerStorage` (the child
-- Redis has the variant in Redis and the choice between the two), and the
-- choice of the bucket in shared/guards/tribe-throttler.guard.ts. Times and durations are in
-- milliseconds; `now` is `Date.now()`.
pub mod Window
pub mod Blocking
pub mod Redis
pub mod Evasion
use apicenter_hehe.Common.{
  ℕ, ◌+◌, ◌-◌, String, Bool, true, false, ◌&&◌, Option, none, some, List, [], ◌∷◌, ltb, leb,
  if◌then◌else◌, truthy?, get_or,
}
use apicenter_hehe.Common.Int.{ℤ, pos}
use apicenter_hehe.Common.Dict.{Dict, lookup, insert, remove}

pub record ThrottlerStorageRecord : Type 0 where
  pub total_hits : ℕ
  pub time_to_expire : ℤ
  pub is_blocked : Bool
  pub time_to_block_expire : ℕ

pub record Bucket : Type 0 where
  pub hits : ℕ
  pub expires_at : ℕ
  pub blocked_until : ℕ

abbrev pub MemoryStore : Type 0
MemoryStore = Dict Bucket

abbrev pub Answer : Type 0
Answer = ThrottlerStorageRecord × MemoryStore

-- The arguments of one call: the time, and the limits of the throttler.
pub record Call : Type 0 where
  pub now : ℕ
  pub ttl : ℕ
  pub limit : ℕ
  pub block_duration : ℕ

abbrev pub new_bucket : Call → Bucket
new_bucket c = record { hits = 0; expires_at = c.now + c.ttl; blocked_until = 0 }

abbrev bucket_or_new : Option Bucket → Call → Bucket
bucket_or_new none c = new_bucket c
bucket_or_new (some b) c = b

-- `entry.hits++`, then the test of the limit. `expires_at` lies after `now` here.
abbrev hit : Bucket → String → Call → MemoryStore → Answer
hit b key c store =
    let counted = record b { hits = b.hits + 1 } in
    if ltb c.limit counted.hits && ltb 0 c.block_duration
    then (
      record {
        total_hits = counted.hits;
        time_to_expire = pos (counted.expires_at - c.now);
        is_blocked = true;
        time_to_block_expire = c.block_duration;
      },
      insert key (record counted { blocked_until = c.now + c.block_duration }) store,
    )
    else (
      record {
        total_hits = counted.hits;
        time_to_expire = pos (counted.expires_at - c.now);
        is_blocked = false;
        time_to_block_expire = 0;
      },
      insert key counted store,
    )

-- The variable `existing` still holds the bucket when it has just been deleted from the store.
abbrev seen : Option Bucket → String → Call → MemoryStore → Answer
seen none key c store = hit (new_bucket c) key c store
seen (some existing) key c store =
    let store' = if leb existing.expires_at c.now then remove key store else store in
    if ltb c.now existing.blocked_until
    then (
      record {
        total_hits = c.limit + 1;
        time_to_expire = pos (existing.blocked_until - c.now);
        is_blocked = true;
        time_to_block_expire = existing.blocked_until - c.now;
      },
      store',
    )
    else hit (bucket_or_new (lookup key store') c) key c store'

unfoldable pub memory_increment : String → Call → MemoryStore → Answer
memory_increment key c store = seen (lookup key store) key c store

-- `getTracker`: the header `x-tribe-id`, then the claim, then the address. Each is a text or absent.
unfoldable pub get_tracker :
    (header_tribe_id user_tribe_id ip remote_address : Option String) → String
get_tracker header user ip remote =
    if truthy? header
    then get_or header ""
    else if truthy? user
    then get_or user ""
    else get_or ip (get_or remote "unknown")
