-- ===== src/Throttler/Redis.antt =====
-- shared/redis-throttler-storage.ts: `redisIncrement`, and `increment`, which chooses the store.
-- The server is a parameter: its state and the four commands that the code sends. The commands of
-- one call are taken to run at one time, in milliseconds, and to be answered.
pub mod Step
pub mod Window
use Prim.Native.String
use apicenter_hehe.Common.{
  ℕ, ◌+◌, ◌*◌, ◌/◌, ◌<◌, ◌≤◌, String, ◌≡◌, Bool, true, false, ◌&&◌, Option, none, some, ltb, leb,
  if◌then◌else◌, nat_beq, ◌==◌,
}
use apicenter_hehe.Common.Int.{ℤ, pos, negsuc, is_positive, thousands}
use apicenter_hehe.Throttler.{ThrottlerStorageRecord, MemoryStore, Call, memory_increment}

-- What Redis holds under a key: a number, and the time from which the key is gone, if there is one.
pub record Stored : Type 0 where
  pub count : ℕ
  pub deadline : Option ℕ

pub record RedisServer : Type 1 where
  pub State : Type 0
  pub stored : State → String → Option Stored
  pub ttl : ℕ → String → State → ℤ
  pub incr : ℕ → String → State → ℕ × State
  pub expire : ℕ → String → ℕ → State → State
  pub setex : ℕ → String → ℕ → State → State

abbrev pub gone : ℕ → Option ℕ → Bool
gone now none = false
gone now (some d) = leb d now

-- What is left of a key at a time.
abbrev pub live : ℕ → Option Stored → Option Stored
live now none = none
live now (some e) = if gone now e.deadline then none else some e

-- The number under a key that is not there counts as 0.
abbrev pub bump : Option Stored → Stored
bump none = record { count = 1; deadline = none }
bump (some e) = record e { count = e.count + 1 }

abbrev pub with_deadline : ℕ → Option Stored → Option Stored
with_deadline d none = none
with_deadline d (some e) = some (record e { deadline = some d })

-- The documented behaviour of the commands that the guarantee rests on. `TTL` answers -2 where there
-- is no key; what it answers otherwise the code only passes on.
pub record IsRedis (R : RedisServer) : Type 0 where
  pub ttl-missing :
      (now : ℕ) (k : String) (s : R.State) → R.stored s k ≡ none → R.ttl now k s ≡ negsuc 1
  pub incr-answer :
      (now : ℕ) (k : String) (s : R.State)
      → (R.incr now k s).0 ≡ (bump (live now (R.stored s k))).count
  pub incr-stored :
      (now : ℕ) (k j : String) (s : R.State)
      → R.stored (R.incr now k s).1 j
        ≡ (if k == j then some (bump (live now (R.stored s k))) else R.stored s j)
  pub expire-stored :
      (now : ℕ) (k j : String) (sec : ℕ) (s : R.State)
      → R.stored (R.expire now k sec s) j ≡ (
          if k == j
          then with_deadline (now + sec * 1000) (live now (R.stored s k))
          else R.stored s j)
  pub setex-others :
      (now : ℕ) (k j : String) (sec : ℕ) (s : R.State)
      → (k == j) ≡ false
      → R.stored (R.setex now k sec s) j ≡ R.stored s j

unfoldable pub hits_key : String → String
hits_key key = String.◌++◌ "throttle:" (String.◌++◌ key ":hits")

unfoldable pub block_key : String → String
block_key key = String.◌++◌ "throttle:" (String.◌++◌ key ":block")

-- `Math.ceil(ms / 1000)`
abbrev pub seconds : ℕ → ℕ
seconds ms = (ms + 999) / 1000

-- The reply as a number, where it is known to be positive.
abbrev size : ℤ → ℕ
size (pos n) = n
size (negsuc n) = 0

module _ (R : RedisServer) where
  abbrev blocked_for : ℤ → Call → R.State → ThrottlerStorageRecord × R.State
  blocked_for block_ttl c s = (
    record {
      total_hits = c.limit + 1;
      time_to_expire = thousands block_ttl;
      is_blocked = true;
      time_to_block_expire = size block_ttl * 1000;
    },
    s,
  )

  -- From `remainingTtl` on.
  abbrev judge : String → ℕ → Call → R.State → ThrottlerStorageRecord × R.State
  judge key hits c s =
      let remaining_ttl = R.ttl c.now (hits_key key) s in
      if ltb c.limit hits && ltb 0 c.block_duration
      then (
        record {
          total_hits = hits;
          time_to_expire = thousands remaining_ttl;
          is_blocked = true;
          time_to_block_expire = c.block_duration;
        },
        R.setex c.now (block_key key) (seconds c.block_duration) s,
      )
      else (
        record {
          total_hits = hits;
          time_to_expire = thousands remaining_ttl;
          is_blocked = false;
          time_to_block_expire = 0;
        },
        s,
      )

  abbrev count_hit : String → Call → R.State → ThrottlerStorageRecord × R.State
  count_hit key c s =
      let (hits, s') = R.incr c.now (hits_key key) s in
      judge key hits c
        (if nat_beq hits 1 then R.expire c.now (hits_key key) (seconds c.ttl) s' else s')

  unfoldable pub redis_increment : String → Call → R.State → ThrottlerStorageRecord × R.State
  redis_increment key c s =
      let block_ttl = R.ttl c.now (block_key key) s in
      if is_positive block_ttl then blocked_for block_ttl c s else count_hit key c s

  -- The state of `RedisThrottlerStorage`: whether Redis is there, and the two stores.
  pub record Storage : Type 0 where
    pub connected : Bool
    pub redis : R.State
    pub memory : MemoryStore

  -- `onModuleInit`: the client is dropped where the first connection fails.
  unfoldable pub on_module_init : Bool → Storage → Storage
  on_module_init reachable st = record st { connected = reachable }

  unfoldable pub increment : String → Call → Storage → ThrottlerStorageRecord × Storage
  increment key c st =
      let (by_redis, redis') = redis_increment key c st.redis in
      let (by_memory, memory') = memory_increment key c st.memory in
      if st.connected
      then (by_redis, record st { redis = redis' })
      else (by_memory, record st { memory = memory' })
