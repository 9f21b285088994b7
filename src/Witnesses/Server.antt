-- ===== src/Witnesses/Server.antt =====
-- A Redis in memory, and instances for the throttler with it.
use apicenter_hehe.Common.{
  ℕ, ◌+◌, ◌-◌, ◌*◌, ◌/◌, String, ◌≡◌, refl, ◌∙◌, true, false, Option, none, some, [], ◌∷◌, ◌==◌,
  arith, if◌then◌else◌,
}
use apicenter_hehe.Common.Dict.{Dict, lookup, insert, remove, lookup-insert, lookup-remove}
use apicenter_hehe.Common.Int.{ℤ, pos, negsuc}
use apicenter_hehe.Throttler.Redis.{
  Stored, RedisServer, IsRedis, Storage, live, bump, with_deadline, hits_key,
}
use apicenter_hehe.Throttler.Redis.Window.{calls, stores_agree}

abbrev left : ℕ → Option ℕ → ℤ
left now none = negsuc 0
left now (some d) = pos ((d - now + 500) / 1000)

abbrev reply : ℕ → Option Stored → ℤ
reply now none = negsuc 1
reply now (some e) = left now e.deadline

abbrev put_back : String → Option Stored → Dict Stored → Dict Stored
put_back k none s = remove k s
put_back k (some e) s = insert k e s

abbrev server : RedisServer
server = record {
  State = Dict Stored;
  stored = λ s k. lookup k s;
  ttl = λ now k s. reply now (live now (lookup k s));
  incr =
      λ now k s. ((bump (live now (lookup k s))).count, insert k (bump (live now (lookup k s))) s);
  expire = λ now k sec s. put_back k (with_deadline (now + sec * 1000) (live now (lookup k s))) s;
  setex = λ now k sec s. insert k (record { count = 1; deadline = some (now + sec * 1000) }) s;
}

lookup-put_back :
    (k j : String) (o : Option Stored) (s : Dict Stored)
    → lookup j (put_back k o s) ≡ (if k == j then o else lookup j s)
lookup-put_back k j none s = lookup-remove k j s
lookup-put_back k j (some e) s = lookup-insert k j e s

server-IsRedis : IsRedis server
server-IsRedis = record {
  ttl-missing = λ now k s missing. rw missing refl;
  incr-answer = λ now k s. refl;
  incr-stored = λ now k j s. lookup-insert k j (bump (live now (lookup k s))) s;
  expire-stored = λ now k j sec s.
      lookup-put_back k j (with_deadline (now + sec * 1000) (live now (lookup k s))) s;
  setex-others = λ now k j sec s other. lookup-insert k j _ s ∙ rw other refl;
}

abbrev with_redis : Storage server
with_redis = record { connected = true; redis = []; memory = [] }

abbrev without_redis : Storage server
without_redis = record { connected = false; redis = []; memory = [] }

stores_agree_example :
    calls server "a" 60000 2 10000 (5 ∷ 40 ∷ 1000 ∷ 30000 ∷ []) with_redis
    ≡ calls server "a" 60000 2 10000 (5 ∷ 40 ∷ 1000 ∷ 30000 ∷ []) without_redis
unfolding lookup
stores_agree_example =
    stores_agree server server-IsRedis "a" 60000 2 10000 (omega arith) 5 (40 ∷ 1000 ∷ 30000 ∷ [])
      with_redis without_redis refl refl refl refl refl (omega arith) (omega arith) (ground arith)

-- The process stopped after its first `INCR`.
abbrev interrupted : Storage server
unfolding hits_key
interrupted = record {
  connected = true;
  redis = ("throttle:a:hits", record { count = 1; deadline = none }) ∷ [];
  memory = [];
}
