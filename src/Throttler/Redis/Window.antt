-- ===== src/Throttler/Redis/Window.antt =====
-- How many calls for one key pass while its counter in Redis lives.
use apicenter_hehe.Common.{
  ℕ, zero, suc, ◌+◌, ◌-◌, ◌*◌, ◌≤◌, ◌<◌, String, ◌≡◌, refl, sym, ap, ◌∙◌, leb-false_of_lt, Bool,
  true, false, Option, none, some, List, [], ◌∷◌, arith, All,
}
use mathlib.Core.Path.{ap₂, subst}
use apicenter_hehe.Common.Dict.{lookup}
use apicenter_hehe.Throttler.{Call, memory_increment}
use apicenter_hehe.Throttler.Window.{at, let_through, window_lets_limit_through}
use apicenter_hehe.Throttler.Window
use apicenter_hehe.Throttler.Redis.{
  Stored, RedisServer, IsRedis, gone, seconds, redis_increment, Storage, increment,
}
use apicenter_hehe.Throttler.Redis.Step.{hits, block, call_over, call_under, call_new}

-- The answers to calls for one key, with one set of limits, at the given times.
module _ (R : RedisServer) (key : String) (ttl limit block_duration : ℕ) where
  answers : List ℕ → R.State → List Bool
  answers [] s = []
  answers (now ∷ ts) s =
      let (r, s') = redis_increment R key (at ttl limit block_duration now) s in
      r.is_blocked ∷ answers ts s'

  pub calls : List ℕ → Storage R → List Bool
  calls [] st = []
  calls (now ∷ ts) st =
      let (r, st') = increment R key (at ttl limit block_duration now) st in
      r.is_blocked ∷ calls ts st'

  calls-connected :
      (ts : List ℕ) (st : Storage R) → st.connected ≡ true → calls ts st ≡ answers ts st.redis
  unfolding calls answers increment
  calls-connected [] st on = refl
  calls-connected (t ∷ ts) st on = rw on (
      ap (◌∷◌ (redis_increment R key (at ttl limit block_duration t) st.redis).0.is_blocked) (
        calls-connected ts
          (record {
            connected = true;
            memory = st.memory;
            redis = (redis_increment R key (at ttl limit block_duration t) st.redis).1;
          })
          refl))

  calls-disconnected :
      (ts : List ℕ) (st : Storage R)
      → st.connected ≡ false
      → calls ts st ≡ Window.calls ttl limit block_duration key ts st.memory
  unfolding calls increment Window.calls
  calls-disconnected [] st off = refl
  calls-disconnected (t ∷ ts) st off = rw off (
      ap (◌∷◌ (memory_increment key (at ttl limit block_duration t) st.memory).0.is_blocked) (
        calls-disconnected ts
          (record {
            connected = false;
            redis = st.redis;
            memory = (memory_increment key (at ttl limit block_duration t) st.memory).1;
          })
          refl))

-- The window in Redis is rounded up to whole seconds.
window_rounded :
    (ts : List ℕ) (start ttl : ℕ)
    → All (λ t. t < start + ttl) ts
    → All (λ t. t < start + seconds ttl * 1000) ts
window_rounded [] start ttl held = tt
window_rounded (t ∷ ts) start ttl (before, later) = (omega arith, window_rounded ts start ttl later)

first_passes :
    (limit start : ℕ) (ts : List ℕ)
    → 0 < limit
    → let_through limit (start ∷ ts) ≡ false ∷ let_through (limit - 1) ts
first_passes zero start ts h = absurd (omega arith)
first_passes (suc n) start ts h = ap (λ m. false ∷ let_through m ts) (omega arith)

-- A counter that lives at the given times.
abbrev pub Runs : Option ℕ → List ℕ → Type 0
Runs deadline ts = All (λ t. gone t deadline ≡ false) ts

Runs-within : (deadline : ℕ) (ts : List ℕ) → All (λ t. t < deadline) ts → Runs (some deadline) ts
Runs-within deadline [] held = tt
Runs-within deadline (t ∷ ts) (before, later) =
    (leb-false_of_lt deadline t before, Runs-within deadline ts later)

Runs-forever : (ts : List ℕ) → Runs none ts
Runs-forever [] = tt
Runs-forever (t ∷ ts) = (refl, Runs-forever ts)

module _ (R : RedisServer) (laws : IsRedis R) (key : String) where
  -- The answers to calls at the given times.
  module _ (ttl limit block_duration : ℕ) (can_block : 0 < block_duration) where
    abbrev call_at : ℕ → Call
    call_at now = at ttl limit block_duration now

    abbrev replies : List ℕ → R.State → List Bool
    replies ts s = answers R key ttl limit block_duration ts s

    answers_over :
        (ts : List ℕ) (e : Stored) (s : R.State)
        → hits R laws key s ≡ some e
        → Runs e.deadline ts
        → 0 < e.count
        → limit ≤ e.count
        → replies ts s ≡ let_through 0 ts
    unfolding answers
    answers_over [] e s there runs some_hit over = refl
    answers_over (t ∷ ts) e s there (now, later) some_hit over =
        let (e', (blocked, left), same, more) =
          call_over R laws key (call_at t) can_block e s there now some_hit over in
        ap₂ ◌∷◌ blocked (
          answers_over ts e' (redis_increment R key (call_at t) s).1 left
            (subst (λ d. Runs d ts) (sym same) later) (omega arith) (omega arith))

    answers_within :
        (n : ℕ) (ts : List ℕ) (e : Stored) (s : R.State)
        → hits R laws key s ≡ some e
        → block R laws key s ≡ none
        → Runs e.deadline ts
        → 0 < e.count
        → e.count + n ≡ limit
        → replies ts s ≡ let_through n ts
    unfolding answers
    answers_within zero ts e s there no_block runs some_hit left =
        answers_over ts e s there runs some_hit (omega arith)
    answers_within (suc n) [] e s there no_block runs some_hit left = refl
    answers_within (suc n) (t ∷ ts) e s there no_block (now, later) some_hit left =
        let ((passed, counted), still_none) =
          call_under R laws key (call_at t) can_block e s there now some_hit (omega arith)
            no_block in
        ap₂ ◌∷◌ passed (
          answers_within n ts (record e { count = e.count + 1 })
            (redis_increment R key (call_at t) s).1 counted still_none later (omega arith)
            (omega arith))

    answers_new :
        (start : ℕ) (ts : List ℕ) (s : R.State)
        → hits R laws key s ≡ none
        → block R laws key s ≡ none
        → 0 < limit
        → All (λ t. t < start + seconds ttl * 1000) ts
        → replies (start ∷ ts) s ≡ let_through limit (start ∷ ts)
    unfolding answers
    answers_new start ts s no_hits no_block some_allowed within =
        let ((passed, counted), still_none) =
          call_new R laws key (call_at start) can_block s no_hits no_block some_allowed in
        ap₂ ◌∷◌ passed (
          answers_within (limit - 1) ts
            (record { count = 1; deadline = some (start + seconds ttl * 1000) })
            (redis_increment R key (call_at start) s).1 counted still_none
            (Runs-within (start + seconds ttl * 1000) ts within) (omega arith) (omega arith))
        ∙ rw (first_passes limit start ts some_allowed) refl

    -- With Redis too, of the calls for a key from its first on to the end of the window, exactly the
    -- first `limit` are let through, whatever their times, and all the others are blocked: also
    -- those that come when the block itself is over.
    pub redis_lets_limit_through :
        (start : ℕ) (ts : List ℕ) (st : Storage R)
        → st.connected ≡ true
        → hits R laws key st.redis ≡ none
        → block R laws key st.redis ≡ none
        → 0 < limit
        → All (λ t. t < start + seconds ttl * 1000) ts
        → calls R key ttl limit block_duration (start ∷ ts) st ≡ let_through limit (start ∷ ts)
    redis_lets_limit_through start ts st on no_hits no_block some_allowed within =
        calls-connected R key ttl limit block_duration (start ∷ ts) st on
        ∙ answers_new start ts st.redis no_hits no_block some_allowed within

    -- From a key that neither store holds, calls that come within one window are blocked in Redis
    -- exactly where they are blocked in memory, where limit, window and duration of a block are not
    -- zero and the first store is connected to Redis. This is about what is blocked: the counts and
    -- the times that the two report are not compared.
    pub stores_agree :
        (start : ℕ) (ts : List ℕ) (st st' : Storage R)
        → st.connected ≡ true
        → hits R laws key st.redis ≡ none
        → block R laws key st.redis ≡ none
        → st'.connected ≡ false
        → lookup key st'.memory ≡ none
        → 0 < limit
        → 0 < ttl
        → All (λ t. t < start + ttl) ts
        → calls R key ttl limit block_duration (start ∷ ts) st
          ≡ calls R key ttl limit block_duration (start ∷ ts) st'
    stores_agree start ts st st' on no_hits no_block off none_there some_allowed long within =
        redis_lets_limit_through start ts st on no_hits no_block some_allowed
          (window_rounded ts start ttl within)
        ∙ sym (
            calls-disconnected R key ttl limit block_duration (start ∷ ts) st' off
            ∙ window_lets_limit_through ttl limit block_duration key start ts st'.memory can_block
                long none_there within)

    -- A counter that got no end, because the process stopped between `INCR` and `EXPIRE`, is never
    -- reset: however far apart the calls are, only those that were left of the limit pass, and then
    -- the key is blocked for good.
    pub counter_without_end :
        (n : ℕ) (ts : List ℕ) (st : Storage R)
        → st.connected ≡ true
        → hits R laws key st.redis ≡ some (record { count = n; deadline = none })
        → block R laws key st.redis ≡ none
        → 0 < n
        → n ≤ limit
        → calls R key ttl limit block_duration ts st ≡ let_through (limit - n) ts
    counter_without_end n ts st on there no_block some_hit within =
        calls-connected R key ttl limit block_duration ts st on
        ∙ answers_within (limit - n) ts (record { count = n; deadline = none }) st.redis there
            no_block (Runs-forever ts) some_hit (omega arith)
