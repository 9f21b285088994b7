-- ===== src/Throttler/Redis/Step.antt =====
-- One call: what it does to the counter of its key, and whether it is blocked.
use text.Mathlib.TextLemmas.{append_cancel_left}
use apicenter_hehe.Common.{
  ℕ, ◌+◌, ◌*◌, ◌≤◌, ◌<◌, String, ◌≡◌, ◌≢◌, refl, ◌∙◌, inl, inr, lt→ltb, Bool, true, false, Option,
  none, some, ◌==◌, arith, eq_iff, eq_refl, ltb, nat_beq, Bool-cases,
}
use apicenter_hehe.Common.Int.{is_positive}
use apicenter_hehe.Throttler.{ThrottlerStorageRecord, Call}
use apicenter_hehe.Throttler.Redis.{
  Stored, RedisServer, IsRedis, gone, hits_key, block_key, seconds, judge, redis_increment,
}

abbrev hits_suffix : String
hits_suffix = ":hits"

abbrev block_suffix : String
block_suffix = ":block"

leb_ltb : (m n : ℕ) → m ≤ n → ltb n m ≡ false
leb_ltb m n h = ground arith

nat_beq_later : (n : ℕ) → 0 < n → nat_beq (n + 1) 1 ≡ false
nat_beq_later n h = ground arith

suffixes-differ : hits_suffix ≢ block_suffix
suffixes-differ same = cc same

keys_apart : (key : String) → hits_key key ≢ block_key key
unfolding hits_key block_key
keys_apart key same =
    suffixes-differ
      (append_cancel_left key hits_suffix block_suffix (append_cancel_left "throttle:" _ _ same))

hits-block : (key : String) → (hits_key key == block_key key) ≡ false
hits-block key = ground (arith, eq_iff (hits_key key) (block_key key), keys_apart key)

block-hits : (key : String) → (block_key key == hits_key key) ≡ false
block-hits key = ground (arith, eq_iff (block_key key) (hits_key key), keys_apart key)

module _ (R : RedisServer) (laws : IsRedis R) (key : String) where
  -- What Redis holds for the key: its counter, and its block.
  abbrev pub hits : R.State → Option Stored
  hits s = R.stored s (hits_key key)

  abbrev pub block : R.State → Option Stored
  block s = R.stored s (block_key key)

  -- A call for the key that leaves its counter at `e`, and is blocked or not.
  abbrev pub Answers : Bool → Stored → ThrottlerStorageRecord × R.State → Type 0
  Answers blocked e (r, s) = (r.is_blocked ≡ blocked) × (hits s ≡ some e)

  module _ (c : Call) (can_block : 0 < c.block_duration) where
    judge_lets :
        (n : ℕ) (s : R.State)
        → n ≤ c.limit
        → ((judge R key n c s).0.is_blocked ≡ false) × ((judge R key n c s).1 ≡ s)
    judge_lets n s h = rw (leb_ltb n c.limit h) (refl, refl)

    judge_blocks :
        (n : ℕ) (s : R.State)
        → c.limit < n
        → ((judge R key n c s).0.is_blocked ≡ true) × (hits (judge R key n c s).1 ≡ hits s)
    judge_blocks n s h =
        rw (lt→ltb c.limit n h, lt→ltb 0 c.block_duration can_block)
          (refl, laws.setex-others c.now (block_key key) (hits_key key) _ s (block-hits key))

    -- The counter after one more hit, which is not its first.
    counted_again :
        (e : Stored) (s : R.State)
        → hits s ≡ some e
        → gone c.now e.deadline ≡ false
        → ((R.incr c.now (hits_key key) s).0 ≡ e.count + 1)
          × (hits (R.incr c.now (hits_key key) s).1 ≡ some (record e { count = e.count + 1 }))
          × (block (R.incr c.now (hits_key key) s).1 ≡ block s)
    counted_again e s there runs = (
      laws.incr-answer c.now (hits_key key) s ∙ rw (there, runs) refl,
      laws.incr-stored c.now (hits_key key) (hits_key key) s
          ∙ rw (eq_refl (hits_key key), there, runs) refl,
      laws.incr-stored c.now (hits_key key) (block_key key) s ∙ rw (hits-block key) refl,
    )

    -- A counter that has reached the limit: every call is blocked, by the key of the block or by the
    -- count, whatever Redis says of that key.
    pub call_over :
        (e : Stored) (s : R.State)
        → hits s ≡ some e
        → gone c.now e.deadline ≡ false
        → 0 < e.count
        → c.limit ≤ e.count
        → (e' : Stored) × Answers true e' (redis_increment R key c s)
          × (e'.deadline ≡ e.deadline)
          × (e.count ≤ e'.count)
    unfolding redis_increment
    call_over e s there runs some_hit over =
        elim (Bool-cases (is_positive (R.ttl c.now (block_key key) s))) [
          | inl blocked ↦ (e, rw blocked (refl, there), refl, omega arith)
          | inr free ↦
              let (answer, left, other) = counted_again e s there runs in
              let (told, kept) =
                judge_blocks (e.count + 1) (R.incr c.now (hits_key key) s).1 (omega arith) in
              (
                record e { count = e.count + 1 },
                rw (free, answer, nat_beq_later e.count some_hit) (told, kept ∙ left),
                refl,
                omega arith,
              )
        ]

    -- A counter below the limit and no block: the call passes and is counted.
    pub call_under :
        (e : Stored) (s : R.State)
        → hits s ≡ some e
        → gone c.now e.deadline ≡ false
        → 0 < e.count
        → e.count < c.limit
        → block s ≡ none
        → Answers false (record e { count = e.count + 1 }) (redis_increment R key c s)
          × (block (redis_increment R key c s).1 ≡ none)
    unfolding redis_increment
    call_under e s there runs some_hit under no_block =
        let (answer, left, other) = counted_again e s there runs in
        let (told, kept) =
          judge_lets (e.count + 1) (R.incr c.now (hits_key key) s).1 (omega arith) in
        rw (laws.ttl-missing c.now (block_key key) s no_block, answer)
          (rw (nat_beq_later e.count some_hit, kept) ((told, left), other ∙ no_block))

    -- The first call for a key that Redis does not hold: it passes, and the counter gets its end.
    pub call_new :
        (s : R.State)
        → hits s ≡ none
        → block s ≡ none
        → 0 < c.limit
        → Answers false
            (record { count = 1; deadline = some (c.now + seconds c.ttl * 1000) })
            (redis_increment R key c s)
          × (block (redis_increment R key c s).1 ≡ none)
    unfolding redis_increment
    call_new s no_hits no_block some_allowed =
        let (answer, left, other) = counted_first s no_hits in
        let s' = R.expire c.now (hits_key key) (seconds c.ttl) (R.incr c.now (hits_key key) s).1 in
        let (told, kept) = judge_lets 1 s' (omega arith) in
        rw (laws.ttl-missing c.now (block_key key) s no_block, answer)
          (rw kept (
            (
              told,
              laws.expire-stored c.now (hits_key key) (hits_key key) _ _
                  ∙ rw (eq_refl (hits_key key), left) refl,
            ),
            laws.expire-stored c.now (hits_key key) (block_key key) _ _
                ∙ rw (hits-block key) (other ∙ no_block),
          ))
      where
        counted_first :
            (s : R.State)
            → hits s ≡ none
            → ((R.incr c.now (hits_key key) s).0 ≡ 1)
              × (hits (R.incr c.now (hits_key key) s).1
                  ≡ some (record { count = 1; deadline = none }))
              × (block (R.incr c.now (hits_key key) s).1 ≡ block s)
        counted_first s no_hits = (
          laws.incr-answer c.now (hits_key key) s ∙ rw no_hits refl,
          laws.incr-stored c.now (hits_key key) (hits_key key) s
              ∙ rw (eq_refl (hits_key key), no_hits) refl,
          laws.incr-stored c.now (hits_key key) (block_key key) s ∙ rw (hits-block key) refl,
        )
