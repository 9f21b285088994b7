-- ===== src/Throttler/Window.antt =====
-- One key at a time: what a call does to its bucket, and how many calls pass within one window.
use apicenter_hehe.Common.{
  ℕ, zero, suc, ◌+◌, ◌≤◌, ◌<◌, String, ◌≡◌, refl, sym, ap, ◌∙◌, lt→ltb, leb-false_of_lt, inl, inr,
  Bool, true, false, ◌&&◌, Option, none, some, List, [], ◌∷◌, ◌==◌, arith, eq_iff, eq_refl, ltb,
  leb, if◌then◌else◌, All, Bool-cases,
}
use mathlib.Core.Path.{ap₂, subst}
use apicenter_hehe.Common.Dict.{lookup, remove, lookup-insert, lookup-remove}
use apicenter_hehe.Throttler.{
  Bucket, MemoryStore, Call, new_bucket, bucket_or_new, hit, seen, memory_increment,
}

-- The specification, on the bucket of one key.
abbrev counted : Bucket → Call → Bool × Option Bucket
counted b c =
    let over = ltb c.limit (b.hits + 1) && ltb 0 c.block_duration in
    (
      over,
      some (record b {
        hits = b.hits + 1;
        blocked_until = if over then c.now + c.block_duration else b.blocked_until;
      }),
    )

-- Whether the call is blocked, and the bucket after it.
unfoldable pub answer : Call → Option Bucket → Bool × Option Bucket
answer c none = counted (new_bucket c) c
answer c (some b) =
    if ltb c.now b.blocked_until
    then (true, if leb b.expires_at c.now then none else some b)
    else if leb b.expires_at c.now
    then counted (new_bucket c) c
    else counted b c

module _ (key : String) (c : Call) where
  hit_refines :
      (b : Bucket) (store : MemoryStore)
      → ((hit b key c store).0.is_blocked ≡ (counted b c).0)
        × ((j : String)
            → lookup j (hit b key c store).1
              ≡ (if key == j then (counted b c).1 else lookup j store))
  hit_refines b store = elim (Bool-cases (ltb c.limit (b.hits + 1) && ltb 0 c.block_duration)) [
    | inl over ↦ (rw over, λ j. rw over (lookup-insert key j _ store))
    | inr under ↦ (rw under, λ j. rw under (lookup-insert key j _ store))
  ]

  -- A bucket that has run out is deleted, and a new one takes its place.
  expired_refines :
      (store : MemoryStore)
      → ((hit
            (bucket_or_new (lookup key (remove key store)) c)
            key
            c
            (remove key store)).0.is_blocked
          ≡ (counted (new_bucket c) c).0)
        × ((j : String)
            → lookup j
                (hit (bucket_or_new (lookup key (remove key store)) c) key c (remove key store)).1
              ≡ (if key == j then (counted (new_bucket c) c).1 else lookup j store))
  expired_refines store =
      rw (removed) (fresh.0, λ j. fresh.1 j ∙ ground (arith, lookup-remove key j store))
    where
      removed : lookup key (remove key store) ≡ none
      removed = ground (arith, lookup-remove key key store, eq_refl key)

      fresh :
          ((hit (new_bucket c) key c (remove key store)).0.is_blocked
            ≡ (counted (new_bucket c) c).0)
          × ((j : String)
              → lookup j (hit (new_bucket c) key c (remove key store)).1
                ≡ (if key == j then (counted (new_bucket c) c).1 else lookup j (remove key store)))
      fresh = hit_refines (new_bucket c) (remove key store)

  seen_refines :
      (o : Option Bucket) (store : MemoryStore)
      → lookup key store ≡ o
      → ((seen o key c store).0.is_blocked ≡ (answer c o).0)
        × ((j : String)
            → lookup j (seen o key c store).1
              ≡ (if key == j then (answer c o).1 else lookup j store))
  unfolding answer
  seen_refines none store there = hit_refines (new_bucket c) store
  seen_refines (some b) store there = elim (Bool-cases (ltb c.now b.blocked_until)) [
    | inl blocked ↦ rw blocked (refl, λ j. ground (arith, lookup-remove key j store, eq_iff key j))
    | inr free ↦ elim (Bool-cases (leb b.expires_at c.now)) [
      | inl expired ↦ rw (free, expired) (expired_refines store)
      | inr runs ↦ rw (free, runs, there) (hit_refines b store)
    ]
  ]

  -- A call of `increment` is blocked as the specification says of the bucket of its key, leaves
  -- that bucket as it says, and changes no other.
  pub increment-refines :
      (store : MemoryStore)
      → ((memory_increment key c store).0.is_blocked ≡ (answer c (lookup key store)).0)
        × ((j : String)
            → lookup j (memory_increment key c store).1
              ≡ (if key == j then (answer c (lookup key store)).1 else lookup j store))
  unfolding memory_increment
  increment-refines store = seen_refines (lookup key store) store refl

ltb_zero : (t : ℕ) → ltb t 0 ≡ false
ltb_zero t = ground arith

-- The first `n` answers let through, the others block.
abbrev pub let_through : ℕ → List ℕ → List Bool
let_through n [] = []
let_through zero (t ∷ ts) = true ∷ let_through zero ts
let_through (suc n) (t ∷ ts) = false ∷ let_through n ts

-- The answers to calls for one key, with one set of limits, at the given times.
module _ (ttl limit block_duration : ℕ) where
  abbrev pub at : ℕ → Call
  at now = record { now = now; ttl = ttl; limit = limit; block_duration = block_duration }

  unfoldable pub calls : String → List ℕ → MemoryStore → List Bool
  calls key [] store = []
  calls key (now ∷ ts) store =
      let (r, store') = memory_increment key (at now) store in r.is_blocked ∷ calls key ts store'

  answers : List ℕ → Option Bucket → List Bool
  answers [] o = []
  answers (now ∷ ts) o = let (blocked, o') = answer (at now) o in blocked ∷ answers ts o'

  calls-eq-answers :
      (key : String) (ts : List ℕ) (store : MemoryStore)
      → calls key ts store ≡ answers ts (lookup key store)
  unfolding calls answers
  calls-eq-answers key [] store = refl
  calls-eq-answers key (now ∷ ts) store =
      let step = increment-refines key (at now) store in
      ap₂ ◌∷◌ step.0 (
        calls-eq-answers key ts (memory_increment key (at now) store).1
        ∙ ap (answers ts) (step.1 key ∙ rw (eq_refl key)))

  answer_over :
      (t : ℕ) (b : Bucket)
      → 0 < block_duration
      → limit ≤ b.hits
      → t < b.expires_at
      → (b' : Bucket) × (answer (at t) (some b) ≡ (true, some b'))
        × (limit ≤ b'.hits)
        × (b'.expires_at ≡ b.expires_at)
  unfolding answer
  answer_over t b pos over now = elim (Bool-cases (ltb t b.blocked_until)) [
    | inl blocked ↦ (b, rw (blocked, leb-false_of_lt _ _ now), over, refl)
    | inr free ↦ (
      record b { hits = b.hits + 1; blocked_until = t + block_duration },
      rw (free, leb-false_of_lt _ _ now, lt→ltb limit (b.hits + 1) (omega arith), lt→ltb _ _ pos),
      omega arith,
      refl,
    )
  ]

  answer_under :
      (t : ℕ) (b : Bucket)
      → b.hits < limit
      → b.blocked_until ≡ 0
      → t < b.expires_at
      → answer (at t) (some b) ≡ (false, some (record b { hits = b.hits + 1 }))
  unfolding answer
  answer_under t b left free now = ground arith

  -- A bucket over its limit blocks to the end of its window.
  answers_over :
      (ts : List ℕ) (b : Bucket)
      → 0 < block_duration
      → limit ≤ b.hits
      → All (λ t. t < b.expires_at) ts
      → answers ts (some b) ≡ let_through 0 ts
  unfolding answers
  answers_over [] b pos over within = refl
  answers_over (t ∷ ts) b pos over (now, later) =
      let (b', blocks, over', same) = answer_over t b pos over now in
      rw (blocks) (
        ap (◌∷◌ true)
          (answers_over ts b' pos over' (subst (λ e. All (λ t. t < e) ts) (sym same) later)))

  answers_within :
      (n : ℕ) (ts : List ℕ) (b : Bucket)
      → 0 < block_duration
      → b.hits + n ≡ limit
      → b.blocked_until ≡ 0
      → All (λ t. t < b.expires_at) ts
      → answers ts (some b) ≡ let_through n ts
  unfolding answers
  answers_within zero ts b pos left free within = answers_over ts b pos (omega arith) within
  answers_within (suc n) [] b pos left free within = refl
  answers_within (suc n) (t ∷ ts) b pos left free (now, later) =
      rw (answer_under t b (omega arith) free now) (
        ap (◌∷◌ false)
          (answers_within n ts (record b { hits = b.hits + 1 }) pos (omega arith) free later))

  answers_new :
      (t : ℕ) (ts : List ℕ)
      → 0 < ttl
      → answers (t ∷ ts) none ≡ answers (t ∷ ts) (some (new_bucket (at t)))
  unfolding answers answer
  answers_new t ts long = rw (leb-false_of_lt (t + ttl) t (omega arith), ltb_zero t) refl

  -- With a block duration, of the calls for one key from its first on to the end of the window that
  -- this one opens, exactly the first `limit` are let through, whatever their times, and all the
  -- others are blocked.
  pub window_lets_limit_through :
      (key : String) (start : ℕ) (ts : List ℕ) (store : MemoryStore)
      → 0 < block_duration
      → 0 < ttl
      → lookup key store ≡ none
      → All (λ t. t < start + ttl) ts
      → calls key (start ∷ ts) store ≡ let_through limit (start ∷ ts)
  window_lets_limit_through key start ts store pos long there within =
      calls-eq-answers key (start ∷ ts) store
      ∙ ap (answers (start ∷ ts)) there
      ∙ answers_new start ts long
      ∙ answers_within limit (start ∷ ts) (new_bucket (at start)) pos (omega arith) refl
          (omega arith, within)
