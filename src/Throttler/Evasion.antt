-- ===== src/Throttler/Evasion.antt =====
-- A client that names another tribe in every request. `TribeThrottlerGuard` takes the bucket from the
-- header `x-tribe-id`, which any client may set.
use apicenter_hehe.Common.{
  ◌+◌, ◌≤◌, String, ◌≡◌, ◌≢◌, ap, ◌∙◌, Bool, false, ◌&&◌, Option, none, some, List, [], ◌∷◌, ◌==◌,
  arith, eq_iff, ltb, All, truthy?, truthy,
}
use apicenter_hehe.Common.Dict.{lookup}
use apicenter_hehe.Throttler.{MemoryStore, Call, memory_increment, get_tracker}
use apicenter_hehe.Throttler.Window.{answer, increment-refines}

-- The requests of one address, each with the header that it sends; what each is told. `key_of` is the
-- key that @nestjs/throttler makes of a bucket.
unfoldable pub flood :
    (String → String) → Option String → List (String × Call) → MemoryStore → List Bool
unfolding memory_increment get_tracker
flood key_of ip [] store = []
flood key_of ip ((header, c) ∷ rest) store =
    let (told, store') =
      memory_increment (key_of (get_tracker (some header) none ip none)) c store in
    told.is_blocked ∷ flood key_of ip rest store'

-- The headers are texts that are not empty, no two of them the same, and every limit allows a request.
abbrev pub IsVaried : List (String × Call) → Type 0
IsVaried [] = Unit
IsVaried ((header, c) ∷ rest) =
    (header ≢ "") × (1 ≤ c.limit) × All (λ x. header ≢ x.0) rest × IsVaried rest

tracked_by_header :
    (header : String) (ip : Option String)
    → header ≢ ""
    → get_tracker (some header) none ip none ≡ header
unfolding get_tracker truthy? truthy
tracked_by_header header ip full = ground (arith, eq_iff header "")

not_over : (c : Call) → 1 ≤ c.limit → (ltb c.limit (0 + 1) && ltb 0 c.block_duration) ≡ false
not_over c allowed = ground arith

differs : (s t : String) → s ≢ t → (s == t) ≡ false
differs s t h = ground (arith, eq_iff s t)

first_hit :
    (key : String) (c : Call) (store : MemoryStore)
    → lookup key store ≡ none
    → 1 ≤ c.limit
    → ((memory_increment key c store).0.is_blocked ≡ false)
      × ((j : String)
          → key ≢ j
          → lookup j store ≡ none
          → lookup j (memory_increment key c store).1 ≡ none)
unfolding answer
first_hit key c store new allowed =
    let (told, kept) = increment-refines key c store in
    let passes : (answer c none).0 ≡ false = not_over c allowed in
    (
      told ∙ ap (λ o. (answer c o).0) new ∙ passes,
      λ j differ absent. kept j ∙ rw (differs key j differ) absent,
    )

module _ (key_of : String → String) (ip : Option String)
    (apart : (s t : String) → s ≢ t → key_of s ≢ key_of t) where
  -- No bucket yet for the headers that are to come.
  abbrev pub IsNew : MemoryStore → List (String × Call) → Type 0
  IsNew store xs = All (λ x. lookup (key_of (x.0)) store ≡ none) xs

  still-IsNew :
      (header : String) (c : Call) (store store' : MemoryStore) (xs : List (String × Call))
      → ((j : String) → key_of header ≢ j → lookup j store ≡ none → lookup j store' ≡ none)
      → All (λ x. header ≢ x.0) xs
      → IsNew store xs
      → IsNew store' xs
  still-IsNew header c store store' [] keeps others new = tt
  still-IsNew header c store store' (x ∷ xs) keeps (other, others) (absent, new) = (
    keeps (key_of (x.0)) (apart header (x.0) other) absent,
    still-IsNew header c store store' xs keeps others new,
  )

  -- A client that sends another `x-tribe-id` with every request, none of them empty, is never blocked,
  -- however many requests it makes, where different buckets have different keys, no bucket exists
  -- yet for any of these headers, and every limit allows at least one request.
  pub varied_headers_evade :
      (xs : List (String × Call)) (store : MemoryStore)
      → IsVaried xs
      → IsNew store xs
      → All (λ blocked. blocked ≡ false) (flood key_of ip xs store)
  unfolding flood
  varied_headers_evade [] store varied new = tt
  varied_headers_evade ((header, c) ∷ rest) store (full, allowed, others, varied) (absent, new) =
      let (passes, keeps) = first_hit (key_of header) c store absent allowed in
      let store' = (memory_increment (key_of header) c store).1 in
      let later = still-IsNew header c store store' rest keeps others new in
      rw (tracked_by_header header ip full) (passes, varied_headers_evade rest store' varied later)
