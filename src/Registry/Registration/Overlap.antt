-- ===== src/Registry/Registration/Overlap.antt =====
-- Two calls of `register` for one service that wait for Redis at the same time.
use apicenter_hehe.Common.{String, ◌≡◌, refl, ap, ◌∙◌, true, Option, none, some, eq_refl}
use apicenter_hehe.Common.Dict.{lookup, remove, lookup-remove, lookup-insert}
use apicenter_hehe.Errors.{Result, ok, err}
use apicenter_hehe.Registry.Types.{ServiceManifest, ServiceRegistryEntry}
use apicenter_hehe.Registry.State.{RegistryService, RedisReply, acknowledged, refused}
use apicenter_hehe.Registry.Registration.Parts.{announced-services, stored-services}
use apicenter_hehe.Registry.Registration.{
  admit, new_entry, stored, rolled_back, write_failed, Pending, register_begin, register_settle,
  settle,
}

abbrev Answer : Type 0
Answer = Result ServiceRegistryEntry

-- The second call is settled first.
abbrev pub settle_both :
    Result Pending × RedisReply
    → Result Pending × RedisReply
    → RegistryService
    → Answer × Answer × RegistryService
settle_both (p, reply) (p', reply') r =
    let (second, r') = settle p' reply' r in
    let (first, r'') = settle p reply r' in (first, second, r'')

abbrev pub begin_second :
    RedisReply
    → String × ServiceManifest × RedisReply
    → Result Pending × RegistryService
    → Answer × Answer × RegistryService
begin_second reply (later, m', reply') (p, r) =
    let (p', r') = register_begin later m' r in settle_both (p, reply) (p', reply') r'

-- The first call begins, the second begins, the reply to the second comes, then that to the first:
-- what each of them answers, and the registry at the end.
unfoldable pub overlap :
    String × ServiceManifest × RedisReply
    → String × ServiceManifest × RedisReply
    → RegistryService
    → Answer × Answer × RegistryService
overlap (now, m, reply) second r = begin_second reply second (register_begin now m r)

module _ (now : String) (m : ServiceManifest) (r : RegistryService) where
  abbrev pub existing : Option ServiceRegistryEntry
  existing = lookup m.service_id r.services

  abbrev pending : Pending
  pending = record { now = now; existing = existing; manifest = m }

  begun : admit existing m ≡ ok tt → register_begin now m r ≡ (ok pending, stored now m r)
  unfolding register_begin
  begun passed = rw passed refl

settled_ok :
    (p : Pending) (r : RegistryService)
    → ((register_settle acknowledged p r).0 ≡ ok (new_entry p.now p.existing p.manifest))
      × ((register_settle acknowledged p r).1.services ≡ r.services)
      × ((register_settle acknowledged p r).1.connected ≡ r.connected)
unfolding register_settle
settled_ok p r =
    let same = announced-services p.now p.existing p.manifest r in (refl, same.0, same.2)

settled_refused :
    (reason : String) (p : Pending) (r : RegistryService)
    → r.connected ≡ true
    → ((register_settle (refused reason) p r).0 ≡ err (write_failed p.manifest.service_id reason))
      × ((register_settle (refused reason) p r).1.services
          ≡ remove p.manifest.service_id r.services)
unfolding register_settle rolled_back
settled_refused reason p r on = rw on (refl, refl)

module _ (now later reason : String) (m m' : ServiceManifest) (r : RegistryService) where
  abbrev pub first_entry : ServiceRegistryEntry
  first_entry = new_entry now (existing now m r) m

  abbrev between : RegistryService
  between = stored now m r

  abbrev both_stored : RegistryService
  both_stored = stored later m' between

  abbrev pub first_call : String × ServiceManifest × RedisReply
  first_call = (now, m, refused reason)

  abbrev pub second_call : String × ServiceManifest × RedisReply
  second_call = (later, m', acknowledged)

  first_is_there :
      m'.service_id ≡ m.service_id → lookup m'.service_id between.services ≡ some first_entry
  first_is_there same =
      ap (lookup m'.service_id) (stored-services now m r).0
      ∙ lookup-insert m.service_id m'.service_id first_entry r.services
      ∙ rw same (rw (eq_refl m.service_id) refl)

  both_begun :
      admit (existing now m r) m ≡ ok tt
      → admit (lookup m'.service_id between.services) m' ≡ ok tt
      → overlap first_call second_call r
        ≡ settle_both
            (ok (pending now m r), refused reason)
            (ok (pending later m' between), acknowledged)
            both_stored
  unfolding overlap
  both_begun passed passed' =
      ap (begin_second (refused reason) second_call) (begun now m r passed)
      ∙ ap (λ b. settle_both (ok (pending now m r), refused reason) (b.0, acknowledged) (b.1))
          (begun later m' between passed')

  abbrev after_second : RegistryService
  after_second = (register_settle acknowledged (pending later m' between) both_stored).1

  still_connected : r.connected ≡ true → after_second.connected ≡ true
  still_connected on =
      (settled_ok (pending later m' between) both_stored).2
      ∙ (stored-services later m' between).3
      ∙ (stored-services now m r).3
      ∙ on

  -- A refused write undoes the registration of another: the second call for a service is told that
  -- the service is registered, with its entry, and then the reply to the first call, a refusal,
  -- deletes that entry from memory.
  pub refusal_undoes_other :
      r.connected ≡ true
      → m'.service_id ≡ m.service_id
      → admit (existing now m r) m ≡ ok tt
      → admit (some first_entry) m' ≡ ok tt
      → let (first, second, r') = overlap first_call second_call r in
        (second ≡ ok (new_entry later (some first_entry) m'))
        × (first ≡ err (write_failed m.service_id reason))
        × (lookup m.service_id r'.services ≡ none)
  refusal_undoes_other on same passed passed' =
      let there = first_is_there same in
      let begun_both = both_begun passed (ap (λ o. admit o m') there ∙ passed') in
      let undone = settled_refused reason (pending now m r) after_second (still_connected on) in
      (
        ap (λ x. x.1) begun_both
            ∙ (settled_ok (pending later m' between) both_stored).0
            ∙ ap (λ o. ok (new_entry later o m')) there,
        ap (λ x. x.0) begun_both ∙ undone.0,
        ap (λ x. lookup m.service_id (x.2).services) begun_both
            ∙ ap (lookup m.service_id) undone.1
            ∙ lookup-remove m.service_id m.service_id after_second.services
            ∙ rw (eq_refl m.service_id) refl,
      )
