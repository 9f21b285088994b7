-- ===== src/Witnesses/Writes.antt =====
-- Instances for the registrations of registry/registry.service.ts.
use apicenter_hehe.Common.{String, ◌≡◌, refl, none, some, ◌==◌, if◌then◌else◌}
use apicenter_hehe.Common.Dict.{lookup}
use apicenter_hehe.Errors.{ok, err}
use apicenter_hehe.Registry.Types.{ServiceManifest, active}
use apicenter_hehe.Registry.State.{refused}
use apicenter_hehe.Registry.Semver.{parse_semver, validate_version_upgrade}
use apicenter_hehe.Registry.Registration.{admit, register, write_failed, new_entry}
use apicenter_hehe.Registry.Registration.Rollback.{refused_write_forgets}
use apicenter_hehe.Registry.Registration.Overlap.{
  overlap, first_entry, first_call, second_call, refusal_undoes_other,
}
use apicenter_hehe.Witnesses.Data.{billing, entry, market}

abbrev now : String
now = "2025-01-01T00:00:00.000Z"

-- The next version of the service, at another address.
abbrev next : ServiceManifest
next = record billing { version = some "3.0.0"; base_url = "http://billing-v3:3000" }

abbrev older : ServiceManifest
older = record billing { version = some "1.9.0" }

abbrev unversioned : ServiceManifest
unversioned = record billing { version = none }

next-admitted : admit (some (entry billing active)) next ≡ ok tt
unfolding admit validate_version_upgrade parse_semver
next-admitted = refl

refused_write_forgets_example :
    ((register now (refused "timeout") next market).0 ≡ err (write_failed "billing" "timeout"))
    × ((j : String)
        → lookup j (register now (refused "timeout") next market).1.services
          ≡ (if "billing" == j then none else lookup j market.services))
unfolding lookup
refused_write_forgets_example = refused_write_forgets now "timeout" next market refl next-admitted

abbrev afterwards : String
afterwards = "2025-01-01T00:00:02.000Z"

next-readmitted : admit (some (first_entry now afterwards "timeout" next next market)) next ≡ ok tt
unfolding admit validate_version_upgrade parse_semver new_entry lookup
next-readmitted = refl

refusal_undoes_other_example :
    let (first, second, r') =
      overlap
        (first_call now afterwards "timeout" next next market)
        (second_call now afterwards "timeout" next next market)
        market in
    (second
      ≡ ok (
          new_entry afterwards (some (first_entry now afterwards "timeout" next next market)) next))
    × (first ≡ err (write_failed "billing" "timeout"))
    × (lookup "billing" r'.services ≡ none)
unfolding lookup
refusal_undoes_other_example =
    refusal_undoes_other now afterwards "timeout" next next market refl refl next-admitted
      next-readmitted
