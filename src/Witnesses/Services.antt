-- ===== src/Witnesses/Services.antt =====
-- Instances for the registry of registry/registry.service.ts as a whole.
use apicenter_hehe.Common.{
  ◌+◌, String, ◌≡◌, ◌≢◌, All, refl, true, false, none, some, List, [], ◌∷◌, arith, length, eq_iff,
  filter,
}
use apicenter_hehe.Common.Dict.{lookup, values}
use apicenter_hehe.Registry.Types.{retired, proposed, shared, tribe}
use apicenter_hehe.Registry.State.{acknowledged, refused, active_count, is_live}
use apicenter_hehe.Registry.Registration.Coherence.{IsWellFormed, IsFresh}
use apicenter_hehe.Registry.Lookups.{get_by_type, count}
use apicenter_hehe.Registry.Lookups.Consumers.{by_type_partition}
use apicenter_hehe.Registry.Hydration.{Hash}
use apicenter_hehe.Registry.Automaton.{
  Op, register, deregister, retire, activate, set_health, run, reacts,
}
use apicenter_hehe.Registry.Automaton.Refinement.{run-refines}
use apicenter_hehe.Registry.Automaton.Retirement.{IsRetired}
use apicenter_hehe.Registry.Automaton.Coherence.{IsSettled, IsStanding}
use apicenter_hehe.Registry.Registration.{Pending}
use apicenter_hehe.Errors.{ok}
use apicenter_hehe.Registry.Automaton.Interleaving.{Event, operation, begins, settles, loads, play}
use apicenter_hehe.Registry.Automaton.Interleaving.Finality.{retirement_lasts}
use apicenter_hehe.Registry.Automaton.Interleaving.Invariant.{NoLoad, play-IsStanding}
use apicenter_hehe.Registry.Automaton.Effects.{Approved}
use apicenter_hehe.Witnesses.Data.{billing, orders, entry, market, market_with}

abbrev now : String
now = "2025-01-01T00:00:00.000Z"

abbrev ops : List Op
ops =
    set_health now "billing" false
    ∷ (retire now "billing" ∷ (register now acknowledged billing ∷ (deregister now "orders" ∷ [])))

run-refines_example :
    lookup "orders" (run ops market).services
    ≡ reacts true "orders" ops (lookup "orders" market.services)
run-refines_example = run-refines ops market "orders"

market-IsWellFormed : IsWellFormed market.services
unfolding lookup
market-IsWellFormed = record { distinct = (refl, (refl, tt)); keyed = (refl, (refl, tt)) }

market-Approved : (j : String) → Approved (lookup j market.services)
unfolding lookup
market-Approved j = ground (arith, eq_iff "billing" j, eq_iff "orders" j)

market-IsStanding : IsStanding market
market-IsStanding = record { formed = market-IsWellFormed; approved = market-Approved }

orders_id-differs : orders.service_id ≢ billing.service_id
orders_id-differs same = cc same

retired_status-differs : (entry billing retired).status ≢ proposed
retired_status-differs same = cc same

pub market-IsSettled : IsSettled market
unfolding active_count is_live values filter
market-IsSettled = record { formed = market-IsWellFormed; fresh = refl; approved = market-Approved }

-- The write of one registration waits, while another service is loaded from Redis and the first is
-- retired; a registration of it that began before ends well.
abbrev waiting : Pending
waiting = record { now = now; existing = none; manifest = orders }

abbrev events : List Event
events =
    begins now billing
    ∷ (operation (activate now "billing")
        ∷ (loads (ok (("billing", some (entry billing retired)) ∷ []))
            ∷ (settles (refused "timeout") waiting ∷ [])))

retirement_lasts_example : IsRetired (lookup "billing" (play events (market_with retired)).services)
unfolding lookup
retirement_lasts_example =
    retirement_lasts events (market_with retired) "billing"
      (tt, (tt, (((λ same. refl), tt), (orders_id-differs, tt)))) refl

play-IsStanding_example :
    IsStanding (play events market)
    × (All NoLoad events → IsFresh market → IsFresh (play events market))
play-IsStanding_example =
    play-IsStanding events market (tt, (tt, ((refl, retired_status-differs, tt), (tt, tt))))
      market-IsStanding

by_type_partition_example :
    length (get_by_type shared market) + length (get_by_type tribe market) ≡ count market
by_type_partition_example = by_type_partition market

-- Redis holds one service anew, and a text that does not parse.
abbrev hash : Hash
hash = ("billing", some (entry billing retired)) ∷ (("orders", none) ∷ [])
