-- ===== src/Registry/Automaton/Connection.antt =====
-- No operation changes whether there is a Redis client.
use apicenter_hehe.Common.{◌≡◌, arith}
use apicenter_hehe.Registry.State.{RegistryService}
use apicenter_hehe.Registry.Registration
use apicenter_hehe.Registry.Registration.{admit, stored, announced, rolled_back}
use apicenter_hehe.Registry.Registration.Coherence.{register-Effect}
use apicenter_hehe.Registry.Lifecycle
use apicenter_hehe.Registry.Health
use apicenter_hehe.Registry.Automaton.{
  Op, register, deregister, deprecate, retire, activate, set_health, touch_health, step,
}

pub connected-step : (op : Op) (r : RegistryService) → (step op r).connected ≡ r.connected
unfolding step Registration.deregister Lifecycle.deprecate Lifecycle.retire Lifecycle.activate
    Health.set_health_status Health.touch_health_check
connected-step (register now reply m) r = ground (arith, register-Effect now m r reply)
connected-step (deregister now id) r = ground arith
connected-step (deprecate now id sunset replacement) r = ground arith
connected-step (retire now id) r = ground arith
connected-step (activate now id) r = ground arith
connected-step (set_health now id healthy) r = ground arith
connected-step (touch_health now id) r = ground arith
