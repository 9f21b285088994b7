-- ===== src/Registry.antt =====
-- registry/registry.service.ts: the service registry. The children hold its types, version
-- governance, state, operations, and what is proved of them.
pub mod Types
pub mod Semver
pub mod State
pub mod Registration
pub mod Lifecycle
pub mod Lookups
pub mod Health
pub mod Hydration
pub mod Automaton
pub mod Controller
