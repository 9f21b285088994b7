-- ===== src/Auth.antt =====
-- auth/: the provider-agnostic service, the guards, and the token endpoint. The provider that
-- validates and issues JWTs (Keycloak, or a key pair in memory, through the package jose) is a
-- parameter: a function that may throw.
pub mod Service
pub mod Guards
pub mod Secrets
pub mod Issuance
pub mod DevJwt
pub mod Keycloak
pub mod Provider
