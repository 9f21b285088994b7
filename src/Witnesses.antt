-- ===== src/Witnesses.antt =====
-- Concrete instances of the theorems, and small runs of the definitions.
mod Data
mod Breaker
mod Throttling
mod Traffic
mod Production
mod Server
mod Tokens
mod Writes
mod Services
mod Requests
mod Monitoring
mod Client
mod Outside
mod Jwt
mod Keycloak
mod Settings
mod Operations
