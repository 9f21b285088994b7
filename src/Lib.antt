-- ===== src/Lib.antt =====
-- The API Center gateway: a registry of services, a proxy in front of them, and what guards it.
--
-- Parts, and how they meet. A service registers itself with the registry (registry/) under a
-- manifest that names its address, the scopes it requires and the services it consumes. It then
-- asks for a token (auth/), whose scopes the registry determines. A request to a service passes the
-- rate limiter and a guard, and then a proxy handler (shared/proxy-handler.ts), one for each
-- namespace, which asks the registry where the service is and whether the caller may reach it, asks
-- a circuit breaker (shared/circuit-breaker.ts) for each service whether to try, and forwards.
--
-- Files. The paths are those of the repository.
--   Common          texts as truth values, lists, and objects as association lists in order of
--                   insertion
--   Errors          src/shared/errors.ts, and GoneError of src/shared/proxy-handler.ts
--   CircuitBreaker  src/shared/circuit-breaker.ts: `try_acquire` is tryAcquire, and so on; a method
--                   takes the object and returns the new one. Schedule has any order of events.
--   Registry        src/registry/registry.service.ts and src/types/index.ts. State has the fields of
--                   RegistryService and the calls that it makes; Registration has register,
--                   deregister and seed; Lifecycle has deprecate, retire and activate; Lookups,
--                   Health and Hydration have the rest. Automaton has all operations as one step
--                   function, and the specification of it: an automaton for each service alone;
--                   its child Interleaving adds the halves of registrations that overlap and the
--                   loads from Redis, in any order.
--                   Controller is src/registry/registry.controller.ts, and its Validation
--                   src/shared/dto/service-manifest.dto.ts.
--   Auth            src/auth/auth.service.ts, src/auth/guards/, the handlers of
--                   src/auth/auth.controller.ts, and validateSecret of the registry; DevJwt and
--                   Keycloak are the two providers of src/auth/providers/, and Provider has the choice
--                   between them in src/auth/auth.module.ts
--   Throttler       src/shared/redis-throttler-storage.ts, with the variant in Redis in the child
--                   Redis, and src/shared/guards/tribe-throttler.guard.ts
--   Proxy           src/shared/proxy-handler.ts
--   Journey         the parts one after the other, from the token endpoint to the upstream
--   HealthMonitor   src/registry/health-monitor.service.ts
--   External        src/external/external.service.ts, and in Controller the controller with the
--                   request that the service makes; Apis has src/external/apis/
--   Namespaces      src/tribes/tribes.controller.ts and
--                   src/shared-services/shared-services.controller.ts
--   Kafka           src/kafka/: the topics, the schemas, the producer and the consumers. Delivery
--                   has what reaches the producer over many calls of publish. Events has the payload of every event that the program publishes, that of
--                   src/shared/interceptors/audit-log.interceptor.ts included.
--   Config          src/config/: the settings, their check, and the merge of the secrets
--   Middleware      src/shared/middleware/security.middleware.ts and
--                   src/shared/interceptors/correlation-id.interceptor.ts
--   Metrics         src/metrics/metrics.service.ts and src/metrics/metrics.interceptor.ts
--   HealthCheck     src/health/health.controller.ts and src/external/admin.controller.ts
--   Sdk             src/sdk/TribeClient.ts: errors and retries; Session has the token, Backoff the
--                   delays, Calls the methods that call the gateway
--   ExceptionFilter src/shared/filters/all-exceptions.filter.ts
--   Witnesses       instances of the theorems, and small runs
--
-- How the code is read. State is passed explicitly. `Date.now()` and `toISOString()` are
-- arguments. An object that is used as a map is read at its own keys, in order of insertion: no id
-- of a service is taken to be the name of a member of Object.prototype, such as `constructor`,
-- which the code would find there, and keys that read as array indexes, which JavaScript moves to
-- the front, are not treated apart. `null`, `undefined` and an absent field are one value, `none`.
-- The names of headers that the gateway sets stand in lower case, as Node compares them without
-- regard to case. A thrown error is a value of `Result`. What a promise of a client settles to is
-- an argument, chosen by the caller of the model: Redis may acknowledge or refuse any write.
-- `register` is split at its `await` into `register_begin` and `register_settle`; `register`
-- itself runs one after the other. Log lines are left out. Numbers are unbounded: times, counts
-- and versions stay far below 2^53. There is no fuel: all recursion is on lists or numbers.
--
-- Parameters. The environment, SHA-256, the package jose, Keycloak's answers, the Redis server of
-- the rate limiter, zod's safeParse, the tests of class-validator, the middleware that
-- http-proxy-middleware creates, random numbers, and RegExp on a name with special characters are
-- arguments of what calls them, and so is what a request of axios settles to. Their laws are what
-- their documentation says: jose accepts what it signed until it expires, Redis counts and expires
-- keys, safeParse succeeds on what conforms to the schema. NestJS constructs all providers before
-- it calls any onModuleInit.
--
-- Not modelled: logging and tracing; key generation and the JWKS document; the wiring of NestJS. The
-- commands that one call of the rate limiter sends to Redis run at one time, and errors of that
-- client, which the code passes on, are left out.
pub mod Common
pub mod CircuitBreaker
pub mod Errors
pub mod External
pub mod Registry
pub mod Auth
pub mod Sdk
pub mod Throttler
pub mod HealthMonitor
pub mod Journey
pub mod Kafka
pub mod Config
pub mod Metrics
pub mod Middleware
pub mod Namespaces
pub mod HealthCheck
pub mod ExceptionFilter
pub mod Proxy
pub mod Witnesses
