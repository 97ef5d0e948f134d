-- ===== src/Lib.antt =====
-- Verification of stdgo, a Go library of building blocks for services.
--
-- The parts and how they interact. A request reaches an HTTP handler through
-- stdcrpc/stdcrpcwritefence, which reads a signed cookie and pins a new one after a write, and
-- through fx/stdcrpcauthfx, which authenticates a bearer token and checks the scope of the
-- procedure; stdcrpc/stdcrpcaccess is an alternative to it whose application decides which
-- procedures a caller may use. The interceptor of fx/stdcrpcenttenancyfx puts the database role of
-- the procedure on the context. The handler opens its transactions through the entry points of
-- that package, which ask for a role and mark the context; they call stdent, which retries on
-- serialization failures and sends reads to one of two transactors; its ent driver sets a
-- transaction up with the text of the tenancy hook before it hands it out. stdtx runs the same
-- protocol over other drivers, of which stdtx/stdtxpgxv5 is the one for pgx; the workers of
-- fx/stdriverfx do their jobs, and complete them, in its transactions. fx/stdauthnfx authenticates
-- requests by API keys of its own or by a provider's tokens. The Temporal packages carry the
-- claims and the role of a request to the activities of its workflows, seal the payloads of a
-- namespace with its key, and validate every message on the way in and out.
--
-- The files.
-- - Base: the shared names of the library, Boolean tests, lists, and integers over the native
--   numbers.
-- - Go: error values with their chains (Errors), chains of results (Results), context values
--   (Context), how a call ends (Outcome), integers in decimal (Format), and functions of package
--   strings (Strings).
-- - Failsafe: the retry executor of failsafe-go, a parameter with its documented behaviour.
-- - Stdtx: stdtx/context.go (Scope), stdtx/driver.go (Driver), stdtx/transactor.go (Transact).
-- - Pgx: stdtx/stdtxpgxv5/driver.go and options.go (Driver), tx.go (Wtx), over the pgx library
--   (Library); fx/stdpgxtxfx/transact.go (Wiring), connect_tx.go and http_json_tx.go (Responses).
-- - Pools: fx/stdpgxfx/db.go; what its connections go through (Connecting).
-- - Stdent: stdent/context.go (Scope), transactor.go (Transactor), transact.go (Transact),
--   readpromote.go (Promotion), driver.go (Driver), wtx.go (Budget), stdenttypeid/id.go (TypeId),
--   fx/stdenttxfx/transact.go and transact_rwonly.go (Wiring).
-- - Access: stdcrpc/stdcrpcaccess/auth.go.
-- - Authz: fx/stdcrpcauthfx/access_control.go (Strings, Scope, Access) and tenancy.go (Access,
--   Tenant).
-- - Tenancy: fx/stdcrpcenttenancyfx, by its context markers (Roles), transact.go (Gate),
--   stdcrpcenttenancyfx.go (Hook, Quote) and interceptor.go (Interceptor).
-- - Writefence: stdcrpc/stdcrpcwritefence/interceptor.go and writefence.go (Intent, Middleware).
-- - Temporal: fx/stdcrpcauthfx/stdcrpcauthtemporalfx (Header, Claims),
--   fx/stdcrpcenttenancyfx/stdcrpcenttenancytemporalfx (Role), both together (Journey);
--   fx/stdtemporalcodecfx (Codec); fx/stdtemporalfx, by interceptor_client.go and
--   interceptor_worker.go (Interceptors), workers.go (Workers) and temporal.go (Client).
-- - Authn: fx/stdauthnfx, by context.go (Access), api_key.go, access_token.go and authenticate.go
--   (Authenticate, ApiKeys), interceptors.go (Interceptors, Reaching) and access_control.go
--   (Startup), over the libraries it calls (Library).
-- - River: fx/stdriverfx, by transact_worker.go (River, Completion), enqueuer.go and work.go
--   (River, Lifecycle).
-- - Httpware: stdhttpware.
-- - Lambda: stdlambda/invoker.go and handler_func.go.
-- - Crpc: stdcrpc/arg_read.go and stdcrpc/stdcrpcintercept/validate_response.go.
-- - Must: stdlo/must.go.
--
-- How the state is modelled. What a library or a database keeps is a state type S, a parameter,
-- and each call that changes it is a function from S to S with its result; a law about such calls
-- speaks of a transaction's status and of the number of commits. A context is the list of the
-- values put on it. A call of Go that returns a value and an error ends in an Outcome: it returns,
-- panics, or exits its goroutine; the deferred calls are written where they run. Texts of errors
-- keep their fixed words; the arguments formatted into them are left out, since nothing reads them
-- back.
--
-- Parameters. The executor of failsafe-go, drivers, ent clients, pgx, authn, jwx, securecookie,
-- the response writer, the protobuf registry and encodings, protovalidate, the SDKs of Temporal,
-- River and AWS, the parser of connection strings, Tink's encryption, JSON, url.Parse, netip and
-- uuid.Parse are parameters; the records that state their laws say what is relied on, and each
-- Tests or Sample file gives an instance that keeps them.
--
-- Bounds and fuel. The retries of the executor are counted by its own policy, and no definition of
-- the source's code runs on fuel. The reader of the hook's text takes a fuel of 3, one more than
-- the two settings that the hook can write. A driver's number of retries is a natural number; a
-- negative one, which failsafe-go reads as no limit, is left out. The timeout of the ent driver
-- wraps around as an int64 does; that of a River job is the source's for deadlines below the 292
-- years at which time.Until saturates. The TTL of a cookie is in whole seconds, which agrees with
-- the source's float64 below 2 ^ 22 seconds.
--
-- Not modelled: logging, fx wiring, network and file access, generated code, concurrency between
-- goroutines, and the parts that the list of the modules above does not name.
pub mod Base
pub mod Go
pub mod Failsafe
pub mod Stdtx
pub mod Pgx
pub mod Pools
pub mod Stdent
pub mod Access
pub mod Authz
pub mod Temporal
pub mod Tenancy
pub mod Writefence
pub mod Authn
pub mod River
pub mod Httpware
pub mod Lambda
pub mod Crpc
pub mod Must
