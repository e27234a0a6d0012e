-- ===== src/Lib.antt =====
-- Lockr, a secrets server: HTTP handlers over a policy engine, versioned secrets, transit keys and
-- several ways to authenticate, all kept in one Badger database. Records of secrets and transit keys
-- are sealed with AES-GCM under a key that is derived from the master key and the record's own key.
--
-- The files, by the code they are about (paths from the repository's root):
--   Base          shared names: bytes as lists of numbers, package strings, decimal text, Go's int,
--                 maps as association lists
--   Result        errors as values, one constructor for each place that makes or wraps one, and methods
--                 that change a state and may fail (Exec); Result/Follows has the rules for a relation
--                 between the states before and after a method
--   Keys          the keys of the records, from internal/secrets, internal/auth and internal/api
--   Platform      what is outside: BadgerDB, the clock, randomness, AES-GCM, HKDF, Argon2id, SHA-256 and
--                 the codecs of records, with the laws that their documentation states (Platform/Laws)
--   Policy        internal/policy/policy.go: Engine, Allowed, matchPath, LoadAll
--   Storage       internal/storage: badger.go (Db, Listing) and crypto.go (Crypto); Sealed has what a
--                 write leaves for the reads of every key, Frame what a method leaves alone, Elapsed
--                 the order of the outside calls; the files
--                 named Spares and Onward say it of each component and of each handler
--   Secrets/Kv    internal/secrets/kv.go: Get, Set, Delete, Versions, Rollback, List
--   Secrets/Transit  internal/secrets/transit.go: CreateKey, Rotate, Encrypt, Decrypt, Info
--   Auth          internal/auth: session.go, admin.go, user.go, ed25519.go (Challenge), totp.go
--   Audit         internal/audit/audit.go: Log and Query
--   Api           internal/api: the requests and responses, authMiddleware (Authenticate), the handlers
--                 of secrets and transit keys (Kv, Transit, Access), the whole state of the server and
--                 the entries of the audit log (Site, Operation: server.go, middleware.go), the handlers of login
--                 (Login: auth_handlers.go), of users and of the system (Manage: user_handlers.go,
--                 sys_handlers.go), and the routes with their middleware, from a request to its answer
--                 (Routes, with Mux for http.ServeMux: router.go, middleware.go), and the envelope of
--                 an answer (Envelope: response.go)
--   Config        internal/config/config.go: Defaults, Load, validate
--   Server        internal/server/server.go: Run up to listening; bootstrapAdminToken of
--                 cmd/lockr/main.go; Server/Running is the server while it listens, a sequence of
--                 requests, prunings of the challenges and reloads of the policies, and
--                 Server/Running/Start the components that Run hands to api.New
--   Client        pkg/client/client.go; Client/Net has what both clients take from net/http, crypto/tls
--                 and encoding/json; Client/Example is examples/go/main.go
--   Cli           cmd/lockr/main.go: the HTTP client of the command line (Cli), the commands that send
--                 a request (Cli/Commands), the passwords that they ask for and enroll (Cli/Files,
--                 Cli/Enroll), and init (Cli/Init, Cli/Certificates)
--   Tests         a toy platform that meets every law, concrete runs, and one application of each
--                 theorem with hypotheses
--
-- State and steps. A method is a function from a state to a result and a new state; what was written
-- before an error stays written. The state is the database and a counter of outside calls, so that two
-- reads of the clock or of the random source may differ. The challenges of ed25519.go add their map,
-- and the policy engine is a state of its own. Locks guard single accesses and are not modelled. Calls
-- run one at a time: two requests that interleave inside one method are not modelled.
--
-- Bounds. Go's int is its 64-bit pattern, with the signed order and wrap-around; the theorems on
-- versions assume that numbers stay below 2 ^ 63. The loop of Versions runs on fuel 10, which is
-- enough, since its window holds at most ten versions; the digits of n
-- are written on fuel n + 1, and no other loop needs fuel. A text of the program
-- is a list of numbers that stand for its bytes.
--
-- Texts in records are taken to be UTF-8: encoding/json replaces other bytes, and the law of the codecs
-- speaks of records that are read back as they were written.
--
-- Interfaces. A component takes the platform and its own record of codecs (KvStore, TransitStore,
-- SessionStore, UserAuth, Ed25519, Totp) as parameters; its laws are one record (KvLaws,
-- TransitLaws, UserLaws), which the toy platform fills.
--
-- A request. `Api.Routes.serve` is one request to the whole server: the request id, the multiplexer
-- before the authentication, the handlers that anyone may call, and behind auditMiddleware and
-- authMiddleware the inner multiplexer with the handlers of secrets, transit keys, users and the
-- system. http.ServeMux takes the longest pattern that fits, and redirects a path that is not clean or
-- that lacks its last slash; cleaning and the unescaping of a segment
-- are parameters, and CONNECT is left out. The goroutine that prunes
-- the challenges and the reload of the policies on SIGHUP are steps of their own. The policy files may
-- differ at each load, but stay as they are during one. The clients act on
-- an abstract world behind `Wire.send`; Cli/Commands/LoggedIn puts the modelled server there.
--
-- Folders. `Api.Routes.Folders` has a table of the folders of the database that the handler of each
-- route may write; sessions and the audit log belong to every route behind the authentication. Whether a
-- key lies outside a folder is decided by comparing the two texts (`Keys.Folders.clash`).
--
-- Files of init. The operating system is an abstract state with the contents of its files; its laws say
-- that a write is read back and that a call changes no other file. The database of the data directory is
-- a state beside the files.
--
-- Not modelled: the writing of headers and JSON to a connection, and the bodies of net/http for redirects
-- and unknown paths; opening and closing of files and of the database; listening and
-- shutdown; the parsing of flags and the fixed texts that commands print. In development mode the audit
-- log is nil and its query panics, which is an error here. A nonce of a wrong length in a key file and a
-- public key of a wrong length, on which the libraries panic, are answered by the parameters like any
-- other.
pub mod Base
pub mod Result
pub mod Keys
pub mod Platform
pub mod Policy
pub mod Storage
pub mod Secrets
pub mod Auth
pub mod Audit
pub mod Api
pub mod Config
pub mod Client
pub mod Cli
pub mod Server
pub mod Tests
