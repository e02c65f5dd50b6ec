-- ===== src/Lib.antt =====
-- OpenDating: a dating protocol that runs as an extension of a Nostr relay. A client sends an
-- encrypted request to the public key of a service; the router checks it and hands it to the
-- service, which reads and writes a SQL database and answers with an envelope. The relay is a
-- durable object that holds WebSocket connections: it authenticates them, checks and stores events,
-- answers subscriptions from caches and a database, delivers new events to open subscriptions, and
-- survives its eviction from memory. An EVENT message runs through the checks of the connection and
-- the settings, then to the extension, if one takes it, then through the policy for private
-- messages to the table of events.
--
-- The parts, and the file that models each (paths of the code from the repository's root):
--   Store          the tables of migrations/ as lists of rows, with the types of
--                  src/protocols/opendating/storage/d1/membership.ts
--   World          what a request reads from outside: clock, key material, randomness, JSON, and
--                  the state of the database passed on explicitly by a monad whose errors keep the
--                  statements that were already carried out
--   Membership     src/protocols/opendating/storage/d1/membership.ts: Keys (initMembershipKeys,
--                  deriveMemberId, encryptString, decryptString), Members (getMember, ensureMember,
--                  pauseMember, resumeMember, deleteMember, setVisibility), Profiles
--                  (updateProfileContent, getProfileContent, syncDiscoveryIndex, batch reads)
--   Services       src/protocols/opendating/services/: DmPolicy, Block, Matcher, Discovery (its
--                  parts Preferences, Grants, Cards, Candidates), Profile, Deletion, Moderation,
--                  System, each with `handle`, which dispatches to one function per request type
--   Protocol       src/protocols/opendating/protocol/: Envelope, Validation, Messages, Routes
--   Transport      src/protocols/opendating/transport/router.ts (Router), services/registry.ts
--                  (Registry), storage/d1/idempotency.ts (Idempotency)
--   Crypto         src/protocols/opendating/crypto/encryption.ts: Hex, Padding, Payload
--   Relay          src/relay/: RateLimit (rate-limit/buckets.ts), Kinds (protocol/validation.ts),
--                  Filters (queries/complexity.ts, cache/classification.ts), Extensions
--                  (services/registry.ts)
--   Housekeeper    src/cloudflare/housekeeper.ts
--   Events         src/relay-worker.ts: Store (saveEventToDatabase and its tables), Process
--                  (processEvent, processDeletionEvent), Model (verifyEventSignature); src/config.ts
--                  with src/relay/policy/default-policy.ts: Config
--   Connection     src/durable-object.ts: State (sessions, attachments, storage), Checks and Publish
--                  (handleEvent), Subscribe (handleReq, handleCloseSubscription), Auth
--                  (handleAuth), Matching (matchesFilter), Cache (getCachedOrQuery and the index),
--                  Broadcast (broadcastToLocalSessions, handleDOBroadcast), Socket
--                  (handleMessage, the handlers of the platform, hibernation, alarm). Outcomes and
--                  Induction hold an induction over these handlers, which the theorems on messages
--                  share; Reach is the relation of reachable states, and Admitted is what
--                  an event must be that is stored
--   Gateway        src/protocols/opendating/: Incoming and Extension (extension.ts), Wraps
--                  (crypto/gift-wrap.ts), Identities (identities/registry.ts)
--   Safety, and the modules beside the definitions named for what they prove: the theorems, with
--                  what keeps members safe across the services under Safety
--   Prelude, Text, Json: shared helpers; Tests: fixtures and applications at concrete inputs
--
-- How the code is modelled. A handler is a function from the world, the request and the database to
-- a result and the database afterwards; a result is an envelope or a thrown error. A SQL statement
-- is a function on the list of rows of its table: INSERT OR IGNORE and INSERT OR REPLACE look for a
-- row with the same key, an UPDATE maps, a DELETE filters, ORDER BY sorts stably. Values of
-- JavaScript that come from a client are values of Json, with the tests of the code (typeof,
-- truthiness, Array.isArray) written out. Numbers of Json are fractions of natural numbers with a
-- sign; the rates of the token buckets are fractions of natural numbers.
--
-- Parameters of the model, with what is assumed of them where a theorem needs it: the hashes, the
-- ciphers, the signatures and the conversation keys of the libraries; the JSON text functions, UTF-8,
-- btoa and atob of the platform, and how many arguments a call can have; how many parameters a
-- statement of the database can have, where the ids that a deletion names are bound; the clock, the
-- random bytes, the services that a registry holds, the verdict of the platform's AI, and the query
-- of stored events (`queryEvents`).
--
-- Bounds and fuel. The padded length of NIP-44 needs the next power of two; it is computed on 31
-- steps, which reach 2 ^ 31, where the code's 32-bit shift turns negative. The search of the
-- discovery service visits one cell in each of three tiers at most, as the code does. All other
-- recursion is structural, on lists.
--
-- Not modelled: errors of the database but for values it cannot bind and too many of them in the
-- query of the owners of events, its foreign keys, rounding of doubles, and statements of several
-- requests interleaved. Of an event, kinds and times are natural numbers, and a field has its type
-- or is `undefined`: a null content, which handleEvent refuses and handleAuth does not, is left
-- out. Queries that run at the same time and the bookmarks of sessions are left out, as are the SQL
-- of the queries, the pruning of old events, the HTTP pages and the choice of an object
-- (src/relay-worker.ts), the loading of service keys, blossom, and the queue; worker.js is built
-- from the modelled files.
pub mod Prelude
pub mod Json
pub mod Store
pub mod Text
pub mod Crypto
pub mod World
pub mod Membership
pub mod Protocol
pub mod Services
pub mod Safety
pub mod Events
pub mod Connection
pub mod Transport
pub mod Relay
pub mod Housekeeper
pub mod Tests
pub mod Gateway
