-- ===== src/Lib.antt =====
-- Verification library of the Meridian backend, a NestJS server for collaborative documents:
-- members with roles, share links, Yjs updates stored as operations with Lamport clocks, an outbox
-- that delivers them, snapshots, websocket sessions, and AI proposals.
--
-- The services of src/ read and write one Postgres database through drizzle; the model keeps it as
-- a record of tables (Schema.antt) and a service method as a function from the database to a
-- result and a new database (Prelude/Actions.antt). A throw is a result, a transaction that throws
-- restores the database. Ids and times are numbers; what the server draws at random or reads from
-- the clock is an argument.
--
-- - Prelude and its children: Boolean tests, lists, tables with the queries that drizzle builds,
--   actions, sorting.
--
-- - Schema.antt: the tables of src/*/schema.ts. Users.antt: the queries of
--   src/users/users.service.ts.
--
-- - Memberships.antt: src/memberships/memberships.service.ts. Memberships/Roles.antt reads the
--   table as a map from document and user to role, and gives the effect of each method on that
--   map; Memberships/Frames.antt says what each method leaves alone.
--
-- - ShareLinks.antt: src/share_links/share_links.service.ts. ShareLinks/Validity.antt is about the
--   links that validation accepts.
--
-- - Documents.antt: src/documents/documents.service.ts. Documents/Pages.antt: the pages of
--   listUserDocumentsWithRole, with Documents/Pages/Cover.antt on all of them;
--   Documents/Members.antt: getDocumentMembers and the count of members. Documents/Guards.antt:
--   src/documents/documents.guards.ts. Documents/Endpoints.antt: the routes of
--   src/documents/documents.controller.ts that write, each behind its guards, and histories of
--   requests. Documents/Ownership and Documents/Claims are about invariants of such histories.
--
-- - Operations.antt: src/operations/operations.service.ts and the transaction of handleUpdate in
--   src/collaboration/collaboration.gateway.ts; Operations/Clocks.antt is about one update,
--   Operations/Lamport.antt about sequences of them. Yjs.antt: classifyUpdate of
--   src/yjs/yjs.service.ts; Yjs/Classes.antt is about the classes.
--
-- - Outbox.antt: src/outbox/outbox.service.ts and src/outbox/outbox.processor.ts;
--   Outbox/Delivery.antt is about the fate of a row, Outbox/Delays.antt about the delays.
--   Snapshots.antt: src/snapshots/snapshots.service.ts and src/snapshots/snapshot.processor.ts;
--   Snapshots/Replay.antt is about the replay of a history, Snapshots/Compaction.antt about the
--   jobs.
--
-- - Redis.antt: the methods of src/redis/redis.service.ts on keys that hold text, over an
--   interface of Redis commands; Redis/Memory.antt is a Redis that meets its laws,
--   Redis/Methods.antt is about the revocation list and locks, Redis/Methods/Proposals.antt about
--   sequences of requests for proposals. Redis/Presence.antt: its presence hashes and when they
--   expire. Redis/Throttle.antt: its throttle counters and src/redis/redis-throttler.storage.ts;
--   Redis/Throttle/Windows.antt is about the windows of a throttle.
--
-- - Gateway.antt: handleUpdate and the message rate window of
--   src/collaboration/collaboration.gateway.ts. Gateway/Windows.antt is about the windows,
--   Gateway/Writes.antt about who writes. Gateway/Presence.antt: what joins and disconnections of
--   that file do to the presence of a user; Gateway/Presence/Tracking.antt is about histories of
--   them. Gateway/Sessions.antt: handleConnection, Gateway/Sessions/Joins.antt: handleJoin,
--   Gateway/Sessions/Disconnects.antt: handleDisconnect; Gateway/Sessions/Reachable.antt is about
--   the states that sockets bring about.
--
-- - ResetTokens.antt: src/password_reset_tokens/password_reset_tokens.service.ts. Auth.antt:
--   signup, verifyEmail, resendVerificationEmail, login, forgotPassword and resetPassword of
--   src/auth/auth.service.ts; Auth/Accounts.antt is about new accounts, Auth/Resets.antt about
--   password resets. Auth/Tokens.antt: logout and issueNewJwt of that file,
--   src/auth/strategies/jwt.strategy.ts and src/auth/guards/jwt-auth.guard.ts;
--   Auth/Tokens/Revoked.antt is about revoked tokens.
--
-- - Ai.antt: findNearestExactText and the transaction of applyOps in src/ai/ai.service.ts;
--   Ai/Nearest.antt and Ai/Storage.antt are about the two. Ai/Content.antt: checkContentExistence
--   of that file; Ai/Content/Placed.antt is about what it lets through. Ai/Whitespace.antt:
--   findNearestWhitespaceInsensitiveText; Ai/Whitespace/Matches.antt is about what it finds.
--   Ai/Levenshtein.antt: levenshtein; Ai/Levenshtein/Scripts.antt is about scripts of edits.
--   Ai/Validation.antt: validateOperations, with Ai/Validation/Generation.antt: the retries of
--   generateValidatedOps; Ai/Validation/Described.antt is about the operations that items
--   describe. Ai/Chat.antt and Ai/Chat/Requests.antt: chat, proposeChat, acceptProposal and
--   declineProposal and what they call; Ai/Chat/Acceptance.antt is about acceptances,
--   Ai/Chat/Ordering.antt about the order in which edits are applied.
--
-- - Errors.antt: src/common/filters/global-exception.filter.ts and src/ai/errors;
--   Errors/Responses.antt is about what a response says.
--
-- Loops are structural recursions, so no fuel is needed. Requests of one history run one after the
-- other; the interleavings inside Postgres, which locks the rows, are not modelled.
--
-- Left out: the edits of XML text in src/yjs. Not modelled: sending mail, logging, Swagger
-- decoration and module wiring, which write nothing that the services read; the language model
-- behind the AI service; the internals of Yjs, Postgres, Redis and BullMQ, which are third-party
-- code.
pub mod Prelude
pub mod Schema
pub mod Samples
pub mod Users
pub mod Memberships
pub mod ShareLinks
pub mod Documents
pub mod Operations
pub mod Yjs
pub mod Outbox
pub mod Snapshots
pub mod Redis
pub mod Gateway
pub mod ResetTokens
pub mod Auth
pub mod Ai
pub mod Errors
