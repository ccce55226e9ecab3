-- ===== src/Lib.antt =====
-- A verification library for the web application of the zk_voting repository, packages/nextjs: who
-- may make the election chain do what, and what the browser and the bulk imports rely on.
--
-- packages/nextjs/services/auth is modelled by Auth, services/voters by Voters, services/otp by
-- Otp, services/bulkImport by Bulk and Csv, services/divisions by DivisionCreation, and utils by
-- Browser and Results; a route under app/api is in the module of the service it calls. An
-- operator signs in (a login guard locks a name after repeated failures, a rate limiter counts
-- calls), gets a session with a role, and asks the relay to sign a contract call; the relay's
-- policy decides. An officer invites a citizen, who claims the invite and enrols a device by a
-- transaction of the server. A service that keeps state in a closure or on disk is a record or a
-- table that its operations take and return; a clock is the time that the call reads, in
-- milliseconds; a promise that rejects or an exception that is not caught is the outcome
-- `thrown`.
--
-- - Prelude: tests on numbers, lists, JavaScript strings as lists of UTF-16 code units (Text),
--   `Map` with string keys in the order of insertion (Map), values of JSON (Json), buffers of bytes
--   (Bytes), integers (Int) and outcomes (Outcome).
--   toLowerCase is modelled on ASCII letters and on the two code units whose lower case has an
--   ASCII letter; other letters are left alone. trim removes what JavaScript counts as white
--   space.
-- - Auth/RateLimit: services/auth/rateLimit.ts, createRateLimiter.
-- - Auth/LoginGuard: services/auth/rateLimit.ts, createLoginGuard.
-- - Auth/Session: services/auth/session.ts and utils/chainMode.ts; Auth/Session/Gate is
--   requireSession of services/auth/serverSession.ts and middleware.ts.
-- - Auth/Relay: services/auth/relayPolicy.ts. Value holds the values that the source types as
--   unknown, CoerceArg is coerceArg, and Policy is authorizeRelayCall. Relay/Contracts is
--   buildKnownContracts of services/auth/relayContracts.ts, and Relay/Divisions its
--   loadDivisions, with the cache and the read that concurrent calls share. Relay/Executor is
--   executeRelayCall of services/auth/relayExecutor.ts, and Relay/Revert its describeRevert.
-- - Auth/Login: app/api/auth/login/route.ts. Auth/Credentials is what the route makes of its body and
--   of the credentials, with safeEquals of services/auth/crypto.ts, and Auth/ClientIp is
--   clientIpFrom of services/auth/rateLimit.ts.
-- - Auth/PasswordChange: app/api/auth/password/route.ts.
-- - Auth/Officers: services/auth/gnAccountCreation.ts, createGnOfficerAccount, which calls the
--   account store and the relay, with generatePassword of services/auth/crypto.ts.
-- - Auth/Envelope: services/auth/crypto.ts, encryptSecret and decryptSecret.
-- - Auth/NicHash: services/auth/nicHashAuth.ts.
-- - Auth/PasswordPolicy: services/auth/passwordPolicy.ts.
-- - Auth/AccountRecords and Auth/Accounts: services/auth/accounts.ts, the records and
--   GnAccountStore. Accounts/Records has what every account satisfies, Custody the sequences of
--   calls, and Effects the store as a map from usernames.
-- - Store: the JSON file of both stores, with their read, write and mutate. A mutation holds the
--   queue of its store from its read to its write and is one step; whether the write succeeds is
--   an argument. What changePassword reads before its mutation is an argument too, so that any
--   other calls may come between.
-- - Voters/EnrolmentInvites: services/voters/enrolmentInvites.ts, EnrolmentInviteStore.
-- - Voters/EnrolmentToken: services/voters/enrolmentToken.ts.
-- - Voters/EnrolRelay: services/voters/selfEnrolRelay.ts, executeSelfEnrol.
-- - Voters/SelfEnrol: app/api/self-enrol/route.ts.
-- - Csv: services/bulkImport/rowSource.ts, splitCsvLine.
-- - Bulk/Rows: services/bulkImport/streamRows.ts and utils/readNdjsonRows.ts, the writer and the
--   reader of a stream of results.
-- - DivisionCreation: services/divisions/divisionCreation.ts, createDivisionOnChain, which asks the
--   relay twice; Import is the loop over the rows of app/api/divisions/bulk/route.ts.
-- - Browser: utils/proofStorage.ts (ProofStorage) and utils/navigation.ts (Navigation). What is
--   saved is a value of JSON; publicInputs is typed any[], and with a bigint in it, on which
--   JSON.stringify throws, saving is not covered.
-- - Results: utils/nationalResults.ts.
-- - Otp: services/otp/otpService.ts. Calls and Limits have sequences of calls, Token the tokens.
--
-- The hashes, ciphers, encodings and random draws of the runtime and of third parties are
-- arguments of the definitions that use them, and what a theorem relies on is a hypothesis of it.
--
-- Where a route waits for another service, other requests may run. What it read before is then an
-- argument beside the state that it finds after, or its parts are separate definitions.
--
-- Every function is by structural recursion but scan_causes of Auth/Relay/Revert, the loop of
-- describeRevert over a chain of causes that may be a cycle. Its fuel is one round more than there
-- are objects, which is enough since it visits none twice. The texts of error messages are
-- constructors.
--
-- Not modelled: pages and components, hooks, the Go chain, the Solidity contracts, the Noir
-- circuits, the mobile app, the files that come from the scaffold-eth template, the other routes,
-- and the input and output of the services (files, network, cryptography).
pub mod Prelude
pub mod Store
pub mod Auth
pub mod Voters
pub mod Otp
pub mod Results
pub mod Csv
pub mod Browser
pub mod Bulk
pub mod DivisionCreation
