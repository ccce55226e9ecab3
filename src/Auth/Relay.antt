-- ===== src/Auth/Relay.antt =====
-- packages/nextjs/services/auth/relayPolicy.ts, relayExecutor.ts and relayContracts.ts: which
-- contract calls the relay may sign, how it does, and the divisions it reads for that.
pub mod Value
pub mod CoerceArg
pub mod Policy
pub mod Contracts
pub mod Executor
pub mod Divisions
pub mod Revert
