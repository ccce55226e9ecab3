-- ===== src/Auth.antt =====
-- packages/nextjs/services/auth, with the routes app/api/auth/login and app/api/auth/password: the
-- relay's policy, sign-in, and the state of the authentication services.
pub mod RateLimit
pub mod LoginGuard
pub mod Session
pub mod Relay
pub mod PasswordPolicy
pub mod NicHash
pub mod Envelope
pub mod AccountRecords
pub mod Accounts
pub mod ClientIp
pub mod Credentials
pub mod Login
pub mod PasswordChange
pub mod Officers
