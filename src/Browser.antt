-- ===== src/Browser.antt =====
-- The code that runs in the browser: packages/nextjs/utils.
mod Tests
pub mod ProofStorage
pub mod Navigation
