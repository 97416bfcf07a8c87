-- ===== src/Callback.antt =====
-- electron/main/callback/ and src/shared/callback/: requests of terminals to the application.
pub mod Protocol
pub mod Classify
pub mod Broker
mod Tests
