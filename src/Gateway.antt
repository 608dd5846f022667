-- ===== src/Gateway.antt =====
-- What src/server/HttpRouter.js lets in: its requests, and the upgrades to WebSockets.
pub mod Auth
pub mod Upgrade
pub mod Credentials
pub mod Admission
pub mod Routes
pub mod Reserved
pub mod Admin
pub mod Updates
pub mod Tests
