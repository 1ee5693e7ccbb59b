-- ===== src/Control.antt =====
-- crates/controlplane/src: users, policies, sessions, and the handlers of the service.
pub mod Table
pub mod Sessions
pub mod Auth
pub mod Service
pub mod Registry
pub mod Login
mod Tests
