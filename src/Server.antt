-- ===== src/Server.antt =====
-- internal/server: who may send a request, what the forms are read as, what the handlers do, and
-- health.
pub mod Requests
pub mod Invites
pub mod Handlers
pub mod Health
pub mod Pages
pub mod Mux
pub mod Routes
pub mod Tokens
pub mod Events
pub mod Wording
pub mod Templates
