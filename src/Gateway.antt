-- ===== src/Gateway.antt =====
-- services/api-gateway: the HTTP front of the services.
pub mod Models
pub mod Context
pub mod Middleware
pub mod Handlers
pub mod Routes
pub mod Answers
pub mod Server
pub mod Main
