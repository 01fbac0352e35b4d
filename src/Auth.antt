-- ===== src/Auth.antt =====
-- services/auth: the authentication service.
pub mod Bearer
pub mod Models
pub mod Platform
pub mod Jwt
pub mod Repository
pub mod Cache
pub mod Oauth
pub mod Service
pub mod Proto
pub mod Handler
pub mod Main
