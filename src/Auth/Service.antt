-- ===== src/Auth/Service.antt =====
-- services/auth/services/service.go: the operations of the authentication service, one module for
-- each, and what they share. Log records are not modelled.
pub mod Tokens
pub mod Register
pub mod Login
pub mod OauthLogin
pub mod Refresh
pub mod Validate
pub mod Password
pub mod Logout
