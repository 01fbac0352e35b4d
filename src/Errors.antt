-- ===== src/Errors.antt =====
-- shared/errors: application errors, error chains, the mapping to gRPC and HTTP, the validator.
pub mod Types
pub mod Chain
pub mod Mapping
pub mod Handlers
pub mod Validator
