-- ===== src/Server.antt =====
-- shared/server: the gRPC server of a service, how it is built, and how it runs and stops.
pub mod Interceptors
pub mod Grpc
pub mod Factory
pub mod Lifecycle
