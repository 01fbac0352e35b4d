-- ===== src/Lib.antt =====
-- ReMaster, a marketplace of services behind an API gateway: the error contract that all services
-- share, the authentication service, the gateway in front of it, the connection managers, the
-- configuration, the gRPC server that services are built on, and the logger.
--
-- How the parts interact. A client's request reaches the gateway, which calls the authentication
-- service over gRPC (services/auth/handlers/handler.go). The service (services/auth/services) works
-- on users and refresh tokens in MongoDB (services/auth/repositories), on a counter of failed logins
-- and a copy of the refresh tokens in Redis (services/auth/cache), on signed access tokens
-- (services/auth/utils/jwt.go) and on identity providers (services/auth/oauth). Its failures are the
-- application errors of shared/errors, which become a gRPC status in the service and an HTTP answer
-- in the gateway. Both processes load the configuration of shared/config.go. The service is built by
-- shared/server/server_factory.go, which connects the databases through the singletons of
-- shared/connection and serves by shared/server/grpc.go until a signal comes.
--
-- Which module models what.
--   Errors.Types, Errors.Mapping: shared/errors/types.go, `AppError`, its factories, `ToGrpcCode` and
--     `GrpcToHTTP`. An error value is a data type with the source's own errors and those of the
--     libraries that the source tests for.
--   Errors.Chain: `errors.Is`, `errors.As` and `Error` over these values.
--   Errors.Handlers: shared/errors/handlers.go, each handler as a function from an error to the status,
--     the body and the level of the log record.
--   Errors.Validator: shared/errors/validator.go.
--   Exec: calls that may fail. `(T, error)` is a `Result`; a method is an action, a function from the
--     world to its result and the world after it, which keeps what a failing call has changed.
--   Auth.Platform, Redis: what the service calls and does not implement, one field per call, over an
--     abstract world: the drivers, bcrypt, tokens, the clock, randomness, HTTP and JSON.
--   Auth.Models, Auth.Jwt, Auth.Repository, Auth.Cache, Auth.Oauth: the files of services/auth of these
--     names, one function per method.
--   Auth.Service: services/auth/services/service.go, one module per operation (Register is
--     `CreateUser`, Login is `AuthenticateUser`, Password is `ChangePassword`).
--   Auth.Proto, Auth.Handler: the messages of shared/proto/auth and the RPCs of
--     services/auth/handlers/handler.go.
--   Gateway.Context: what the gateway calls and does not implement: gin's context, the service's client,
--     the decoding of bodies, over an abstract context.
--   Gateway.Middleware: services/api-gateway/middleware; a middleware is a function of what `c.Next()`
--     runs. Gateway.Routes: the chain of middleware and the health report of
--     services/api-gateway/server/routes.go. Gateway.Models, Gateway.Handlers: the gateway's handlers
--     (services/api-gateway/handlers, utils and models). Gateway.Answers: both services together.
--     Gateway.Routes.Table: its table of routes. Gateway.Server: the connections to services of
--     services/api-gateway/server/server.go, and Gateway.Server.Lifecycle the goroutines of a running
--     gateway, a step relation. Gateway.Middleware.Window: many requests in one window of the limit.
--     Gateway.Main: services/api-gateway/main.go.
--   Auth.Service.Login.Gate: an abstract counter of failed logins, which a series of logins refines
--     (Auth.Service.Login.Refines, Auth.Service.Login.Series). Auth.Service.Register.FirstLogin and
--     Auth.Service.Login.Session: operations one after another. Auth.Service.Refresh.Interleave:
--     exchanges of one token at the same time, a step relation.
--   Connection: the managers of shared/connection, a state and a driver, and the commands of Redis.
--   Config, Config.Loading: shared/config.go, the validation and the addresses of services, and LoadConfig.
--   Server.Interceptors, Server.Grpc: shared/server/interceptors.go and shared/server/grpc.go; a handler is
--     a function that returns or panics. Server.Factory: shared/server/server_factory.go, with the
--     singletons of the process. Server.Lifecycle: the goroutines of a running server, a step relation.
--     Auth.Main: services/auth/main.go. Auth.Bearer: services/auth/middleware/middleware.go.
--   Logger, Logger.Pretty: shared/logger/logger.go, the functions on loggers and the text of a record.
--   Samples: implementations of the drivers, Auth.Platform and Gateway.Context in memory; Tests: runs on them.
--
-- Conventions. Numbers are natural; identifiers are the twelve bytes of an ObjectID as one number;
-- times are in nanoseconds since 1970, and a difference of two times is an integer. MongoDB keeps times
-- in whole milliseconds, which the assumption on a document that is found again says (`MakesToken`).
-- Strings are measured in bytes, as in Go. A Go map is an association list with lookup, insertion and
-- deletion.
-- No loop needs fuel: each follows a list, and the at most three retries of `CreateUser` are the
-- parameter `retry` of the platform, of which Auth.Service.Register.Retry states what is assumed. That a
-- running server stops is stated of its step relation (`Inevitable` of Prelude.Runs: every run, whichever
-- steps it takes, comes there).
-- Assumptions on the platform are records that a theorem takes (`Counts`, `StoresToken`, `StoresUsers`,
-- `MakesToken`, `Views`, `Entries`, `Stores`, `Signs`, `Serves`, `Windows`, `Promises`, `Tracks`) or
-- named statements (`Retries`, `Fills`, `RejectsLength`, `Decodes`, `Observes`, `KeepsRole`); the modules of Samples and
-- the tests show that they can hold.
--
-- What is not modelled: log records, but for the level in Errors.Handlers and the text in Logger.Pretty;
-- contexts and deadlines, but for the cancellation of a running server; how gin, net/http and grpc
-- serve, which is a parameter or a step; generated code, but for the messages' fields; and the
-- services that are stubs.
pub mod Prelude
pub mod Errors
pub mod Exec
pub mod Redis
pub mod Auth
pub mod Gateway
pub mod Server
pub mod Connection
pub mod Config
pub mod Logger
pub mod Samples
pub mod Tests
