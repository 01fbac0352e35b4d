-- ===== src/Gateway/Middleware.antt =====
-- services/api-gateway/middleware. A handler is a function on the context; the argument `next` of a
-- middleware is what `c.Next()` runs, and a middleware that aborts does not run it.
pub mod Auth
pub mod Common
pub mod Access
pub mod Replies
pub mod Window
