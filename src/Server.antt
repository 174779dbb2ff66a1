-- ===== src/Server.antt =====
-- internal/server: the middleware, the table of routes and the controllers.
pub mod Http
pub mod Middleware
pub mod Rpc
pub mod Routes
