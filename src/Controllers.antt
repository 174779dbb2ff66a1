-- ===== src/Controllers.antt =====
-- internal/server/controllers: the handlers behind the middleware.
pub mod Handler
pub mod Devices
pub mod Navigation
pub mod Pilot
pub mod RouteFiles
pub mod Ownership
pub mod Upload
