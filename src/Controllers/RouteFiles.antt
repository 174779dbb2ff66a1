-- ===== src/Controllers/RouteFiles.antt =====
-- internal/server/controllers/v1/route_files.go: the segments of a route, from its row and from the
-- directories of its uploads.
pub mod Names
pub mod Segments
pub mod Sorting
pub mod Ordered
pub mod Files
mod Tests
