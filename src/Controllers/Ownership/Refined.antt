-- ===== src/Controllers/Ownership/Refined.antt =====
-- The handlers of internal/server/controllers/v1/devices.go and v2/pilot.go keep to the abstract machine of
-- the owners.
use rtz_server.Base.{List}
use rtz_server.Models.Gorm.{Gorm}
use rtz_server.Models.Writes.{Writes}
