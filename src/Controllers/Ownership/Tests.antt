-- ===== src/Controllers/Ownership/Tests.antt =====
-- A device that is given up and then taken over by another user, by the handlers of
-- internal/server/controllers/v1/devices.go and v2/pilot.go.
use rtz_server.Base.{true, false, [], ◌∷◌, some}
use rtz_server.GoText.{codes}
use rtz_server.Models.Rows.{User, Database}
use rtz_server.Models.Fixtures.{sample_user, sample_device, sample_database}
use rtz_server.Jwt.{Token}
use rtz_server.Server.Http.{of_user, Context}
use rtz_server.Server.Middleware.Fixtures.{known_request}
use rtz_server.Controllers.Devices.Pairing.{without_owner}
use rtz_server.Controllers.Pilot.{PilotPairJwtClaims, Paired}
use rtz_server.Controllers.Pilot.Pairing.{taken_by}

abbrev left_database : Database
left_database = without_owner sample_device sample_database

abbrev other_user : User
other_user = record sample_user { id = 8 }

abbrev pair_token : Token PilotPairJwtClaims
pair_token = record {
  claims = record { expires_at = some 1; identity = codes "d1"; pair = true };
  is_hmac = false;
}

abbrev pair_request : Context
pair_request = record known_request { db = some left_database; user = some (of_user other_user) }

abbrev paired : Paired
paired = record { first_pair = true; dongle_id = codes "d1" }

abbrev taken_database : Database
taken_database = record sample_database { devices = taken_by other_user sample_device ∷ [] }
