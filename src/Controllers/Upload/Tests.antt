-- ===== src/Controllers/Upload/Tests.antt =====
-- The functions of internal/server/controllers/v1.4/upload.go on small inputs, and the property of the
-- module below this one there.
use rtz_server.Base.{ℕ, ◌≡◌, ◌⊎◌, refl, true, false, List, ◌∷◌, ◌++◌, none, some}
use rtz_server.GoText.{Str, codes, has_prefix, trim_prefix, skip, is_empty, contains, str_eq}
use rtz_server.LogParser.Scheduler.{RouteInfo}
use rtz_server.Models.Queries.{find_device_by_dongle_id}
use rtz_server.Models.Fixtures.{sample_gorm, sample_database}
use rtz_server.Models.Writes.Fixtures.{sample_writes}
use rtz_server.Server.Middleware.Fixtures.{known_request}
use rtz_server.Controllers.Handler.{answered, failed}
use rtz_server.Controllers.RouteFiles.Names.{
  take_hex, drop_hex, hex_part, is_digit, segment_number, segment_from_upload_dir,
}
use rtz_server.Controllers.Upload.{
  take_digits, after_motonic, new_route_info_from_path, Stored, queue_log, index_upload, put_upload,
}
use rtz_server.Controllers.Upload.Directory.{new_route_info_from_path-segment}
use rtz_server.Controllers.Upload.Parsed.{matched}

abbrev info : RouteInfo
info = record { motonic = codes "aa"; route = codes "aa--bb"; segment = codes "12" }

infos :
    (new_route_info_from_path (codes "aa--bb--12/qlog.bz2") ≡ some info)
    × (new_route_info_from_path (codes "2024-01-01--10-00-00--3/qlog.bz2") ≡ none)
unfolding new_route_info_from_path after_motonic hex_part take_hex drop_hex take_digits has_prefix
    trim_prefix skip is_empty
infos = (refl, refl)

abbrev stored : Stored
stored = record {
  made = true;
  sub = true;
  made_all = true;
  created = true;
  copied = true;
  flushed = true;
  closed = true;
  opens = true;
  header = some (codes "BZh");
  magic = none;
}

abbrev log_path : List ℕ
log_path = codes "aa--bb--12/qlog.bz2"

queues : put_upload sample_gorm sample_writes (λ s. true) (λ s. s) known_request log_path stored ≡ (
  answered tt,
  some sample_database,
  some (record { path = log_path; dongle_id = codes "d1"; route_info = info }),
)
unfolding put_upload index_upload queue_log new_route_info_from_path after_motonic hex_part take_hex
    drop_hex take_digits has_prefix trim_prefix skip is_empty contains str_eq
    find_device_by_dongle_id
queues = refl

refuses :
    put_upload sample_gorm sample_writes
      (λ s. true)
      (λ s. s)
      known_request
      log_path
      (record stored { header = some (codes "PK") })
    ≡ (failed 400 "Invalid file", some sample_database, none)
unfolding put_upload index_upload queue_log new_route_info_from_path after_motonic hex_part take_hex
    drop_hex take_digits has_prefix trim_prefix skip is_empty contains str_eq
    find_device_by_dongle_id
refuses = refl

read : new_route_info_from_path (codes "aa--bb--12x" ++ (b'/' ∷ codes "qlog.bz2")) ≡ some info
unfolding new_route_info_from_path after_motonic hex_part take_hex drop_hex take_digits has_prefix
    trim_prefix skip is_empty
read = refl

new_route_info_from_path-segment_example :
    ((codes "aa--bb--12x" ≡ matched info)
      × (segment_from_upload_dir info.route (codes "aa--bb--12x") ≡ segment_number info.segment))
    ⊎ ((c : ℕ) × (junk : Str) × (codes "aa--bb--12x" ≡ matched info ++ (c ∷ junk))
        × (is_digit c ≡ false)
        × (segment_from_upload_dir info.route (codes "aa--bb--12x") ≡ none))
new_route_info_from_path-segment_example =
    new_route_info_from_path-segment (codes "aa--bb--12x") (codes "qlog.bz2") info read
