-- ===== src/Controllers/Upload.antt =====
-- internal/server/controllers/v1.4/upload.go: an upload is stored, and a log of a new route is queued. The
-- storage and the file system's paths are parameters.
pub mod Parsed
pub mod Directory
mod Tests
use Prim.Native.String.{String}
use rtz_server.Base.{
  ℕ, Bool, true, false, not, ◌&&◌, ◌||◌, List, [], ◌∷◌, ◌++◌, Option, none, some, ◌==◌,
  if◌then◌else◌,
}
use rtz_server.GoText.{Str, codes, str_eq, is_empty, contains}
use rtz_server.LogParser.Scheduler.{RouteInfo, Work}
use rtz_server.Models.Rows.{Device, BootLog, CrashLog, Database}
use rtz_server.Models.Gorm.{Gorm}
use rtz_server.Models.Queries.{find_device_by_dongle_id}
use rtz_server.Models.Writes.{Writes}
use rtz_server.Server.Http.{Context, Early, value, answer, ◌>>=◌, require, require_found}
use rtz_server.Controllers.Handler.{
  Reply, answered, failed, Outcome, bad_request, server_error, with_device,
}
use rtz_server.Controllers.RouteFiles.Names.{is_digit, hex_part}

unfoldable pub take_digits : Str → Str
take_digits [] = []
take_digits (c ∷ s) = let rest = take_digits s in if is_digit c then c ∷ rest else []

-- The three groups of `newRouteRegex`, at the start of a path.
abbrev pub route_info : Str → Str → Str → Option RouteInfo
route_info motonic suffix digits =
    if is_empty digits
    then none
    else some
        (record { motonic = motonic; route = motonic ++ codes "--" ++ suffix; segment = digits })

abbrev pub after_route : Str → Option (Str × Str) → Option RouteInfo
after_route motonic none = none
after_route motonic (some (suffix, s)) = route_info motonic suffix (take_digits s)

unfoldable pub after_motonic : Option (Str × Str) → Option RouteInfo
after_motonic none = none
after_motonic (some (motonic, s)) = after_route motonic (hex_part s)

-- `none` where the path is not that of a new route.
unfoldable pub new_route_info_from_path : Str → Option RouteInfo
unfolding after_motonic take_digits
new_route_info_from_path path = after_motonic (hex_part path)

-- `backend_url` is `config.HTTP.BackendURL`, `query_escape` is url.QueryEscape.
pub record UploadUrlResponse : Type 0 where
  pub url : Str
  pub authorization : Str

pub get_upload_url : (Str → Str) → Str → Context → Str → Reply UploadUrlResponse
get_upload_url query_escape backend_url c path = elim c.dongle_id [
  | none ↦ failed 400 "dongle_id is required"
  | some dongle_id ↦
      if is_empty path
      then failed 400 "path is required"
      else answered (record {
        url =
            backend_url
            ++ codes "/v1.4/"
            ++ dongle_id
            ++ codes "/upload?path="
            ++ query_escape path;
        authorization = c.authorization;
      })
]

-- What becomes of the steps on the storage: whether the directories and the file are made, written
-- and closed (an existing directory of the device is no error), whether the file opens again, the
-- bytes that a read gives, and the number that binary.Read reads in 4 bytes.
pub record Stored : Type 0 where
  pub made : Bool
  pub sub : Bool
  pub made_all : Bool
  pub created : Bool
  pub copied : Bool
  pub flushed : Bool
  pub closed : Bool
  pub opens : Bool
  pub header : Option Str
  pub magic : Option ℕ

-- Every step up to the closing of the file.
abbrev pub is_written : Stored → Bool
is_written s = s.made && s.sub && s.made_all && s.created && s.copied && s.flushed && s.closed

-- The tests on the first bytes of a log, or the answer that refuses it.
abbrev pub is_bzip2 : Stored → Early (Reply (Unit {0})) Bool
is_bzip2 s = if not s.opens then answer (failed 500 "Try again later") else elim s.header [
  | none ↦ answer (failed 500 "Try again later")
  | some bytes ↦ value (str_eq bytes (codes "BZh"))
]

abbrev pub is_zstd : Stored → Early (Reply (Unit {0})) Bool
is_zstd s = if not s.opens then answer (failed 500 "Try again later") else elim s.magic [
  | none ↦ answer (failed 500 "Try again later")
  | some n ↦ value (n == 4247762216)
]

-- The answer, the database and the log that is added to the queue.
abbrev pub Uploaded : Type 0
Uploaded = Reply (Unit {0}) × Option Database × Option Work

abbrev pub checked_log : Option Database → Work → Early (Reply (Unit {0})) Bool → Uploaded
checked_log s work (answer r) = (r, s, none)
checked_log s work (value true) = (answered tt, s, some work)
checked_log s work (value false) = (failed 400 "Invalid file", s, none)

-- The upload of a log of a new route.
unfoldable pub queue_log : Option Database → Stored → Work → Uploaded
queue_log s stored work =
    if contains work.path (codes "qlog.bz2")
    then checked_log s work (is_bzip2 stored)
    else if contains work.path (codes "qlog.zst")
    then checked_log s work (is_zstd stored)
    else (answered tt, s, none)

-- The rows of the boot and crash logs, and a log's name for the queue.
abbrev pub refused_upload : Option Database → ℕ → String → Uploaded
refused_upload s status message = (failed status message, s, none)

abbrev pub saved_log : {A : Type 0} → Option Database → Option A → (A → Database) → Uploaded
saved_log s none f = refused_upload s 500 "Try again later"
saved_log s (some rows) f = (answered tt, some (f rows), none)

abbrev pub queued : Option Database → Stored → Str → Str → Option RouteInfo → Uploaded
queued s stored path dongle_id none = (answered tt, s, none)
queued s stored path dongle_id (some info) =
    queue_log s stored (record { path = path; dongle_id = dongle_id; route_info = info })

module _ (gorm : Gorm) (writes : Writes) (valid_path : Str → Bool) (base : Str → Str) where
  -- What follows the closing of the file: an old route and an unknown path are only logged.
  unfoldable pub index_upload : Database → Device → Str → Str → Stored → Uploaded
  index_upload db device dongle_id path stored =
      if contains path (codes "boot/")
      then saved_log (some db)
          (writes.create BootLog (λ l. l.id)
            (λ id. record { id = id; device_id = device.id; file_name = base path }) db.boot_logs)
          (λ rows. record db { boot_logs = rows })
      else if contains path (codes "crash/")
      then saved_log (some db)
          (writes.create CrashLog (λ l. l.id)
            (λ id. record { id = id; device_id = device.id; file_name = base path }) db.crash_logs)
          (λ rows. record db { crash_logs = rows })
      else queued (some db) stored path dongle_id (new_route_info_from_path path)

  unfoldable pub put_upload : Context → Str → Stored → Uploaded
  unfolding index_upload
  put_upload c path stored = do
    dongle_id ← require c.dongle_id (refused_upload c.db 400 "dongle_id is required")
    db ← require c.db (refused_upload c.db 500 "Try again later")
    device ←
        require_found (find_device_by_dongle_id gorm db dongle_id)
          (refused_upload c.db 500 "Try again later")
    if is_empty path
        then refused_upload c.db 400 "path is required"
        else if not (valid_path path)
        then refused_upload c.db 400 "Invalid path"
        else if not (is_written stored)
        then refused_upload c.db 500 "Try again later"
        else index_upload db device dongle_id path stored
