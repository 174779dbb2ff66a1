-- ===== src/Controllers/RouteFiles/Files.antt =====
-- The files of a route's uploads: `GETRouteFile` and the functions that it calls, in
-- internal/server/controllers/v1/route_files.go, and the URLs. The file system is a parameter.
pub mod Confined
use rtz_server.Base.{
  ℕ, Bool, true, false, not, ◌&&◌, ◌||◌, List, [], ◌∷◌, ◌++◌, Option, none, some, ◌==◌, any,
  if◌then◌else◌,
}
use rtz_server.Base.Int.{ℤ, pos, negsuc}
use rtz_server.GoText.{Str, codes, str_eq, is_empty, has_prefix, contains, trim_right}
use rtz_server.GoText.Numbers.{parse_int, format_nat}
use rtz_server.Config.{Config, uploads_filesystem}
use rtz_server.Models.Rows.{Route}
use rtz_server.Server.Http.{Early, value, answer, ◌>>=◌, require}
use rtz_server.Controllers.Handler.{Reply, answered, failed}
use rtz_server.Controllers.RouteFiles.Names.{
  route_name_base, segment_number, segment_from_upload_dir,
}

pub record Entry : Type 0 where
  pub name : Str
  pub is_dir : Bool

-- filepath.Abs, filepath.Join, fs.ValidPath and os.ReadDir of the host; `none` is an error.
pub record Disk : Type 0 where
  pub abs : Str → Option Str
  pub join : List Str → Str
  pub valid_path : Str → Bool
  pub read_dir : Str → Option (List Entry)

-- `uploadFileTypeByName`
unfoldable pub upload_file_type : Str → Option Str
upload_file_type name =
    if str_eq name (codes "qcamera.ts")
    then some (codes "qcameras")
    else if str_eq name (codes "fcamera.hevc")
    then some (codes "cameras")
    else if str_eq name (codes "dcamera.hevc")
    then some (codes "dcameras")
    else if str_eq name (codes "ecamera.hevc")
    then some (codes "ecameras")
    else if str_eq name (codes "qlog.bz2") || str_eq name (codes "qlog.zst")
    then some (codes "qlogs")
    else if str_eq name (codes "rlog.bz2") || str_eq name (codes "rlog.zst")
    then some (codes "logs")
    else none

unfoldable pub content_type : Str → Str
content_type name =
    if str_eq name (codes "qcamera.ts")
    then codes "video/mp2t"
    else if str_eq name (codes "fcamera.hevc")
        || str_eq name (codes "dcamera.hevc")
        || str_eq name (codes "ecamera.hevc")
    then codes "video/hevc"
    else codes "application/octet-stream"

unfoldable pub filesystem_upload_root : Config → Option Str
filesystem_upload_root cfg =
    if not (str_eq cfg.persistence.uploads.driver uploads_filesystem)
    then none
    else if is_empty cfg.persistence.uploads.filesystem_options.directory
    then none
    else some cfg.persistence.uploads.filesystem_options.directory

-- The base of the URLs of a route's files, and the URL of one.
pub route_files_base_url : Config → Str → Str → Str
route_files_base_url cfg dongle_id route_name =
    trim_right (λ c. c == b'/') cfg.http.backend_url
    ++ codes "/v1/route_file/"
    ++ dongle_id
    ++ codes "/"
    ++ route_name

pub route_file_url : Config → Str → Str → ℕ → Str → Str
unfolding route_files_base_url
route_file_url cfg dongle_id route_name segment file_name =
    route_files_base_url cfg dongle_id route_name
    ++ codes "/"
    ++ format_nat segment
    ++ codes "/"
    ++ file_name

pub route_response_url : Config → Str → Route → Str
unfolding route_files_base_url
route_response_url cfg dongle_id route =
    if not (is_empty route.url)
    then route.url
    else route_files_base_url cfg dongle_id route.route_id

-- The path of the file that is served, and its type.
pub record Served : Type 0 where
  pub path : Str
  pub kind : Str

abbrev pub is_number : ℕ → Option ℕ → Bool
is_number segment none = false
is_number segment (some n) = n == segment

abbrev pub is_segment_dir : Str → ℕ → Entry → Bool
is_segment_dir route_name segment e =
    e.is_dir && is_number segment (segment_from_upload_dir route_name e.name)

abbrev pub first_dir : (Entry → Bool) → List Entry → Option Str
first_dir p [] = none
first_dir p (e ∷ rest) = let later = first_dir p rest in if p e then some e.name else later

module _ (disk : Disk) where
  -- A part that is one name of a file.
  abbrev pub is_bad_part : Str → Bool
  is_bad_part part =
      is_empty part
      || contains part (codes "/")
      || str_eq part (codes ".")
      || str_eq part (codes "..")
      || not (disk.valid_path part)

  -- `none` is an error.
  unfoldable pub safe_upload_path : Str → List Str → Option Str
  safe_upload_path root parts = if any is_bad_part parts then none else (do
    root_abs ← require (disk.abs root) none
    path ← require (disk.abs (disk.join (root_abs ∷ parts))) none
    if not (str_eq path root_abs) && not (has_prefix path (root_abs ++ codes "/"))
        then none
        else some path)

  unfoldable pub find_route_segment_dir : Str → Str → Str → ℕ → Option Str
  unfolding safe_upload_path
  find_route_segment_dir root dongle_id route_name segment =
      require (safe_upload_path root (dongle_id ∷ [])) none >>= λ device_root.
      require (disk.read_dir device_root) none >>= λ entries.
      first_dir (is_segment_dir route_name segment) entries

  unfoldable pub get_route_file : Config → Str → Str → Str → Str → Reply Served
  unfolding filesystem_upload_root upload_file_type content_type find_route_segment_dir
      safe_upload_path
  get_route_file cfg dongle_id route_name segment file_name = do
    root ← require (filesystem_upload_root cfg) (failed 501 "Not implemented")
    number ← require (segment_number segment) (failed 400 "segment must be a non-negative integer")
    _ ← require (upload_file_type file_name) (failed 400 "unsupported file")
    dir_name ←
        require (find_route_segment_dir root dongle_id (route_name_base route_name) number)
          (failed 404 "Not found")
    path ←
        require (safe_upload_path root (dongle_id ∷ dir_name ∷ file_name ∷ []))
          (failed 400 "Invalid path")
    answered (record { path = path; kind = content_type file_name })
