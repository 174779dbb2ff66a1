-- ===== src/Controllers/RouteFiles/Tests.antt =====
-- The functions of internal/server/controllers/v1/route_files.go on small inputs, and the properties of
-- the modules below this one there.
use mathlib.Core.List.{Memᴰ}
use rtz_server.Base.{ℕ, true, false, ◌≡◌, ◌≢◌, refl, List, [], ◌∷◌, none, some, length, arith}
use rtz_server.Base.Int.{pos, ◌+ℤ◌, ◌<ℤ◌, wrap_int64}
use rtz_server.GoText.{Str, codes, str_eq, is_empty, has_prefix, skip, trim_prefix, contains, join}
use rtz_server.GoText.Numbers.{parse_int, parse_uint, scan_uint}
use rtz_server.Config.{Config}
use rtz_server.Config.Fixtures.{minimal}
use rtz_server.Models.Rows.{Route}
use rtz_server.Controllers.Handler.{answered}
use rtz_server.Controllers.Devices.{unix_milli}
use rtz_server.Controllers.RouteFiles.Names.{
  before_last, route_name_base, take_hex, drop_hex, hex_part, named_part, match_upload_dir,
  segment_number, prefixed_segment, segment_of, segment_from_upload_dir,
}
use rtz_server.Controllers.RouteFiles.Segments.{
  stored_segments, unseen, insert, sort_ints, route_segments, index_from, route_segment_index,
  normalize_api_time, computed_times, times_at, segment_times, route_segment_metadata,
}
use rtz_server.Controllers.RouteFiles.Ordered.{AllPairs, IsModest, route_segment_metadata-IsSorted}
use rtz_server.Controllers.RouteFiles.Sorting.{IsSorted}
use rtz_server.Controllers.RouteFiles.Files.{
  Entry, Disk, Served, upload_file_type, content_type, filesystem_upload_root, safe_upload_path,
  find_route_segment_dir, get_route_file,
}
use rtz_server.Controllers.RouteFiles.Files.Confined.{IsConfined, get_route_file-IsConfined}

bases :
    (route_name_base (codes "aa:bb:3") ≡ codes "aa:bb")
    × (route_name_base (codes "aa") ≡ codes "aa")
unfolding route_name_base before_last
bases = (refl, refl)

segments :
    (segment_from_upload_dir (codes "bb") (codes "aa--bb--12") ≡ some 12)
    × (segment_from_upload_dir (codes "2024-01-01--10-00-00") (codes "2024-01-01--10-00-00--7")
        ≡ some 7)
    × (segment_from_upload_dir (codes "bb") (codes "aa--cc--12") ≡ none)
unfolding segment_from_upload_dir segment_of match_upload_dir named_part hex_part take_hex drop_hex
    prefixed_segment has_prefix trim_prefix skip is_empty str_eq parse_int parse_uint scan_uint
segments = (refl, refl, refl)

abbrev sample_disk : Disk
sample_disk = record {
  abs = λ s. some s;
  join = λ parts. join parts b'/';
  valid_path = λ s. true;
  read_dir = λ s. some (record { name = codes "aa--bb--2"; is_dir = true } ∷ []);
}

abbrev stored_config : Config
stored_config = record minimal {
  persistence = record minimal.persistence {
    uploads = record minimal.persistence.uploads {
      driver = codes "filesystem";
      filesystem_options = record { directory = codes "/up" };
    };
  };
}

abbrev served : Served
served = record {
  path = codes "/up/d1/aa--bb--2/qlog.zst";
  kind = codes "application/octet-stream";
}

serves :
    get_route_file sample_disk stored_config
      (codes "d1")
      (codes "bb:x")
      (codes "2")
      (codes "qlog.zst")
    ≡ answered served
unfolding get_route_file filesystem_upload_root upload_file_type content_type find_route_segment_dir
    safe_upload_path segment_from_upload_dir segment_of match_upload_dir named_part hex_part
    take_hex drop_hex prefixed_segment has_prefix trim_prefix skip is_empty str_eq parse_int
    parse_uint scan_uint route_name_base before_last contains join
serves = refl

get_route_file-IsConfined_example :
    (root : Str) × (number : ℕ) × (dir_name : Str) × (device_root : Str) × (entries : List Entry)
    × (e : Entry) × (filesystem_upload_root stored_config ≡ some root)
    × (segment_number (codes "2") ≡ some number)
    × (upload_file_type (codes "qlog.zst") ≢ none)
    × IsConfined sample_disk root (codes "d1" ∷ []) device_root
    × (sample_disk.read_dir device_root ≡ some entries)
    × Memᴰ e entries
    × (e.is_dir ≡ true)
    × (e.name ≡ dir_name)
    × (segment_from_upload_dir (route_name_base (codes "bb:x")) dir_name ≡ some number)
    × IsConfined sample_disk root (codes "d1" ∷ dir_name ∷ codes "qlog.zst" ∷ []) served.path
    × (served.kind ≡ content_type (codes "qlog.zst"))
get_route_file-IsConfined_example =
    get_route_file-IsConfined sample_disk stored_config (codes "d1") (codes "bb:x") (codes "2")
      (codes "qlog.zst") served serves

-- Segments 2, whose stored times are nanoseconds, and 0, which has been uploaded.
abbrev sample_route : Route
sample_route = record {
  id = 1;
  device_id = 3;
  first_clock_wall_time_nanos = 0;
  first_clock_log_mono_time = 0;
  all_segments_processed = false;
  route_id = codes "bb";
  end_lat = 0;
  end_lng = 0;
  end_time = none;
  git_branch = [];
  git_commit = [];
  git_dirty = false;
  git_remote = [];
  init_log_mono_time = 0;
  is_preserved = false;
  is_public = false;
  length = 0;
  platform = [];
  radar = false;
  start_lat = 0;
  start_lng = 0;
  start_time = some (pos 7000000);
  url = [];
  version = [];
  segment_start_times = some (pos 2000000000000000 ∷ []);
  segment_end_times = some (pos 2000000001000000 ∷ []);
  segment_numbers = some (pos 2 ∷ []);
}

metadata :
    route_segment_metadata sample_route (0 ∷ 2 ∷ [])
    ≡ (pos 7 ∷ pos 2000000000 ∷ [], pos 60007 ∷ pos 2000000001 ∷ [], 0 ∷ 2 ∷ [])
unfolding route_segment_metadata route_segments stored_segments unseen sort_ints insert
    segment_times times_at route_segment_index index_from normalize_api_time computed_times
    unix_milli wrap_int64 ◌+ℤ◌
metadata = refl

starts_modestly : IsModest (unix_milli sample_route.start_time)
unfolding unix_milli
starts_modestly = (omega arith, omega arith)

route_segment_metadata-IsSorted_example :
    AllPairs
      (λ a b. a <ℤ b)
      (route_segment_metadata sample_route (0 ∷ 2 ∷ [])).0
      (route_segment_metadata sample_route (0 ∷ 2 ∷ [])).1
    × (length (route_segment_metadata sample_route (0 ∷ 2 ∷ [])).0
        ≡ length (route_segment_metadata sample_route (0 ∷ 2 ∷ [])).2)
    × IsSorted (route_segment_metadata sample_route (0 ∷ 2 ∷ [])).2
route_segment_metadata-IsSorted_example =
    route_segment_metadata-IsSorted sample_route (0 ∷ 2 ∷ []) (omega arith, (omega arith, tt))
      starts_modestly
