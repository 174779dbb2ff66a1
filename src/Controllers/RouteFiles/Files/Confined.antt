-- ===== src/Controllers/RouteFiles/Files/Confined.antt =====
-- What GETRouteFile of internal/server/controllers/v1/route_files.go serves.
use Prim.Native.String.{String}
use mathlib.Core.List.{Memᴰ}
use rtz_server.Base.{
  ℕ, Bool, true, false, not, ◌&&◌, ◌≡◌, ◌≢◌, refl, sym, ◌∙◌, ap, ◌⊎◌, inl, inr, List, [], ◌∷◌, ◌++◌,
  Option, none, some, ==_iff, any, All, Bool-cases, if_true, if_false, if◌then◌else◌, arith,
  some_injective,
}
use rtz_server.GoText.{Str, codes, str_eq, has_prefix}
use rtz_server.GoText.Laws.{str_eq_iff}
use rtz_server.Config.{Config}
use rtz_server.Server.Http.Returns.{require_past}
use rtz_server.Controllers.Handler.{Reply, answered, failed}
use rtz_server.Controllers.RouteFiles.Names.{
  route_name_base, segment_number, segment_from_upload_dir,
}
use rtz_server.Controllers.RouteFiles.Files.{
  Entry, Disk, Served, upload_file_type, content_type, filesystem_upload_root, is_bad_part,
  safe_upload_path, first_dir, is_number, is_segment_dir, find_route_segment_dir, get_route_file,
}

failed_served : {n : ℕ} {m : String} {f : Served} → ◌≢◌ {A = Reply Served} (failed n m) (answered f)
failed_served e = cc

answered_injective : {B : Type 0} {a b : B} → answered a ≡ answered b → a ≡ b
answered_injective e = cc

none-some : {A : Type 0} {a : A} → none ≢ some a
none-some e = cc

-- What the last test of a path says.
inside :
    (path root_abs end : Str)
    → (if not (str_eq path root_abs) && not (has_prefix path (root_abs ++ codes "/"))
        then none
        else some path)
      ≡ some end
    → (path ≡ end) × ((end ≡ root_abs) ⊎ (has_prefix end (root_abs ++ codes "/") ≡ true))
inside path root_abs end e = elim (Bool-cases (str_eq path root_abs)) [
  | inl here ↦
      let same : path ≡ end = some_injective (ground arith) in
      (same, inl (sym same ∙ (str_eq_iff path root_abs).0 here))
  | inr away ↦ elim (Bool-cases (has_prefix path (root_abs ++ codes "/"))) [
    | inl below ↦
        let same : path ≡ end = some_injective (ground arith) in
        (same, inr (ap (λ x. has_prefix x (root_abs ++ codes "/")) (sym same) ∙ below))
    | inr outside ↦ absurd (let bad : none ≡ some end = ground arith in none-some bad)
  ]
]

is_number_sound : (segment : ℕ) (o : Option ℕ) → is_number segment o ≡ true → o ≡ some segment
is_number_sound segment none e = cc
is_number_sound segment (some n) e = ap (λ x. some x) ((==_iff n segment).0 e)

is_segment_dir_sound :
    (route_name : Str) (segment : ℕ) (e : Entry)
    → is_segment_dir route_name segment e ≡ true
    → (e.is_dir ≡ true) × (segment_from_upload_dir route_name e.name ≡ some segment)
is_segment_dir_sound route_name segment e h = (
  ground arith,
  is_number_sound segment (segment_from_upload_dir route_name e.name) (ground arith),
)

module _ (disk : Disk) where
  -- The path is that of the parts, each a name, under the directory or itself the directory.
  pub record IsConfined (root : Str) (parts : List Str) (path : Str) : Type 0 where
    pub root_abs : Str
    pub absolute : disk.abs root ≡ some root_abs
    pub names : All (λ p. is_bad_part disk p ≡ false) parts
    pub joined : disk.abs (disk.join (root_abs ∷ parts)) ≡ some path
    pub under : (path ≡ root_abs) ⊎ (has_prefix path (root_abs ++ codes "/") ≡ true)

  good_parts :
      (parts : List Str)
      → any (is_bad_part disk) parts ≡ false
      → All (λ p. is_bad_part disk p ≡ false) parts
  good_parts [] h = tt
  good_parts (p ∷ parts) h = (ground arith, good_parts parts (ground arith))

  safe_upload_path-IsConfined :
      (root : Str) (parts : List Str) (path : Str)
      → safe_upload_path disk root parts ≡ some path
      → IsConfined root parts path
  unfolding safe_upload_path
  safe_upload_path-IsConfined root parts path e = elim (Bool-cases (any (is_bad_part disk) parts)) [
    | inl bad ↦ absurd (none-some (sym (if_true _ _ _ bad) ∙ e))
    | inr good ↦
        let (root_abs, absolute, e1) =
          require_past (disk.abs root) _ _ _ none-some (sym (if_false _ _ _ good) ∙ e) in
        let (joined_path, joined, e2) =
          require_past (disk.abs (disk.join (root_abs ∷ parts))) _ _ _ none-some e1 in
        let (same, under) = inside joined_path root_abs path e2 in
        record {
          root_abs = root_abs;
          absolute = absolute;
          names = good_parts parts good;
          joined = joined ∙ ap (λ x. some x) same;
          under = under;
        }
  ]

  first_dir-Memᴰ :
      (p : Entry → Bool) (entries : List Entry) (name : Str)
      → first_dir p entries ≡ some name
      → (e : Entry) × Memᴰ e entries × (p e ≡ true) × (e.name ≡ name)
  first_dir-Memᴰ p [] name e = cc
  first_dir-Memᴰ p (a ∷ entries) name e = elim (Bool-cases (p a)) [
    | inl hit ↦ (a, Memᴰ.head refl, hit, ground arith)
    | inr miss ↦
        let (b, m, hit, same) = first_dir-Memᴰ p entries name (ground arith) in
        (b, Memᴰ.tail m, hit, same)
  ]

  find_route_segment_dir-Memᴰ :
      (root dongle_id route_name : Str) (segment : ℕ) (name : Str)
      → find_route_segment_dir disk root dongle_id route_name segment ≡ some name
      → (device_root : Str) × (entries : List Entry) × (e : Entry) × IsConfined root
          (dongle_id ∷ [])
          device_root
        × (disk.read_dir device_root ≡ some entries)
        × Memᴰ e entries
        × (e.is_dir ≡ true)
        × (e.name ≡ name)
        × (segment_from_upload_dir route_name name ≡ some segment)
  unfolding find_route_segment_dir
  find_route_segment_dir-Memᴰ root dongle_id route_name segment name e =
      let (device_root, confined, e1) =
        require_past (safe_upload_path disk root (dongle_id ∷ [])) _ _ _ none-some e in
      let (entries, read, e2) = require_past (disk.read_dir device_root) _ _ _ none-some e1 in
      let (d, m, hit, same) = first_dir-Memᴰ (is_segment_dir route_name segment) entries name e2 in
      let (is_dir, numbered) = is_segment_dir_sound route_name segment d hit in
      (
        device_root,
        entries,
        d,
        safe_upload_path-IsConfined root (dongle_id ∷ []) device_root confined,
        read,
        m,
        is_dir,
        same,
        ap (segment_from_upload_dir route_name) (sym same) ∙ numbered,
      )

  -- A file that `GETRouteFile` serves is of a type that is uploaded, and its path is that of three names
  -- under the upload directory: the dongle id, a directory of the device whose name has the segment
  -- for the route, and the file's name. The segment is a number of at least 0.
  pub get_route_file-IsConfined :
      (cfg : Config) (dongle_id route_name segment file_name : Str) (f : Served)
      → get_route_file disk cfg dongle_id route_name segment file_name ≡ answered f
      → (root : Str) × (number : ℕ) × (dir_name : Str) × (device_root : Str) × (entries : List
          Entry)
        × (e : Entry) × (filesystem_upload_root cfg ≡ some root)
        × (segment_number segment ≡ some number)
        × (upload_file_type file_name ≢ none)
        × IsConfined root (dongle_id ∷ []) device_root
        × (disk.read_dir device_root ≡ some entries)
        × Memᴰ e entries
        × (e.is_dir ≡ true)
        × (e.name ≡ dir_name)
        × (segment_from_upload_dir (route_name_base route_name) dir_name ≡ some number)
        × IsConfined root (dongle_id ∷ dir_name ∷ file_name ∷ []) f.path
        × (f.kind ≡ content_type file_name)
  unfolding get_route_file
  get_route_file-IsConfined cfg dongle_id route_name segment file_name f e =
      let (root, rooted, e1) = require_past (filesystem_upload_root cfg) _ _ _ failed_served e in
      let (number, numbered, e2) = require_past (segment_number segment) _ _ _ failed_served e1 in
      let (kind, typed, e3) = require_past (upload_file_type file_name) _ _ _ failed_served e2 in
      let (dir_name, dir, e4) =
        require_past
          (find_route_segment_dir disk root dongle_id (route_name_base route_name) number) _ _ _
          failed_served e3 in
      let (path, safe, e5) =
        require_past (safe_upload_path disk root (dongle_id ∷ dir_name ∷ file_name ∷ [])) _ _ _
          failed_served e4 in
      let (device_root, entries, d, confined, read, m, is_dir, named, has) =
        find_route_segment_dir-Memᴰ root dongle_id (route_name_base route_name) number dir_name
          dir in
      let same : record { path = path; kind = content_type file_name } ≡ f =
        answered_injective e5 in
      (
        root,
        number,
        dir_name,
        device_root,
        entries,
        d,
        rooted,
        numbered,
        (λ missing. none-some (sym missing ∙ typed)),
        confined,
        read,
        m,
        is_dir,
        named,
        has,
        safe_upload_path-IsConfined root (dongle_id ∷ dir_name ∷ file_name ∷ []) f.path
            (safe ∙ ap (λ x. some x.path) same),
        ap (λ x. x.kind) (sym same),
      )
