-- ===== src/Controllers/Upload/Parsed.antt =====
-- What newRouteInfoFromPath of internal/server/controllers/v1.4/upload.go reads of the path of an upload.
use mathlib.Core.List.{append_assoc}
use mathlib.Core.Path.{subst}
use rtz_server.Base.{
  ◌≡◌, ◌≢◌, refl, sym, ◌∙◌, ap, false, [], ◌∷◌, ◌++◌, Option, none, some, All, if_true, if_false,
  some_injective, arith, Bool-cases, inl, inr,
}
use rtz_server.GoText.{Str, codes, is_empty}
use rtz_server.GoText.Numbers.RoundTrip.{IsDigit}
use rtz_server.LogParser.Scheduler.{RouteInfo}
use rtz_server.Controllers.RouteFiles.Names.{is_digit, hex_part}
use rtz_server.Controllers.RouteFiles.Names.Printed.{IsHexName}
use rtz_server.Controllers.RouteFiles.Names.Taken.{hex_part_sound}
use rtz_server.Controllers.Upload.{
  take_digits, route_info, after_route, after_motonic, new_route_info_from_path,
}

-- What follows the digits at the start of a text does not start with a digit.
abbrev pub IsCut : Str → Type 0
IsCut [] = Unit
IsCut (c ∷ s) = is_digit c ≡ false

pub take_digits-split :
    (s : Str)
    → (left : Str) × (s ≡ take_digits s ++ left) × All IsDigit (take_digits s) × IsCut left
unfolding take_digits
take_digits-split [] = ([], refl, tt, tt)
take_digits-split (c ∷ s) =
    let (left, split, digits, cut) = take_digits-split s in
    elim (Bool-cases (is_digit c)) [
      | inl digit ↦
          rw digit (left, ap (λ t. c ∷ t) split, ((ground arith, ground arith), digits), cut)
      | inr other ↦ rw other (c ∷ s, refl, tt, other)
    ]

-- The start of the path that newRouteRegex matches.
abbrev pub matched : RouteInfo → Str
matched r = r.route ++ (b'-' ∷ b'-' ∷ r.segment)

-- What newRouteInfoFromPath has read of a path.
pub record IsRead (path : Str) (r : RouteInfo) : Type 0 where
  pub name : Str
  pub left : Str
  pub motonic_hex : IsHexName r.motonic
  pub name_hex : IsHexName name
  pub joined : r.route ≡ r.motonic ++ (b'-' ∷ b'-' ∷ name)
  pub digits : All IsDigit r.segment
  pub digits_set : r.segment ≢ []
  pub shape : path ≡ matched r ++ left
  pub cut : IsCut left

set_of : (s : Str) → is_empty s ≡ false → s ≢ []
unfolding is_empty
set_of [] e h = cc
set_of (c ∷ s) e h = cc

after_route-IsRead :
    (path motonic name s t : Str) (r : RouteInfo)
    → IsHexName motonic
    → IsHexName name
    → path ≡ motonic ++ (b'-' ∷ b'-' ∷ s)
    → s ≡ name ++ (b'-' ∷ b'-' ∷ t)
    → route_info motonic name (take_digits t) ≡ some r
    → IsRead path r
after_route-IsRead path motonic name s t r h k first second e =
    elim (Bool-cases (is_empty (take_digits t))) [
      | inl empty ↦
          let bad : ◌≡◌ {A = Option RouteInfo} none (some r) = sym (if_true _ _ _ empty) ∙ e in cc
      | inr set ↦
          let info : RouteInfo = record {
            motonic = motonic;
            route = motonic ++ codes "--" ++ name;
            segment = take_digits t;
          } in
          let same : info ≡ r = some_injective (sym (if_false _ _ _ set) ∙ e) in
          let (left, split, digits, cut) = take_digits-split t in
          subst (IsRead path) same (record {
            name = name;
            left = left;
            motonic_hex = h;
            name_hex = k;
            joined = append_assoc motonic (codes "--") name;
            digits = digits;
            digits_set = set_of (take_digits t) set;
            shape =
                first
                ∙ ap (λ x. motonic ++ (b'-' ∷ b'-' ∷ x))
                    (second ∙ ap (λ x. name ++ (b'-' ∷ b'-' ∷ x)) split)
                ∙ simp append_assoc;
            cut = cut;
          })
    ]

after_motonic-IsRead :
    (path motonic s : Str) (r : RouteInfo) (o : Option (Str × Str))
    → hex_part s ≡ o
    → IsHexName motonic
    → path ≡ motonic ++ (b'-' ∷ b'-' ∷ s)
    → after_route motonic o ≡ some r
    → IsRead path r
after_motonic-IsRead path motonic s r none part h first e = cc e
after_motonic-IsRead path motonic s r (some (name, t)) part h first e =
    let (k, second) = hex_part_sound s name t part in
    after_route-IsRead path motonic name s t r h k first second e

path-IsRead :
    (path : Str) (r : RouteInfo) (o : Option (Str × Str))
    → hex_part path ≡ o
    → after_motonic o ≡ some r
    → IsRead path r
unfolding after_motonic
path-IsRead path r none part e = cc e
path-IsRead path r (some (motonic, s)) part e =
    let (h, first) = hex_part_sound path motonic s part in
    after_motonic-IsRead path motonic s r (hex_part s) refl h first e

pub new_route_info_from_path-IsRead :
    (path : Str) (r : RouteInfo) → new_route_info_from_path path ≡ some r → IsRead path r
unfolding new_route_info_from_path
new_route_info_from_path-IsRead path r e = path-IsRead path r (hex_part path) refl e

-- The first text, which has no '/', ends in the part of the second that is before its '/'.
pub overlap :
    (p left dir rest : Str)
    → All (λ c. c ≢ b'/') p
    → p ++ left ≡ dir ++ (b'/' ∷ rest)
    → (junk : Str) × (dir ≡ p ++ junk) × (left ≡ junk ++ (b'/' ∷ rest))
overlap [] left dir rest h e = (dir, refl, e)
overlap (c ∷ p) left [] rest (other, h) e = absurd (other (cc e))
overlap (c ∷ p) left (d ∷ dir) rest (other, h) e =
    let (junk, same, more) = overlap p left dir rest h (cc e) in (junk, cc (e, same), more)
