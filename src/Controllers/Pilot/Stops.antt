-- ===== src/Controllers/Pilot/Stops.antt =====
-- Where POSTPilotAuth of internal/server/controllers/v2/pilot.go stops without a registration.
use rtz_server.Base.{
  true, false, not, ◌≡◌, refl, sym, ◌∙◌, ap, List, [], ◌∷◌, ◌++◌, Option, none, some, ◌==◌,
  if_cases, length,
}
use rtz_server.GoText.{Str}
use rtz_server.GoText.Numbers.{parse_int}
use rtz_server.Luhn.{luhn_valid}
use rtz_server.Models.Rows.{Database}
use rtz_server.Jwt.{Parsed, parsed, rejected, parse_panic}
use rtz_server.Server.Http.{Early, value, answer, ◌>>=◌, require}
use rtz_server.Server.Http.Returns.{answer_injective, value_injective}
use rtz_server.Controllers.Handler.{Reply, answered, failed, crash}
use rtz_server.Controllers.Pilot.{
  PilotAuthQuery, Registered, stop, require_parsed, optional_number, check_second, check_first,
  check_imeis,
}

abbrev pub dongle_id_of : Reply Str → Option Str
dongle_id_of (answered id) = some id
dongle_id_of (failed n m) = none
dongle_id_of crash = none

-- The dongle id of the last body.
abbrev pub last_answer : List (Reply Str) → Option Str
last_answer [] = none
last_answer (r ∷ []) = dongle_id_of r
last_answer (r ∷ s ∷ rs) = last_answer (s ∷ rs)

abbrev pub with_database : Option Database → Option Str → Option (Str × Option Database)
with_database db none = none
with_database db (some id) = some (id, db)

-- The dongle id of the last body, and the database that is left.
abbrev pub registered : Registered → Option (Str × Option Database)
registered none = none
registered (some (said, db)) = with_database db (last_answer said)

last_answer-snoc :
    (said : List (Reply Str)) (r : Reply Str) → last_answer (said ++ (r ∷ [])) ≡ dongle_id_of r
last_answer-snoc [] r = refl
last_answer-snoc (a ∷ []) r = refl
last_answer-snoc (a ∷ b ∷ said) r = last_answer-snoc (b ∷ said) r

pub registered-stop :
    (db : Option Database) (said : List (Reply Str)) (r : Reply Str)
    → registered (stop db said r) ≡ with_database db (dongle_id_of r)
registered-stop db said r = ap (with_database db) (last_answer-snoc said r)

-- What follows an early return has been reached, if the end is a registration and that is none.
module _ {A : Type 0} {x : Str × Option Database} where
  pub past_stop :
      (o : Option A) (early : Registered) (f : A → Registered)
      → registered early ≡ none
      → registered (require o early >>= f) ≡ some x
      → (a : A) × (o ≡ some a) × (registered (f a) ≡ some x)
  past_stop none early f h e = absurd (let bad : none ≡ some x = sym h ∙ e in cc)
  past_stop (some a) early f h e = (a, refl, e)

  pub past_check :
      (r : Early Registered A) (f : A → Registered)
      → ((early : Registered) → r ≡ answer early → registered early ≡ none)
      → registered (r >>= f) ≡ some x
      → (a : A) × (r ≡ value a) × (registered (f a) ≡ some x)
  past_check (value a) f h e = (a, refl, e)
  past_check (answer early) f h e = absurd (let bad : none ≡ some x = sym (h early refl) ∙ e in cc)

abbrev pub IsStop : Registered → Type 0
IsStop r =
    (db : Option Database) × (said : List (Reply Str)) × (reply : Reply Str) × (r
      ≡ stop db said reply)
    × (dongle_id_of reply ≡ none)

stop-none : (r : Registered) → IsStop r → registered r ≡ none
stop-none r (db, said, reply, same, bad) =
    ap registered same ∙ registered-stop db said reply ∙ ap (with_database db) bad

pub stopped :
    {A : Type 0} (db : Option Database) (said : List (Reply Str)) (reply : Reply Str)
    (early : Registered)
    → dongle_id_of reply ≡ none
    → ◌≡◌ {A = Early Registered A} (answer (stop db said reply)) (answer early)
    → registered early ≡ none
stopped db said reply early bad e = stop-none early (db, said, reply, sym (answer_injective e), bad)

check_second-stop :
    (db : Option Database) (said : List (Reply Str)) (imei2 : Option Str) (early : Registered)
    → check_second db said imei2 ≡ answer early
    → registered early ≡ none
check_second-stop db said none early = stopped db said _ early refl
check_second-stop db said (some imei2) early =
    if_cases (not (luhn_valid (optional_number imei2)))
      (stopped db _ (failed 400 "imei2 is invalid") early refl) (λ e. cc)

check_first-stop :
    (db : Option Database) (imei imei2 : Option Str) (early : Registered)
    → check_first db imei imei2 ≡ answer early
    → registered early ≡ none
check_first-stop db none imei2 early = stopped db [] _ early refl
check_first-stop db (some imei) imei2 early =
    if_cases (not (length imei == 15))
      (stopped db [] (failed 400 "imei must be 15 characters") early refl)
      (if_cases (not (luhn_valid (parse_int imei).0))
        (stopped db _ (failed 400 "imei is invalid") early refl)
        (check_second-stop db _ imei2 early))

pub check_imeis-stop :
    (db : Option Database) (q : PilotAuthQuery) (early : Registered)
    → check_imeis db q ≡ answer early
    → registered early ≡ none
unfolding check_imeis
check_imeis-stop db q = check_first-stop db q.imei q.imei2

pub require_parsed-stop :
    {C : Type 0} (r : Parsed C) (refusal panic early : Registered)
    → registered refusal ≡ none
    → registered panic ≡ none
    → require_parsed r refusal panic ≡ answer early
    → registered early ≡ none
require_parsed-stop (parsed c true) refusal panic early h k e = cc
require_parsed-stop (parsed c false) refusal panic early h k e =
    ap registered (sym (answer_injective e)) ∙ h
require_parsed-stop rejected refusal panic early h k e =
    ap registered (sym (answer_injective e)) ∙ h
require_parsed-stop parse_panic refusal panic early h k e =
    ap registered (sym (answer_injective e)) ∙ k

pub require_parsed-parsed :
    {C : Type 0} (r : Parsed C) (refusal panic : Registered) (c : C)
    → require_parsed r refusal panic ≡ value c
    → r ≡ parsed c true
require_parsed-parsed (parsed c true) refusal panic d e =
    ap (λ x. parsed x true) (value_injective e)
require_parsed-parsed (parsed c false) refusal panic d e = cc
require_parsed-parsed rejected refusal panic d e = cc
require_parsed-parsed parse_panic refusal panic d e = cc
