-- ===== src/Server/Http.antt =====
-- What a gin handler of internal/server reads and does, as far as the middleware needs it, and the
-- early return of a handler's body.
pub mod Returns
use Prim.Native.String.{String}
use rtz_server.Base.{ℕ, Bool, Option, none, some}
use rtz_server.GoText.{Str}
use rtz_server.Models.Rows.{User, Device, Database}
use rtz_server.Models.Gorm.{Fetched, fetched, not_found, query_failed}

-- A value that the middleware sets in the context under "user" or "device", by its dynamic type.
pub data Subject : Type 0 where
  of_user : User → Subject
  of_device : Device → Subject
  of_other : Subject

-- The request and the context's values. `authorization` and `access_token` are "" where the request
-- has none; `db` is `none` where the context holds no *gorm.DB under "db".
pub record Context : Type 0 where
  pub authorization : Str
  pub access_token : Str
  pub jwt_cookie : Option Str
  pub dongle_id : Option Str
  pub db : Option Database
  pub demo : Bool
  pub user : Option Subject
  pub device : Option Subject

-- What a middleware does: it aborts with a status and a message, calls c.Next, or returns having
-- done neither; or it panics.
pub data Step : Type 0 where
  aborted : ℕ → String → Step
  next : Context → Step
  returned : Context → Step
  panics : Step

-- A value, or the answer with which a handler returns early.
pub data Early (R A : Type 0) : Type 0 where
  value : A → Early R A
  answer : R → Early R A

infixl 5 ◌>>=◌
abbrev pub ◌>>=◌ : {R A : Type 0} → Early R A → (A → R) → R
value a >>= f = f a
answer r >>= f = r

-- `v, ok := …; if !ok { …; return }`
abbrev pub require : {R A : Type 0} → Option A → R → Early R A
require none r = answer r
require (some a) r = value a

-- `v, err := …; if err != nil { …; return }`
abbrev pub require_found : {R A : Type 0} → Fetched A → R → Early R A
require_found (fetched a) r = value a
require_found not_found r = answer r
require_found query_failed r = answer r

abbrev pub try_again : Step
try_again = aborted 500 "Try again later"

abbrev pub unauthorized : Step
unauthorized = aborted 401 "Unauthorized"

abbrev pub forbidden : Step
forbidden = aborted 403 "Forbidden"

abbrev pub no_dongle_id : Step
no_dongle_id = aborted 400 "dongle_id is required"
