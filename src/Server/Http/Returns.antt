-- ===== src/Server/Http/Returns.antt =====
-- What follows an early return has been reached, if the end is not the early answer.
use rtz_server.Base.{Option, none, some, ◌≡◌, ◌≢◌, refl}
use rtz_server.Models.Gorm.{Fetched, fetched, not_found, query_failed}
use rtz_server.Server.Http.{Early, value, answer, ◌>>=◌, require, require_found}

pub answer_injective : {R A : Type 0} {r s : R} → ◌≡◌ {A = Early R A} (answer r) (answer s) → r ≡ s
answer_injective e = cc

pub value_injective : {R A : Type 0} {a b : A} → ◌≡◌ {A = Early R A} (value a) (value b) → a ≡ b
value_injective e = cc

module _ {R A : Type 0} where
  pub require_past :
      (o : Option A) (early : R) (f : A → R) (end : R)
      → early ≢ end
      → (require o early >>= f) ≡ end
      → (a : A) × (o ≡ some a) × (f a ≡ end)
  require_past none early f end h e = absurd (h e)
  require_past (some a) early f end h e = (a, refl, e)

  pub past_found :
      (r : Fetched A) (early : R) (f : A → R) (end : R)
      → early ≢ end
      → (require_found r early >>= f) ≡ end
      → (a : A) × (r ≡ fetched a) × (f a ≡ end)
  past_found (fetched a) early f end h e = (a, refl, e)
  past_found not_found early f end h e = absurd (h e)
  past_found query_failed early f end h e = absurd (h e)

  pub past_value :
      (r : Early R A) (f : A → R) (end : R)
      → ((early : R) → r ≡ answer early → early ≢ end)
      → (r >>= f) ≡ end
      → (a : A) × (r ≡ value a) × (f a ≡ end)
  past_value (value a) f end h e = (a, refl, e)
  past_value (answer early) f end h e = absurd (h early refl e)
