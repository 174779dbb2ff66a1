-- ===== src/Models/Gorm.antt =====
-- What the models rely on of gorm, the database library that is no code of this repository: the
-- interface of a query, with what gorm documents of it.
use mathlib.Core.List.{Memᴰ}
use rtz_server.Base.{refl, ◌⊎◌, inl, inr, ℕ, Bool, true, false, List, [], ◌≡◌, ◌≢◌, ◌↔◌, All, ◌==◌}
use rtz_server.GoText.{Str, str_eq}

-- The outcome of a query: a value, gorm.ErrRecordNotFound, or any other error.
pub data Fetched (A : Type 0) : Type 0 where
  fetched : A → Fetched A
  not_found : Fetched A
  query_failed : Fetched A

-- `first` is `db.Where(…).First`, `find` is `db.Where(…).Find`. A condition that is written as a
-- struct skips the columns whose value in the struct is the zero value: `str_cond` and `num_cond`
-- compare one column of such a struct with a row's.
pub record Gorm : Type 1 where
  pub first : (A : Type 0) → (A → Bool) → List A → Fetched A
  pub find : (A : Type 0) → (A → Bool) → List A → Fetched (List A)
  pub str_cond : Str → Str → Bool
  pub num_cond : ℕ → ℕ → Bool
  pub first_fetched :
      (A : Type 0) (p : A → Bool) (rows : List A) (a : A)
      → first A p rows ≡ fetched a
      → (p a ≡ true) × Memᴰ a rows
  pub first_not_found :
      (A : Type 0) (p : A → Bool) (rows : List A)
      → first A p rows ≡ not_found
      → All (λ a. p a ≡ false) rows
  pub find_fetched :
      (A : Type 0) (p : A → Bool) (rows found : List A)
      → find A p rows ≡ fetched found
      → (a : A) → Memᴰ a found ↔ ((p a ≡ true) × Memᴰ a rows)
  pub str_cond_set : (s t : Str) → s ≢ [] → str_cond s t ≡ str_eq s t
  pub str_cond_zero : (t : Str) → str_cond [] t ≡ true
  pub num_cond_set : (m n : ℕ) → m ≢ 0 → num_cond m n ≡ (m == n)
  pub num_cond_zero : (n : ℕ) → num_cond 0 n ≡ true

pub Fetched-cases :
    {A : Type 0} (r : Fetched A)
    → ((a : A) × (r ≡ fetched a)) ⊎ ((r ≡ not_found) ⊎ (r ≡ query_failed))
Fetched-cases (fetched a) = inl (a, refl)
Fetched-cases not_found = inr (inl refl)
Fetched-cases query_failed = inr (inr refl)
