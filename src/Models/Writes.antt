-- ===== src/Models/Writes.antt =====
-- What the models rely on of gorm's writes: the interface of an update, a deletion and an insertion,
-- with what gorm documents of a write that succeeds. `none` is an error, and leaves the table alone.
pub mod Tables
pub mod Devices
pub mod Fixtures
use mathlib.Core.List.{Memᴰ}
use rtz_server.Base.{
  ℕ, Bool, true, false, not, List, [], ◌∷◌, ◌++◌, Option, none, some, ◌≡◌, ◌≢◌, ◌⊎◌, All, any,
  if◌then◌else◌, map,
}

-- The rows that the condition holds of are changed.
abbrev pub changed_rows : {A : Type 0} → (A → Bool) → (A → A) → List A → List A
changed_rows p f [] = []
changed_rows p f (a ∷ rows) = (if p a then f a else a) ∷ changed_rows p f rows

-- The rows that the condition holds of are taken out.
abbrev pub other_rows : {A : Type 0} → (A → Bool) → List A → List A
other_rows p [] = []
other_rows p (a ∷ rows) = let rest = other_rows p rows in if p a then rest else a ∷ rest

-- The new row has a primary key of its own.
abbrev pub IsAdded : {A : Type 0} → (A → ℕ) → (ℕ → A) → List A → List A → Type 0
IsAdded key row rows rows' =
    (id : ℕ) × (id ≢ 0) × All (λ a. key a ≢ id) rows × (rows' ≡ rows ++ (row id ∷ []))

-- `update` is Update and Updates on a model with a primary key; `delete` is Delete, with whether
-- its struct has a column that is not zero, without which gorm refuses; `create` is Create of a row
-- whose primary key is 0, and `first_or_create` is FirstOrCreate. Updates with a struct skips the
-- columns whose value in the struct is the zero value: `assign` is one such column, with whether the
-- value is zero, the value, and the row's.
pub record Writes : Type 1 where
  pub update : (A : Type 0) → (A → Bool) → (A → A) → List A → Option (List A)
  pub delete : (A : Type 0) → Bool → (A → Bool) → List A → Option (List A)
  pub create : (A : Type 0) → (A → ℕ) → (ℕ → A) → List A → Option (List A)
  pub first_or_create : (A : Type 0) → (A → ℕ) → (A → Bool) → (ℕ → A) → List A → Option (List A)
  pub assign : (A : Type 0) → Bool → A → A → A
  pub update_done :
      (A : Type 0) (p : A → Bool) (f : A → A) (rows rows' : List A)
      → update A p f rows ≡ some rows'
      → rows' ≡ changed_rows p f rows
  pub delete_refused : (A : Type 0) (p : A → Bool) (rows : List A) → delete A false p rows ≡ none
  pub delete_done :
      (A : Type 0) (p : A → Bool) (rows rows' : List A)
      → delete A true p rows ≡ some rows'
      → rows' ≡ other_rows p rows
  pub create_done :
      (A : Type 0) (key : A → ℕ) (row : ℕ → A) (rows rows' : List A)
      → create A key row rows ≡ some rows'
      → IsAdded key row rows rows'
  pub first_or_create_done :
      (A : Type 0) (key : A → ℕ) (p : A → Bool) (row : ℕ → A) (rows rows' : List A)
      → first_or_create A key p row rows ≡ some rows'
      → ((any p rows ≡ true) × (rows' ≡ rows)) ⊎ ((any p rows ≡ false) × IsAdded key row rows rows')
  pub assign_set : (A : Type 0) (new old : A) → assign A false new old ≡ new
  pub assign_zero : (A : Type 0) (new old : A) → assign A true new old ≡ old
