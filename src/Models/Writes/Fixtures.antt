-- ===== src/Models/Writes/Fixtures.antt =====
-- Test data: a table library that keeps the laws of the interface to gorm's writes.
use rtz_server.Base.{
  ℕ, ◌+◌, suc, ◌<◌, Bool, true, false, ◌≡◌, ◌≢◌, refl, sym, ◌⊎◌, inl, inr, List, [], ◌∷◌, ◌++◌,
  Option, none, some, All, any, if◌then◌else◌, Bool-cases, some_injective, arith,
}
use rtz_server.Models.Writes.{Writes, changed_rows, other_rows, IsAdded}

module _ {A : Type 0} (key : A → ℕ) where
  abbrev new_key : List A → ℕ
  new_key [] = 1
  new_key (a ∷ rows) = key a + suc (new_key rows)

  below-fresh : (n : ℕ) (rows : List A) → new_key rows < n → All (λ a. key a ≢ n) rows
  below-fresh n [] h = tt
  below-fresh n (a ∷ rows) h = (omega (arith, h), below-fresh n rows (omega (arith, h)))

  new_key-fresh : (rows : List A) → All (λ a. key a ≢ new_key rows) rows
  new_key-fresh [] = tt
  new_key-fresh (a ∷ rows) = (omega arith, below-fresh (new_key (a ∷ rows)) rows (omega arith))

abbrev pub insert : (A : Type 0) → (A → ℕ) → (ℕ → A) → List A → Option (List A)
insert A key row rows = some (rows ++ (row (new_key key rows) ∷ []))

abbrev pub insert_once : (A : Type 0) → (A → ℕ) → (A → Bool) → (ℕ → A) → List A → Option (List A)
insert_once A key p row rows = if any p rows then some rows else insert A key row rows

new_key_positive : {A : Type 0} (key : A → ℕ) (rows : List A) → new_key key rows ≢ 0
new_key_positive key [] = omega arith
new_key_positive key (a ∷ rows) = omega arith

pub insert-IsAdded :
    (A : Type 0) (key : A → ℕ) (row : ℕ → A) (rows rows' : List A)
    → insert A key row rows ≡ some rows'
    → IsAdded key row rows rows'
insert-IsAdded A key row rows rows' e =
    (new_key key rows, new_key_positive key rows, new_key-fresh key rows, sym (some_injective e))

pub insert_once_done :
    (A : Type 0) (key : A → ℕ) (p : A → Bool) (row : ℕ → A) (rows rows' : List A)
    → insert_once A key p row rows ≡ some rows'
    → ((any p rows ≡ true) × (rows' ≡ rows)) ⊎ ((any p rows ≡ false) × IsAdded key row rows rows')
insert_once_done A key p row rows rows' e = elim (Bool-cases (any p rows)) [
  | inl there ↦ inl (there, ground arith)
  | inr missing ↦ inr (missing, insert-IsAdded A key row rows rows' (ground arith))
]

abbrev pub sample_writes : Writes
sample_writes = record {
  update = λ A p f rows. some (changed_rows p f rows);
  delete = λ A conditioned p rows. if conditioned then some (other_rows p rows) else none;
  create = insert;
  first_or_create = insert_once;
  assign = λ A zero_value new old. if zero_value then old else new;
  update_done = λ A p f rows rows' e. sym (some_injective e);
  delete_refused = λ A p rows. refl;
  delete_done = λ A p rows rows' e. sym (some_injective e);
  create_done = insert-IsAdded;
  first_or_create_done = insert_once_done;
  assign_set = λ A new old. refl;
  assign_zero = λ A new old. refl;
}
