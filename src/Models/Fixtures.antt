-- ===== src/Models/Fixtures.antt =====
-- Test data: a table library that keeps the laws of the interface to gorm, and a small database.
use mathlib.Core.List.{Memᴰ}
use mathlib.Core.Path.{subst}
use rtz_server.Base.{
  ℕ, Bool, true, false, ◌≡◌, ◌≢◌, ◌↔◌, refl, sym, ◌⊎◌, inl, inr, List, [], ◌∷◌, none, All, ◌==◌,
  if◌then◌else◌, Bool-cases, arith,
}
use rtz_server.Base.Int.{pos}
use rtz_server.GoText.{Str, codes, str_eq, is_empty}
use rtz_server.Models.Rows.{User, Device, Database}
use rtz_server.Models.Gorm.{Fetched, fetched, not_found, Gorm}

abbrev pub first_row : (A : Type 0) → (A → Bool) → List A → Fetched A
first_row A p [] = not_found
first_row A p (a ∷ rows) = let rest = first_row A p rows in if p a then fetched a else rest

abbrev pub rows_with : {A : Type 0} → (A → Bool) → List A → List A
rows_with p [] = []
rows_with p (a ∷ rows) = let rest = rows_with p rows in if p a then a ∷ rest else rest

fetched_injective : {A : Type 0} {a b : A} → fetched a ≡ fetched b → a ≡ b
fetched_injective e = cc

pub first_row_sound :
    (A : Type 0) (p : A → Bool) (rows : List A) (a : A)
    → first_row A p rows ≡ fetched a
    → (p a ≡ true) × Memᴰ a rows
first_row_sound A p [] a e = cc
first_row_sound A p (b ∷ rows) a e = elim (Bool-cases (p b)) [
  | inl hit ↦
      let same : b ≡ a = fetched_injective (ground arith) in
      (subst (λ x. p x ≡ true) same hit, Memᴰ.head (sym same))
  | inr miss ↦
      let (hit, listed) = first_row_sound A p rows a (ground arith) in (hit, Memᴰ.tail listed)
]

pub first_row_complete :
    (A : Type 0) (p : A → Bool) (rows : List A)
    → first_row A p rows ≡ not_found
    → All (λ a. p a ≡ false) rows
first_row_complete A p [] e = tt
first_row_complete A p (b ∷ rows) e = elim (Bool-cases (p b)) [
  | inl hit ↦ ground arith
  | inr miss ↦ (miss, first_row_complete A p rows (ground arith))
]

Memᴰ-cons : {A : Type 0} {a b : A} {xs : List A} → Memᴰ a (b ∷ xs) → (a ≡ b) ⊎ Memᴰ a xs
Memᴰ-cons (Memᴰ.head e) = inl e
Memᴰ-cons (Memᴰ.tail m) = inr m

rows_with_sound :
    (A : Type 0) (p : A → Bool) (rows : List A) (a : A)
    → Memᴰ a (rows_with p rows)
    → (p a ≡ true) × Memᴰ a rows
rows_with_sound A p [] a m = elim m [ ]
rows_with_sound A p (b ∷ rows) a m = elim (Bool-cases (p b)) [
  | inl hit ↦
      let kept : rows_with p (b ∷ rows) ≡ b ∷ rows_with p rows = rw hit in
      elim (Memᴰ-cons (subst (λ xs. Memᴰ a xs) kept m)) [
        | inl same ↦ (subst (λ x. p x ≡ true) (sym same) hit, Memᴰ.head same)
        | inr later ↦
            let (good, listed) = rows_with_sound A p rows a later in (good, Memᴰ.tail listed)
      ]
  | inr miss ↦
      let dropped : rows_with p (b ∷ rows) ≡ rows_with p rows = rw miss in
      let (good, listed) = rows_with_sound A p rows a (subst (λ xs. Memᴰ a xs) dropped m) in
      (good, Memᴰ.tail listed)
]

rows_with_complete :
    (A : Type 0) (p : A → Bool) (rows : List A) (a : A)
    → p a ≡ true
    → Memᴰ a rows
    → Memᴰ a (rows_with p rows)
rows_with_complete A p [] a good m = elim m [ ]
rows_with_complete A p (b ∷ rows) a good m = elim (Bool-cases (p b)) [
  | inl hit ↦ rw hit (elim (Memᴰ-cons m) [
    | inl same ↦ Memᴰ.head same
    | inr later ↦ Memᴰ.tail (rows_with_complete A p rows a good later)
  ])
  | inr miss ↦ rw miss (elim (Memᴰ-cons m) [
    | inl same ↦ absurd (let bad : p b ≡ true = subst (λ x. p x ≡ true) same good in cc (bad, miss))
    | inr later ↦ rows_with_complete A p rows a good later
  ])
]

pub rows_with_iff :
    (A : Type 0) (p : A → Bool) (rows found : List A)
    → fetched (rows_with p rows) ≡ fetched found
    → (a : A) → Memᴰ a found ↔ ((p a ≡ true) × Memᴰ a rows)
rows_with_iff A p rows found e a =
    let same : rows_with p rows ≡ found = fetched_injective e in
    subst (λ xs. Memᴰ a xs ↔ ((p a ≡ true) × Memᴰ a rows)) same
      (rows_with_sound A p rows a, λ (good, m). rows_with_complete A p rows a good m)

pub sample_cond : (s t : Str) → s ≢ [] → (if is_empty s then true else str_eq s t) ≡ str_eq s t
unfolding is_empty
sample_cond [] t h = absurd (h refl)
sample_cond (c ∷ s) t h = refl

pub sample_cond_zero : (t : Str) → (if is_empty [] then true else str_eq [] t) ≡ true
unfolding is_empty
sample_cond_zero t = refl

pub sample_num_cond : (m n : ℕ) → m ≢ 0 → (if m == 0 then true else m == n) ≡ (m == n)
sample_num_cond m n h = ground arith

abbrev pub sample_gorm : Gorm
sample_gorm = record {
  first = first_row;
  find = λ A p rows. fetched (rows_with p rows);
  str_cond = λ s t. if is_empty s then true else str_eq s t;
  num_cond = λ m n. if m == 0 then true else m == n;
  first_fetched = first_row_sound;
  first_not_found = first_row_complete;
  find_fetched = rows_with_iff;
  str_cond_set = sample_cond;
  str_cond_zero = sample_cond_zero;
  num_cond_set = sample_num_cond;
  num_cond_zero = λ n. refl;
}

abbrev pub sample_user : User
sample_user = record {
  id = 7;
  github_user_id = none;
  google_user_id = none;
  custom_user_id = none;
  superuser = false;
  created_at = none;
}

abbrev pub sample_device : Device
sample_device = record {
  id = 3;
  alias = none;
  dongle_id = codes "d1";
  serial = codes "s1";
  public_key = codes "k1";
  is_paired = true;
  prime = false;
  prime_type = 0;
  trial_claimed = false;
  device_type = codes "tici";
  last_gps_time = none;
  last_gps_lat = none;
  last_gps_lng = none;
  last_gps_speed = none;
  last_gps_bearing = none;
  openpilot_version = [];
  last_athena_ping = pos 0;
  destination_set = false;
  destination_latitude = 0;
  destination_longitude = 0;
  destination_place_details = [];
  destination_place_name = [];
  owner_id = 7;
  created_at = none;
}

abbrev pub sample_database : Database
sample_database = record {
  devices = sample_device ∷ [];
  users = sample_user ∷ [];
  locations = [];
  device_shares = [];
  boot_logs = [];
  crash_logs = [];
  routes = [];
}
