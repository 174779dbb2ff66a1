-- ===== src/Controllers/Ownership/Rows.antt =====
-- The owners of a table of devices after a write to it.
use mathlib.Core.List.{Memᴰ}
use rtz_server.Base.{
  ℕ, ◌≡◌, ◌≢◌, refl, ◌∙◌, ap, inl, inr, List, [], ◌∷◌, ◌++◌, some, ◌==◌, All, Bool-cases,
}
use rtz_server.Models.Rows.{Device, Database}
use rtz_server.Models.Writes.{Writes, changed_rows}
use rtz_server.Models.Writes.Tables.{changed_rows-same}
use rtz_server.Controllers.Ownership.{Holding, holding, owners, unseen_by, Transfer, stays}

-- A change of the rows that the abstract machine can follow.
pub owners-changed_rows :
    (k : ℕ) (f : Device → Device) (g : Holding → Holding)
    → ((d : Device) → holding (f d) ≡ g (holding d))
    → (rows : List Device)
    → owners (changed_rows (λ d. d.id == k) f rows) ≡ changed_rows (λ h. h.key == k) g (owners rows)
owners-changed_rows k f g same [] = refl
owners-changed_rows k f g same (d ∷ rows) =
    let rest = owners-changed_rows k f g same rows in
    elim (Bool-cases (d.id == k)) [ inl hit ↦ rw (hit, same d, rest) | inr miss ↦ rw (miss, rest) ]

-- An update that keeps the primary key, the dongle id and the owner keeps the owners.
pub owners-same :
    (k : ℕ) (f : Device → Device)
    → ((d : Device) → holding (f d) ≡ holding d)
    → (rows : List Device) → owners (changed_rows (λ d. d.id == k) f rows) ≡ owners rows
owners-same k f same rows =
    owners-changed_rows k f (λ h. h) same rows
    ∙ changed_rows-same (λ h. h.key == k) (λ h. h) (λ h. refl) (owners rows)

pub owners-append :
    (rows : List Device) (new : Device)
    → owners (rows ++ (new ∷ [])) ≡ owners rows ++ (holding new ∷ [])
owners-append [] new = refl
owners-append (d ∷ rows) new = ap (λ t. holding d ∷ t) (owners-append rows new)

pub Memᴰ-owners : (d : Device) (rows : List Device) → Memᴰ d rows → Memᴰ (holding d) (owners rows)
Memᴰ-owners d [] m = elim m [ ]
Memᴰ-owners d (e ∷ rows) (Memᴰ.head same) = Memᴰ.head (ap holding same)
Memᴰ-owners d (e ∷ rows) (Memᴰ.tail m) = Memᴰ.tail (Memᴰ-owners d rows m)

pub All-owners :
    (k : ℕ) (rows : List Device) → All (λ d. d.id ≢ k) rows → All (λ h. h.key ≢ k) (owners rows)
All-owners k [] h = tt
All-owners k (d ∷ rows) (other, h) = (other, All-owners k rows h)

module _ (writes : Writes) where
  pub rows_changed :
      (db : Database) (device : Device) (f : Device → Device) (rows : List Device)
      → writes.update Device (λ d. d.id == device.id) f db.devices ≡ some rows
      → record db { devices = rows }
        ≡ record db { devices = changed_rows (λ d. d.id == device.id) f db.devices }
  rows_changed db device f rows written =
      ap (λ t. record db { devices = t })
        (writes.update_done Device (λ d. d.id == device.id) f db.devices rows written)

  pub kept_owners :
      (db db0 db' : Database) (device : Device) (f : Device → Device)
      → ((d : Device) → holding (f d) ≡ holding d)
      → db0 ≡ db
      → db' ≡ record db0 { devices = changed_rows (λ d. d.id == device.id) f db0.devices }
      → Transfer (owners db.devices) (owners db'.devices) unseen_by
  kept_owners db db0 db' device f keep same left = stays (
      ap (λ d. owners d.devices) left
      ∙ owners-same device.id f keep db0.devices
      ∙ ap (λ d. owners d.devices) same)
