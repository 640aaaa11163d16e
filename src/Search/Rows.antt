-- ===== src/Search/Rows.antt =====
-- The grouped query of `searchExperiences` in src/services/experience.service.ts: an experience of the
-- list with its supplier, the number of its open slots and the start of the first, for each that has an
-- open slot. Ties of an order, which SQL leaves open, stay in table order.
use booking_availability_pla.Shared.{
  ℕ, Bool, false, ◌&&◌, ◌||◌, Option, none, some, List, [], ◌∷◌, leb, ◌==◌, if◌then◌else◌, keep,
  length, find_first,
}
use booking_availability_pla.Model.{Db, Experience, Supplier, AvailabilitySlot}
use booking_availability_pla.Dates.{Calendar}
use booking_availability_pla.Search.Query.{
  Collation, ExperienceSort, by_starts_at, by_price, by_title, by_available_spots,
  ExperienceSearchQuery, is_open,
}

-- `e` and `sup` stand for the columns that the query selects of them.
pub record GroupedExperienceRow : Type 0 where
  pub experience : Experience
  pub supplier : Supplier
  pub available_slots : ℕ
  pub earliest_slot_at : ℕ

abbrev pub earlier : ℕ → Option ℕ → ℕ
earlier t none = t
earlier t (some u) = if leb t u then t else u

-- `MIN(sl."startsAt")`
abbrev pub earliest : List AvailabilitySlot → Option ℕ
earliest [] = none
earliest (s ∷ ss) = some (earlier s.starts_at (earliest ss))

-- `id IN (…)`
abbrev pub includes_id : List ℕ → ℕ → Bool
includes_id [] id = false
includes_id (x ∷ xs) id = x == id || includes_id xs id

module _ (calendar : Calendar) (db : Db) (tenant_id : ℕ) (query : ExperienceSearchQuery) where
  abbrev pub open_slots : ℕ → List AvailabilitySlot
  open_slots experience_id =
      keep (λ s. s.experience_id == experience_id && is_open calendar tenant_id query s) db.slots

  abbrev pub group_found :
      Experience → List AvailabilitySlot → Option Supplier → Option ℕ → Option GroupedExperienceRow
  group_found e slots none at = none
  group_found e slots (some supplier) none = none
  group_found e slots (some supplier) (some at) = some (record {
    experience = e;
    supplier = supplier;
    available_slots = length slots;
    earliest_slot_at = at;
  })

  -- The inner joins and the group of one experience.
  abbrev pub group : Experience → Option GroupedExperienceRow
  group e =
      group_found e (open_slots e.id)
        (find_first (λ (s : Supplier). s.id == e.supplier_id) db.suppliers)
        (earliest (open_slots e.id))

  abbrev pub cons_row :
      Option GroupedExperienceRow → List GroupedExperienceRow → List GroupedExperienceRow
  cons_row none rows = rows
  cons_row (some row) rows = row ∷ rows

  abbrev pub groups : List Experience → List GroupedExperienceRow
  groups [] = []
  groups (e ∷ es) = cons_row (group e) (groups es)

  unfoldable pub grouped : List ℕ → List GroupedExperienceRow
  grouped ids = groups (keep (λ (e : Experience). includes_id ids e.id) db.experiences)

-- `orderBy`; a query by price takes the order of `earliest_slot_at`.
abbrev pub row_le : Collation → ExperienceSort → GroupedExperienceRow → GroupedExperienceRow → Bool
row_le collation by_title a b = collation.text_le a.experience.title b.experience.title
row_le collation by_available_spots a b = leb a.available_slots b.available_slots
row_le collation by_starts_at a b = leb a.earliest_slot_at b.earliest_slot_at
row_le collation by_price a b = leb a.earliest_slot_at b.earliest_slot_at
