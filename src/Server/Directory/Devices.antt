-- ===== src/Server/Directory/Devices.antt =====
-- The devices of the directory (server/src/directory.ts).
use mekamb_chat.Common.{
  ◌≡◌, refl, subst, String, true, false, not, ◌&&◌, some, Bool-cases, inl, inr, List, [], ◌∷◌,
  if◌then◌else◌, text_eqb, text_eqb→eq, find, filter, arith, All, ◌∙◌, count,
}
use mekamb_chat.Server.Directory.{
  Device, Tables, upsert_device, register_device, device_belongs_to, remove_device, is_free,
  KeyPackage, available_key_packages,
}

-- A registration by another account leaves a device's row as it is, and one by its own keeps its
-- account, its name and the time of its creation.
abbrev pub kept_row : Device → Device → Device
kept_row e d =
    if text_eqb e.id d.id && text_eqb e.user_id d.user_id
    then record e {
      mls_public_key = d.mls_public_key;
      transport_key = d.transport_key;
      transport_addresses = d.transport_addresses;
      addr_signature = d.addr_signature;
      last_seen_at = d.last_seen_at;
    }
    else e

upsert_device_first :
    (id : String) (d x : Device) (es : List Device)
    → text_eqb x.id id ≡ true
    → find (λ x. text_eqb x.id id) (upsert_device d (x ∷ es)) ≡ some (kept_row x d)
unfolding upsert_device
upsert_device_first id d x es h = elim (Bool-cases (text_eqb x.id d.id)) [
  | inr other ↦ rw (other, h) refl
  | inl same ↦ elim (Bool-cases (text_eqb x.user_id d.user_id)) [
    | inl own ↦ rw (same, own, h) refl
    | inr foreign ↦ rw (same, foreign, h) refl
  ]
]

find_id :
    (id : String) (e : Device) (es : List Device)
    → find (λ x. text_eqb x.id id) es ≡ some e
    → e.id ≡ id
find_id id e [] h = cc
find_id id e (x ∷ es) h = elim (Bool-cases (text_eqb x.id id)) [
  | inl here ↦
      let same : x ≡ e = cc (rw here at h) in subst (λ y. y.id ≡ id) same (text_eqb→eq x.id id here)
  | inr there ↦ find_id id e es (rw there at h)
]

upsert_device_later :
    (id : String) (d e x : Device) (es : List Device)
    → text_eqb x.id id ≡ false
    → find (λ x. text_eqb x.id id) es ≡ some e
    → find (λ x. text_eqb x.id id) (upsert_device d es) ≡ some (kept_row e d)
    → find (λ x. text_eqb x.id id) (upsert_device d (x ∷ es)) ≡ some (kept_row e d)
unfolding upsert_device
upsert_device_later id d e x es h rest later = elim (Bool-cases (text_eqb x.id d.id)) [
  | inr other ↦ rw (other, h) later
  | inl same ↦
      let moved : text_eqb e.id d.id ≡ false =
        rw (find_id id e es rest, ← text_eqb→eq x.id d.id same) (ground (arith, h)) in
      elim (Bool-cases (text_eqb x.user_id d.user_id)) [
        | inl own ↦ rw (same, own, h, moved) rest
        | inr foreign ↦ rw (same, foreign, h, moved) rest
      ]
]

find-upsert_device :
    (id : String) (d e : Device) (es : List Device)
    → find (λ x. text_eqb x.id id) es ≡ some e
    → find (λ x. text_eqb x.id id) (upsert_device d es) ≡ some (kept_row e d)
unfolding upsert_device
find-upsert_device id d e [] h = cc
find-upsert_device id d e (x ∷ es) h = elim (Bool-cases (text_eqb x.id id)) [
  | inl here ↦
      let same : x ≡ e = cc (rw here at h) in
      subst (λ y. find (λ x. text_eqb x.id id) (upsert_device d (x ∷ es)) ≡ some (kept_row y d))
        same (upsert_device_first id d x es here)
  | inr there ↦
      let rest : find (λ x. text_eqb x.id id) es ≡ some e = rw there at h in
      upsert_device_later id d e x es there rest (find-upsert_device id d e es rest)
]

register_device_row :
    (id : String) (d e : Device) (s : Tables)
    → find (λ x. text_eqb x.id id) s.devices ≡ some e
    → find (λ x. text_eqb x.id id) (register_device d s).0.devices ≡ some (kept_row e d)
unfolding register_device
register_device_row id d e s h = find-upsert_device id d e s.devices h

kept_row_owner : (e d : Device) → (kept_row e d).user_id ≡ e.user_id
kept_row_owner e d = ground arith

abbrev pub register_all : List Device → Tables → Tables
register_all [] s = s
register_all (d ∷ ds) s = register_all ds (register_device d s).0

-- A device never changes hands: once an id has a row, it keeps one with the same account, whatever
-- registrations follow.
pub register_all_owner :
    (id : String) (ds : List Device) (e : Device) (s : Tables)
    → find (λ x. text_eqb x.id id) s.devices ≡ some e
    → (e' : Device) × (find (λ x. text_eqb x.id id) (register_all ds s).devices ≡ some e')
      × (e'.user_id ≡ e.user_id)
register_all_owner id [] e s h = (e, h, refl)
register_all_owner id (d ∷ ds) e s h =
    let (e', found, owner) =
      register_all_owner id ds (kept_row e d) (register_device d s).0
        (register_device_row id d e s h) in
    (e', found, owner ∙ kept_row_owner e d)

-- Registrations by other accounts, any number of them and under any ids, leave a device's row as it
-- is, with its keys and addresses.
pub foreign_registrations :
    (id : String) (ds : List Device) (e : Device) (s : Tables)
    → find (λ x. text_eqb x.id id) s.devices ≡ some e
    → All (λ d. text_eqb e.user_id d.user_id ≡ false) ds
    → find (λ x. text_eqb x.id id) (register_all ds s).devices ≡ some e
foreign_registrations id [] e s h other = h
foreign_registrations id (d ∷ ds) e s h other =
    let same : kept_row e d ≡ e = ground (arith, other.0) in
    foreign_registrations id ds e (register_device d s).0
      (subst (λ y. find (λ x. text_eqb x.id id) (register_device d s).0.devices ≡ some y) same
        (register_device_row id d e s h))
      other.1

removed_count :
    (d d' : String) (ps : List KeyPackage)
    → count (is_free d') (filter (λ p. not (text_eqb p.device_id d)) ps)
      ≡ (if text_eqb d d' then 0 else count (is_free d') ps)
removed_count d d' [] = ground arith
removed_count d d' (p ∷ ps) = ground (arith, removed_count d d' ps)

-- The stock after a removal, by anyone: nothing is left of the device if it was the account's own,
-- and nothing changes otherwise, nor for any other device.
pub remove_device_stock :
    (device_id user_id other : String) (s : Tables)
    → available_key_packages other (remove_device device_id user_id s).0 ≡ (
        if device_belongs_to device_id user_id s && text_eqb device_id other
        then 0
        else available_key_packages other s)
unfolding remove_device available_key_packages
remove_device_stock device_id user_id other s =
    elim (Bool-cases (device_belongs_to device_id user_id s)) [
      | inl e ↦ rw e (removed_count device_id other s.packages)
      | inr e ↦ rw e refl
    ]
