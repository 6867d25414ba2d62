-- ===== src/Server/Directory.antt =====
-- The directory of devices and their stock of key packages (server/src/directory.ts), over the
-- tables `devices`, `key_packages` and `refresh_tokens`.
use mekamb_chat.Common.{
  ℕ, suc, ◌+◌, String, Bool, true, false, not, ◌&&◌, ◌||◌, Option, none, some, List, [], ◌∷◌, ◌++◌,
  if◌then◌else◌, ltb, is_some, text_eqb, any, filter, find, count, length,
}
use mekamb_chat.Server.Auth.State.{User, Refresh}
pub mod Devices
pub mod Stock

-- A row of `devices`.
pub record Device : Type 0 where
  pub id : String
  pub user_id : String
  pub mls_public_key : List ℕ
  pub transport_key : Option String
  pub transport_addresses : Option String
  pub addr_signature : Option (List ℕ)
  pub display_name : Option String
  pub created_at : ℕ
  pub last_seen_at : ℕ

-- A row of `key_packages`.
pub record KeyPackage : Type 0 where
  pub id : String
  pub device_id : String
  pub blob : List ℕ
  pub created_at : ℕ
  pub consumed_at : Option ℕ

pub record Tables : Type 0 where
  pub devices : List Device
  pub packages : List KeyPackage
  pub refreshes : List Refresh

-- `usernameFor`
unfoldable pub username_for : List User → String → Option String
username_for users id = elim (find (λ u. text_eqb u.id id) users) [
  | none ↦ none
  | some u ↦ some u.username
]

-- ORDER BY last_seen_at DESC
abbrev pub insert_device : Device → List Device → List Device
insert_device d [] = d ∷ []
insert_device d (e ∷ es) =
    if ltb d.last_seen_at e.last_seen_at then e ∷ insert_device d es else d ∷ e ∷ es

abbrev pub latest_first : List Device → List Device
latest_first [] = []
latest_first (d ∷ ds) = insert_device d (latest_first ds)

-- `lookupDevices`
unfoldable pub lookup_devices : List User → String → Tables → List Device
lookup_devices users username s = latest_first (
    filter (λ d. any (λ u. text_eqb u.id d.user_id && text_eqb u.username username) users)
      s.devices)

-- `urzadzenieNalezyDo`
unfoldable pub device_belongs_to : String → String → Tables → Bool
device_belongs_to device_id user_id s =
    any (λ d. text_eqb d.id device_id && text_eqb d.user_id user_id) s.devices

-- `usunUrzadzenie`
unfoldable pub remove_device : String → String → Tables → Tables × Bool
unfolding device_belongs_to
remove_device device_id user_id s =
    if device_belongs_to device_id user_id s
    then (
      record s {
        packages = filter (λ p. not (text_eqb p.device_id device_id)) s.packages;
        refreshes = filter (λ r. not (text_eqb r.device_id device_id)) s.refreshes;
        devices =
            filter (λ d. not (text_eqb d.id device_id && text_eqb d.user_id user_id)) s.devices;
      },
      true,
    )
    else (s, false)

-- WHERE device_id = ? AND consumed_at IS NULL
abbrev pub is_free : String → KeyPackage → Bool
is_free device_id p = text_eqb p.device_id device_id && not (is_some p.consumed_at)

-- ORDER BY created_at LIMIT 1; among equal times, the first row.
abbrev pub older : Option KeyPackage → KeyPackage → KeyPackage
older none p = p
older (some q) p = if ltb q.created_at p.created_at then q else p

unfoldable pub oldest_free : String → List KeyPackage → Option KeyPackage
oldest_free device_id [] = none
oldest_free device_id (p ∷ ps) =
    let rest = oldest_free device_id ps in if is_free device_id p then some (older rest p) else rest

-- SET consumed_at = ? WHERE id = ?
unfoldable pub mark : String → ℕ → List KeyPackage → List KeyPackage
mark id now [] = []
mark id now (p ∷ ps) =
    let rest = mark id now ps in
    if text_eqb p.id id then record p { consumed_at = some now } ∷ rest else p ∷ rest

-- `consumeKeyPackage`
unfoldable pub consume_key_package : String → ℕ → Tables → Tables × Option (List ℕ)
unfolding oldest_free mark
consume_key_package device_id now s = elim (oldest_free device_id s.packages) [
  | none ↦ (s, none)
  | some p ↦ (record s { packages = mark p.id now s.packages }, some p.blob)
]

-- `availableKeyPackages`
unfoldable pub available_key_packages : String → Tables → ℕ
available_key_packages device_id s = count (is_free device_id) s.packages

-- The rows that `publishKeyPackages` inserts, with the random ids that it draws.
abbrev pub fresh_packages : String → ℕ → List (String × List ℕ) → List KeyPackage
fresh_packages device_id now [] = []
fresh_packages device_id now ((id, blob) ∷ more) =
    record { id = id; device_id = device_id; blob = blob; created_at = now; consumed_at = none }
    ∷ fresh_packages device_id now more

-- `publishKeyPackages`
unfoldable pub publish_key_packages : String → ℕ → List (String × List ℕ) → Tables → Tables × ℕ
publish_key_packages device_id now packages s =
    (record s { packages = s.packages ++ fresh_packages device_id now packages }, length packages)

-- INSERT … ON CONFLICT(id) DO UPDATE … WHERE devices.user_id = excluded.user_id
unfoldable pub upsert_device : Device → List Device → List Device
upsert_device d [] = d ∷ []
upsert_device d (e ∷ es) =
    let rest = upsert_device d es in
    if text_eqb e.id d.id
    then if text_eqb e.user_id d.user_id
      then record e {
        mls_public_key = d.mls_public_key;
        transport_key = d.transport_key;
        transport_addresses = d.transport_addresses;
        addr_signature = d.addr_signature;
        last_seen_at = d.last_seen_at;
      }
        ∷ es
      else e ∷ es
    else e ∷ rest

-- `registerDevice`; the row carries the time of the call in both its times.
unfoldable pub register_device : Device → Tables → Tables × Bool
unfolding upsert_device device_belongs_to
register_device d s =
    let t : Tables = record s { devices = upsert_device d s.devices } in
    (t, device_belongs_to d.id d.user_id t)
