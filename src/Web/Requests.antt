-- ===== src/Web/Requests.antt =====
-- Which conversations were accepted (web/src/lib/prosby.ts) and which users are blocked
-- (web/src/lib/blokady.ts). Each operation reads a record of the vault and writes it whole.
use mekamb_chat.Common.{ℕ, String, Bool, true, false, List, [], ◌∷◌, ◌==◌, if◌then◌else◌}
use mekamb_chat.Web.Receipts.{set_add, set_delete}

-- The file in the vault: nothing, unreadable bytes, or the lists with their version.
pub data Saved : Type 0 where
  absent unreadable : Saved
  stored : ℕ → List String → Bool → Saved

-- `StanProsb`
pub record Requests : Type 0 where
  pub accepted : List String
  pub seeded : Bool

-- `pusty`
abbrev pub no_requests : Requests
no_requests = record { accepted = []; seeded = false }

abbrev pub add_all : List String → List String → List String
add_all [] ids = ids
add_all (id ∷ more) ids = add_all more (set_add id ids)

-- `wczytajSurowe` of prosby.ts
unfoldable pub load_requests : Saved → Requests
load_requests absent = no_requests
load_requests unreadable = no_requests
load_requests (stored v ids seeded) =
    if v == 1 then record { accepted = add_all ids []; seeded = seeded } else no_requests

-- `zapisz`
abbrev pub save_requests : Requests → Saved
save_requests s = stored 1 s.accepted s.seeded

-- `zainicjuj`
unfoldable pub seed_requests : List String → Saved → Saved × Requests
unfolding load_requests
seed_requests ids saved =
    let s = load_requests saved in
    let t : Requests = record { accepted = add_all ids s.accepted; seeded = true } in
    if s.seeded then (saved, s) else (save_requests t, t)

-- `zaakceptuj`
unfoldable pub accept_request : String → Saved → Saved × Requests
unfolding load_requests
accept_request key saved =
    let s = load_requests saved in
    let t : Requests = record s { accepted = set_add key s.accepted } in (save_requests t, t)

-- `zapomnij`
unfoldable pub forget_request : String → Saved → Saved × Requests
unfolding load_requests
forget_request key saved =
    let s = load_requests saved in
    let t : Requests = record s { accepted = set_delete key s.accepted } in (save_requests t, t)

-- The file of blokady.ts.
pub data SavedBlocks : Type 0 where
  no_blocks unreadable_blocks : SavedBlocks
  stored_blocks : ℕ → List String → SavedBlocks

-- `wczytajSurowe` of blokady.ts
unfoldable pub load_blocked : SavedBlocks → List String
load_blocked no_blocks = []
load_blocked unreadable_blocks = []
load_blocked (stored_blocks v names) = if v == 1 then add_all names [] else []

-- `zablokuj`
unfoldable pub block : String → SavedBlocks → SavedBlocks × List String
unfolding load_blocked
block name saved = let names = set_add name (load_blocked saved) in (stored_blocks 1 names, names)

-- `odblokuj`
unfoldable pub unblock : String → SavedBlocks → SavedBlocks × List String
unfolding load_blocked
unblock name saved =
    let names = set_delete name (load_blocked saved) in (stored_blocks 1 names, names)
