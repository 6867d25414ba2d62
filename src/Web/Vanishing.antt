-- ===== src/Web/Vanishing.antt =====
-- Vanishing messages: the time that each conversation keeps them (web/src/lib/znikanie.ts).
use mekamb_chat.Common.{
  ℕ, ◌-◌, ◌*◌, String, Option, none, some, List, [], ◌∷◌, ◌==◌, ltb, if◌then◌else◌, text_discrete,
}
use mekamb_chat.Common.Keyed.{set, delete}

-- The file in the vault, with its version.
pub data SavedTimes : Type 0 where
  no_times unreadable_times : SavedTimes
  stored_times : ℕ → List (String × ℕ) → SavedTimes

-- `wczytajSurowe`
unfoldable pub load_times : SavedTimes → List (String × ℕ)
load_times no_times = []
load_times unreadable_times = []
load_times (stored_times v times) = if v == 1 then times else []

abbrev pub with_time : String → Option ℕ → List (String × ℕ) → List (String × ℕ)
with_time key none times = delete text_discrete key times
with_time key (some seconds) times =
    if ltb 0 seconds then set text_discrete key seconds times else delete text_discrete key times

-- `ustawZnikanie`, for whole seconds.
unfoldable pub set_time : String → Option ℕ → SavedTimes → SavedTimes × List (String × ℕ)
unfolding load_times
set_time key seconds saved =
    let times = with_time key seconds (load_times saved) in (stored_times 1 times, times)

-- `zapomnijZnikanie`
unfoldable pub forget_time : String → SavedTimes → SavedTimes × List (String × ℕ)
unfolding load_times
forget_time key saved =
    let times = delete text_discrete key (load_times saved) in (stored_times 1 times, times)

-- `graniceOdciecia`; a limit before 1970 is 0, which cuts as little.
unfoldable pub cutoffs : List (String × ℕ) → ℕ → List (String × ℕ)
cutoffs [] now = []
cutoffs ((key, seconds) ∷ times) now =
    let rest = cutoffs times now in
    if ltb 0 seconds then (key, now - seconds * 1000) ∷ rest else rest
