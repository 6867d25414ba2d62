-- ===== src/Tests/Services.antt =====
-- Runs of the rate limiter (server/src/ratelimit.ts), the directory (server/src/directory.ts) and
-- the delivery tokens (server/src/tokeny.ts).
use mekamb_chat.Common.{
  ℕ, ◌+◌, ◌-◌, ◌*◌, ◌≤◌, ◌≡◌, refl, Bool, true, false, Option, none, some, List, [], ◌∷◌, arith,
}
use mekamb_chat.Server.RateLimit.{Rate, unit, full}
use mekamb_chat.Server.RateLimit.Throughput.{allowed_count, throughput}
use mekamb_chat.Server.Directory.{Device, Tables}
use mekamb_chat.Server.Directory.Stock.{given, Distinct, given-Distinct}
use mekamb_chat.Server.Tokens.{redeem}
use mekamb_chat.Server.Tokens.Spending.{spends, cleans, call_all, is_ok, redeem_once}

-- Two tokens, one more each 30 seconds.
abbrev rate : Rate
rate = record { capacity = 2; refill = 1; per = 30 }

abbrev times : List ℕ
times = 1000 ∷ 1001 ∷ 1002 ∷ 40000 ∷ []

throughput_example :
    allowed_count [] "login:ala" rate times * unit rate ≤ full rate + (40000 - 1000) * rate.refill
throughput_example =
    throughput [] "login:ala" rate 1000 40000 times
      (omega arith, (omega arith, (omega arith, (omega arith, omega arith))))

abbrev phone : Device
phone = record {
  id = "phone";
  user_id = "u1";
  mls_public_key = 1 ∷ [];
  transport_key = some "key";
  transport_addresses = none;
  addr_signature = none;
  display_name = none;
  created_at = 10;
  last_seen_at = 10;
}

abbrev tables : Tables
tables = record {
  devices = phone ∷ [];
  packages =
      record { id = "p1"; device_id = "phone"; blob = 1 ∷ []; created_at = 5; consumed_at = none }
      ∷ record { id = "p2"; device_id = "phone"; blob = 2 ∷ []; created_at = 4; consumed_at = none }
      ∷ [];
  refreshes = [];
}

given-Distinct_example :
    Distinct (given (("phone", 20) ∷ ("phone", 21) ∷ ("phone", 22) ∷ []) tables)
given-Distinct_example = given-Distinct (("phone", 20) ∷ ("phone", 21) ∷ ("phone", 22) ∷ []) tables

abbrev accept_all : List ℕ → List ℕ → Option Bool
accept_all seed unblinded = some true

redeem_once_example :
    is_ok
      (redeem accept_all
        (call_all accept_all
          (spends (2 ∷ []) [] 150 ∷ cleans 200 ∷ [])
          (redeem accept_all [] (1 ∷ []) [] 100).0)
        (1 ∷ [])
        (9 ∷ [])
        300).1
    ≡ false
unfolding redeem
redeem_once_example =
    redeem_once accept_all [] (1 ∷ []) [] (9 ∷ []) 100 300
      (spends (2 ∷ []) [] 150 ∷ cleans 200 ∷ []) refl ((omega arith, tt))
