-- ===== src/Web/Qr/Field.antt =====
-- web/src/lib/qr.ts, arithmetic of GF(256): the tables EXP and LOG, `exp`, `log` and `mnoz`.
use mekamb_chat.Common.{ℕ, zero, suc, ◌+◌, ◌-◌, ◌*◌, ◌/◌, ◌%◌}
use mekamb_chat.Common.{◌||◌, ◌==◌, if◌then◌else◌}
use mekamb_chat.Common.{List, get_or_else}
use mekamb_chat.Common.Arrays.{at?, put_at, zeros}
use Prim.Native.Nat.{bit_xor}

-- `x <<= 1; if (x & 0x100) x ^= 0x11d;`
unfoldable pub doubled : ℕ → ℕ
doubled x = if (x * 2 / 256 % 2) == 1 then bit_xor (x * 2) 0x11d else x * 2

-- EXP and LOG while they are being filled, with the loop's x.
pub record Tables : Type 0 where
  pub exps : List ℕ
  pub logs : List ℕ

-- The loop over i < 255, with n rounds to go.
unfoldable pub fill : ℕ → ℕ → ℕ → Tables → Tables
fill zero i x t = t
fill (suc n) i x t =
    fill n (suc i) (doubled x) (record { exps = put_at i x t.exps; logs = put_at x i t.logs })

-- The loop over i from 255 below 512: `EXP[i] = EXP[i - 255] ?? 0`.
unfoldable pub repeat_exps : ℕ → ℕ → List ℕ → List ℕ
repeat_exps zero i l = l
repeat_exps (suc n) i l = repeat_exps n (suc i) (put_at i (get_or_else (at? (i - 255) l) 0) l)

unfoldable pub filled : Tables
filled = fill 255 0 1 (record { exps = zeros 512; logs = zeros 256 })

unfoldable pub exp_table : List ℕ
exp_table = repeat_exps 257 255 filled.exps

unfoldable pub log_table : List ℕ
log_table = filled.logs

-- `EXP[i] ?? 0` and `LOG[i] ?? 0`.
unfoldable pub exp : ℕ → ℕ
exp i = get_or_else (at? i exp_table) 0

unfoldable pub log : ℕ → ℕ
log i = get_or_else (at? i log_table) 0

-- `mnoz`
unfoldable pub times : ℕ → ℕ → ℕ
times a b = if (a == 0) || (b == 0) then 0 else exp (log a + log b)
