-- ===== src/Tests/Pairing.antt =====
-- An invitation in a browser with base64 (web/src/lib/parowanie.ts); its escaping moves each
-- character up by a hundred.
use mekamb_chat.Common.{
  ℕ, ◌+◌, ◌-◌, ◌*◌, ◌/◌, ◌%◌, some, List, [], ◌∷◌, ◌++◌, ◌&&◌, map, drop, length, if◌then◌else◌,
  ◌==◌, ltb, leb,
}
use mekamb_chat.Common.Arrays.{replicate}
use mekamb_chat.Web.Pairing.{Browser, InvitationData, strip_end}

-- The character of six bits, and the bits of a character.
abbrev digit : ℕ → ℕ
digit n =
    if ltb n 26
    then n + 65
    else if ltb n 52
    then n + 71
    else if ltb n 62
    then n - 4
    else if n == 62
    then 43
    else 47

abbrev bits : ℕ → ℕ
bits c =
    if leb 65 c && leb c 90
    then c - 65
    else if leb 97 c && leb c 122
    then c - 71
    else if leb 48 c && leb c 57
    then c + 4
    else if c == 43
    then 62
    else 63

-- Three bytes in four characters, and the last one or two in two or three.
encode : List ℕ → List ℕ
encode [] = []
encode (a ∷ []) = digit (a / 4) ∷ digit (a % 4 * 16) ∷ []
encode (a ∷ b ∷ []) = digit (a / 4) ∷ digit (a % 4 * 16 + b / 16) ∷ digit (b % 16 * 4) ∷ []
encode (a ∷ b ∷ c ∷ r) =
    digit (a / 4)
    ∷ digit (a % 4 * 16 + b / 16)
    ∷ digit (b % 16 * 4 + c / 64)
    ∷ digit (c % 64)
    ∷ encode r

decode : List ℕ → List ℕ
decode [] = []
decode (w ∷ []) = []
decode (w ∷ x ∷ []) = (bits w * 4 + bits x / 16) ∷ []
decode (w ∷ x ∷ y ∷ []) = (bits w * 4 + bits x / 16) ∷ (bits x % 16 * 16 + bits y / 4) ∷ []
decode (w ∷ x ∷ y ∷ z ∷ r) =
    (bits w * 4 + bits x / 16)
    ∷ (bits x % 16 * 16 + bits y / 4)
    ∷ (bits y % 4 * 64 + bits z)
    ∷ decode r

abbrev padding : List ℕ → ℕ
padding l = (4 - length (encode l) % 4) % 4

-- The text up to the sign `&`, and the text behind it.
up_to : List ℕ → List ℕ × List ℕ
up_to [] = ([], [])
up_to (c ∷ t) = let (a, b) = up_to t in if c == 38 then ([], t) else (c ∷ a, b)

abbrev escape : List ℕ → List ℕ
escape = map (λ c. c + 100)

abbrev browser : Browser
unfolding encode decode strip_end up_to
browser = record {
  btoa = λ bytes. encode bytes ++ replicate (padding bytes) 61;
  atob = λ t. some (decode (strip_end t));
  encode_component = escape;
  param = λ t name.
      let (d, k) = up_to (drop 2 t) in
      if name == 100 then some (map (λ c. c - 100) d) else some (drop 2 k);
  trim = λ t. t;
}

abbrev invitation : InvitationData
invitation = record { device_id = 112 ∷ 104 ∷ []; public_key = replicate 32 3 }
