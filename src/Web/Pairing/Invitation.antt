-- ===== src/Web/Pairing/Invitation.antt =====
-- An invitation comes back from its text (web/src/lib/parowanie.ts, `zbudujZaproszenie` and
-- `odczytajZaproszenie`).
use mekamb_chat.Common.{
  ℕ, ◌+◌, ◌%◌, ◌<◌, ◌≡◌, ◌≢◌, Bool, true, false, ◌&&◌, ◌||◌, some, List, [], ◌∷◌, ◌++◌, length,
  ◌==◌, leb, All, arith,
}
use mekamb_chat.Common.Arrays.{replicate}
use mekamb_chat.Web.Pairing.{Browser, strip_end}

-- A letter or a digit.
abbrev pub is_alphanumeric : ℕ → Bool
is_alphanumeric c = (leb 48 c && leb c 57) || ((leb 65 c && leb c 90) || (leb 97 c && leb c 122))

-- The characters of base64, and those of its form for addresses.
abbrev pub Base64 : ℕ → Type 0
Base64 c = (is_alphanumeric c || (c == 43 || c == 47)) ≡ true

abbrev pub UrlSafe : ℕ → Type 0
UrlSafe c = (is_alphanumeric c || (c == 45 || c == 95)) ≡ true

-- Base64 of some bytes: characters of the alphabet, and `=` up to a multiple of four.
pub record Encoded (text : List ℕ) : Type 0 where
  pub body : List ℕ
  pub padding : ℕ
  pub text_lem : text ≡ body ++ replicate padding 61
  pub alphabet : All Base64 body
  pub short : padding < 4
  pub whole : (length body + padding) % 4 ≡ 0

-- Bytes, and characters that are no half of a surrogate pair (from 0xD800 on).
abbrev pub IsByte : ℕ → Type 0
IsByte c = c < 256

abbrev pub IsWhole : ℕ → Type 0
IsWhole c = c < 55296

-- What is relied on in the browser: the base64 of bytes in its usual form and back; the escaping of
-- whole characters, without white space; trimming that leaves a text without white space; the two
-- parameters of the address, the first escaped and the second in characters that need no escape.
pub record IsStandard (b : Browser) : Type 0 where
  pub encoded : (bytes : List ℕ) → All IsByte bytes → Encoded (b.btoa bytes)
  pub decoded : (bytes : List ℕ) → All IsByte bytes → b.atob (b.btoa bytes) ≡ some bytes
  pub nothing : b.atob [] ≡ some []
  pub escaped : (t : List ℕ) → All IsWhole t → All (λ c. 32 < c) (b.encode_component t)
  pub trimmed : (t : List ℕ) → All (λ c. 32 < c) t → b.trim t ≡ t
  pub device_param :
      (d k : List ℕ)
      → All IsWhole d
      → All UrlSafe k
      → b.param ((100 ∷ 61 ∷ []) ++ (b.encode_component d ++ ((38 ∷ 107 ∷ 61 ∷ []) ++ k))) 100
        ≡ some d
  pub key_param :
      (d k : List ℕ)
      → All IsWhole d
      → All UrlSafe k
      → b.param ((100 ∷ 61 ∷ []) ++ (b.encode_component d ++ ((38 ∷ 107 ∷ 61 ∷ []) ++ k))) 107
        ≡ some k

pub strip_cons : (c : ℕ) (t cs : List ℕ) → c ≢ 61 → strip_end t ≡ cs → strip_end (c ∷ t) ≡ c ∷ cs
unfolding strip_end
strip_cons c t [] h e = let plain : (c == 61) ≡ false = ground arith in rw (e, plain, strip_end)
strip_cons c t (d ∷ ds) h e = rw (e, strip_end)
