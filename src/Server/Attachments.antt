-- ===== src/Server/Attachments.antt =====
-- Encrypted attachments in the bucket (server/src/attachments.ts): the upload, the download and the
-- daily cleaning. The bucket's listing comes in pages, which are an argument here.
use mekamb_chat.Common.{
  ℕ, suc, ◌+◌, ◌-◌, ◌*◌, ◌≤◌, ◌<◌, ◌≡◌, refl, String, Bool, true, false, not, ◌&&◌, ◌||◌, Option,
  none, some, List, [], ◌∷◌, ◌++◌, map, filter, any, find, length, if◌then◌else◌, ltb, ◌==◌,
  text_eqb, get_or_else,
}
pub mod Cleaning

-- An object with its metadata; `uploaded_at` is missing where the metadata is.
pub record Stored : Type 0 where
  pub key : String
  pub bytes : List ℕ
  pub uploaded_at : Option ℕ
  pub uploaded_by : String

abbrev pub Bucket : Type 0
Bucket = List Stored

pub data Answer : Type 0 where
  refused : ℕ → String → Answer
  stored : String → ℕ → Answer
  content : List ℕ → Answer

-- `MAX_ATTACHMENT_BYTES`
abbrev pub max_attachment_bytes : ℕ
max_attachment_bytes = 25 * 1024 * 1024

-- `ATTACHMENT_RETENTION_DAYS`, in milliseconds.
abbrev pub retention_ms : ℕ
retention_ms = 30 * 24 * 60 * 60 * 1000

-- `put`: an object with the key is replaced.
unfoldable pub put : Stored → Bucket → Bucket
put o [] = o ∷ []
put o (b ∷ bs) = if text_eqb b.key o.key then o ∷ bs else b ∷ put o bs

-- POST /attachments/; `declared` is the header `Content-Length`.
unfoldable pub upload : ℕ → List ℕ → String → String → ℕ → Bucket → Bucket × Answer
unfolding put
upload declared bytes user uuid now s =
    if ltb max_attachment_bytes declared
    then (s, refused 413 "załącznik przekracza limit rozmiaru")
    else if length bytes == 0
    then (s, refused 400 "pusty załącznik")
    else if ltb max_attachment_bytes (length bytes)
    then (s, refused 413 "załącznik przekracza limit rozmiaru")
    else (
      put (record { key = uuid; bytes = bytes; uploaded_at = some now; uploaded_by = user }) s,
      stored uuid (length bytes),
    )

-- GET /attachments/:blobId
unfoldable pub download : String → Bucket → Answer
download key s = elim (find (λ o. text_eqb o.key key) s) [
  | none ↦ refused 404 "nie ma takiego załącznika"
  | some o ↦ content o.bytes
]

-- Older than the retention time; where that reaches below 0, nothing is.
abbrev pub is_orphaned : ℕ → Stored → Bool
is_orphaned now o = ltb (get_or_else o.uploaded_at 0) (now - retention_ms)

abbrev pub keys_of : List Stored → List String
keys_of [] = []
keys_of (o ∷ os) = o.key ∷ keys_of os

-- `delete` of a list of keys.
unfoldable pub delete_keys : List String → Bucket → Bucket
delete_keys keys s = filter (λ o. not (any (λ k. text_eqb o.key k) keys)) s

-- One round of the loop: what is too old on the page is deleted and counted.
unfoldable pub clean_page : ℕ → List Stored → Bucket × ℕ → Bucket × ℕ
unfolding delete_keys
clean_page now page (s, count) =
    let keys = keys_of (filter (is_orphaned now) page) in
    if length keys == 0 then (s, count) else (delete_keys keys s, count + length keys)

-- `cleanupOrphanedAttachments`, over the pages that the listing gives.
unfoldable pub clean_pages : ℕ → List (List Stored) → Bucket × ℕ → Bucket × ℕ
unfolding clean_page
clean_pages now [] r = r
clean_pages now (page ∷ pages) r = clean_pages now pages (clean_page now page r)

-- A bucket that is not bound has nothing to clean.
unfoldable pub clean_up : ℕ → List (List Stored) → Option Bucket → Option Bucket × ℕ
clean_up now pages none = (none, 0)
clean_up now pages (some s) = let (t, count) = clean_pages now pages (s, 0) in (some t, count)
