-- ===== src/Server/Attachments/Cleaning.antt =====
-- What the cleaning of attachments deletes (server/src/attachments.ts, `cleanupOrphanedAttachments`).
use mekamb_chat.Common.{
  ℕ, ◌≡◌, refl, ap, String, Bool, true, ◌&&◌, List, [], ◌∷◌, ◌++◌, filter, any, text_eqb, All,
}
use mekamb_chat.Server.Attachments.{Stored, is_orphaned, keys_of}

abbrev pub concat : List (List Stored) → List Stored
concat [] = []
concat (page ∷ pages) = page ++ concat pages

-- Whether the key is one of those that the pages show as too old.
abbrev pub is_listed : ℕ → List Stored → String → Bool
is_listed now page key = any (λ k. text_eqb key k) (keys_of (filter (is_orphaned now) page))

keys_of-append : (a b : List Stored) → keys_of (a ++ b) ≡ keys_of a ++ keys_of b
keys_of-append [] b = refl
keys_of-append (o ∷ a) b = ap (λ l. o.key ∷ l) (keys_of-append a b)

-- The pages show each object of the bucket as it is, and nothing else under its key.
abbrev pub Shows : List Stored → Stored → Type 0
Shows shown o =
    (any (λ p. text_eqb p.key o.key) shown ≡ true)
    × All (λ p. p.key ≡ o.key → p.uploaded_at ≡ o.uploaded_at) shown

module _ (now : ℕ) (p o : Stored) (shown : List Stored) where
  abbrev Seen : List Stored → Type 0
  Seen l = is_listed now l o.key ≡ (any (λ q. text_eqb q.key o.key) l && is_orphaned now o)
