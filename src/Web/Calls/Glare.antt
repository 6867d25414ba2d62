-- ===== src/Web/Calls/Glare.antt =====
-- Two offers that meet: one side gives way (web/src/lib/calls.ts, `uprzejmy`).

use Prim.Native.Char.{code}
use text.Mathlib.TextEquality.{Char-path}
use mekamb_chat.Common.{
  String, Bool, true, false, not, List, ◌≡◌, ◌≢◌, ◌⊎◌, ◌∙◌, refl, Bool-cases, inl, inr, arith,
}
use mekamb_chat.Web.Calls.{Peer, Link, text_lt, make_link, shut, ignores, LinkEvent, link_run}
use mekamb_chat.Web.Calls.Keeps.{IsKept, link_run-Good}

text_lt_asym : (s t : String) → text_lt s t ≡ true → text_lt t s ≡ false
unfolding text_lt
text_lt_asym String.[] String.[] h = absurd (cc h)
text_lt_asym String.[] (String.◌∷◌ d t) h = refl
text_lt_asym (String.◌∷◌ c s) String.[] h = absurd (cc h)
text_lt_asym (String.◌∷◌ c s) (String.◌∷◌ d t) h = ground (arith, text_lt_asym s t)

text_lt_total : (s t : String) → text_lt s t ≡ false → text_lt t s ≡ false → s ≡ t
unfolding text_lt
text_lt_total String.[] String.[] h k = refl
text_lt_total String.[] (String.◌∷◌ d t) h k = absurd (cc h)
text_lt_total (String.◌∷◌ c s) String.[] h k = absurd (cc k)
text_lt_total (String.◌∷◌ c s) (String.◌∷◌ d t) h k =
    let same : code c ≡ code d = ground arith in
    let front : text_lt s t ≡ false = ground arith in
    let back : text_lt t s ≡ false = ground arith in
    cc (Char-path c d same, text_lt_total s t front back)

-- Of two names that differ, just one is below the other.
text_lt_flip : (s t : String) → s ≢ t → text_lt t s ≡ not (text_lt s t)
text_lt_flip s t h = elim (Bool-cases (text_lt s t)) [
  | inl e ↦ rw (e, text_lt_asym s t e)
  | inr e ↦ elim (Bool-cases (text_lt t s)) [
    | inl e' ↦ rw (e, e')
    | inr e' ↦ absurd (h (text_lt_total s t e e'))
  ]
]

module _ {R : Type 0} (p : Peer R) where
  is_polite-IsKept : (b : Bool) → IsKept p (λ l. l.is_polite ≡ b)
  unfolding shut
  is_polite-IsKept b = record {
    connected = λ l r h. h;
    queued = λ l q h. h;
    offering = λ l o h. h;
    rejected = λ l h. h;
    shuts = λ l h. h;
    tries = λ l c h. h;
    sends = λ l k sdp print h. h;
    describes = λ l sdp print fit h. h;
  }

  -- An own offer is being made, or one was sent and waits for its answer.
  abbrev pub Collides : Link R → Type 0
  Collides l = (l.makes_offer ≡ true) ⊎ (p.is_stable l.connection ≡ false)

  -- The side of `me` in the connection with `username`, after what has happened to it.
  abbrev pub side : String → String → R → List LinkEvent → Link R
  side me username r es = link_run p es (make_link p username me r)

  opposed :
      (l l' : Link R) (b : Bool)
      → l.is_polite ≡ b
      → l'.is_polite ≡ not b
      → Collides l
      → Collides l'
      → ignores p l ≡ not (ignores p l')
  unfolding ignores
  opposed l l' b h h' (inl c) (inl c') = ground arith
  opposed l l' b h h' (inl c) (inr c') = ground arith
  opposed l l' b h h' (inr c) (inl c') = ground arith
  opposed l l' b h h' (inr c) (inr c') = ground arith

  -- Of two offers that cross just one is ignored: the two sides of a connection, of people with
  -- different names, are in any states that signals and own offers have brought them to, and each
  -- has an offer of its own under way, still being made or sent already. Then one side ignores the
  -- offer of the other, and the other side takes it.
  pub one_gives_way :
      (a b : String) (r r' : R) (es es' : List LinkEvent)
      → a ≢ b
      → Collides (side a b r es)
      → Collides (side b a r' es')
      → ignores p (side a b r es) ≡ not (ignores p (side b a r' es'))
  unfolding make_link
  one_gives_way a b r r' es es' h =
      opposed (side a b r es) (side b a r' es') (text_lt a b)
        (link_run-Good p _ (is_polite-IsKept (text_lt a b)) es (make_link p b a r) refl)
        (link_run-Good p _ (is_polite-IsKept (text_lt b a)) es' (make_link p a b r') refl
          ∙ text_lt_flip a b h)
