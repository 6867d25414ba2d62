-- ===== src/Server/Directory/Stock.antt =====
-- The stock of key packages (server/src/directory.ts).
use mekamb_chat.Common.{
  ℕ, ◌≡◌, refl, subst, String, true, false, not, ◌||◌, none, some, Option-cases, Bool-cases, inl,
  inr, List, [], ◌∷◌, ltb, is_some, text_eqb, any, arith, all,
}
use mekamb_chat.Server.Directory.{
  Tables, KeyPackage, is_free, oldest_free, mark, consume_key_package,
}

-- The row of this id, if there is one, has been given out.
abbrev pub IsSpent : String → List KeyPackage → Type 0
IsSpent id ps = all (λ q. not (text_eqb q.id id) || is_some q.consumed_at) ps ≡ true

mark-IsSpent_self : (id : String) (now : ℕ) (ps : List KeyPackage) → IsSpent id (mark id now ps)
unfolding mark
mark-IsSpent_self id now [] = refl
mark-IsSpent_self id now (p ∷ ps) = ground (arith, mark-IsSpent_self id now ps)

mark-IsSpent :
    (id j : String) (now : ℕ) (ps : List KeyPackage) → IsSpent id ps → IsSpent id (mark j now ps)
unfolding mark
mark-IsSpent id j now [] h = refl
mark-IsSpent id j now (p ∷ ps) h = ground (arith, mark-IsSpent id j now ps)

oldest_free-IsSpent :
    (d id : String) (ps : List KeyPackage) (p : KeyPackage)
    → IsSpent id ps
    → oldest_free d ps ≡ some p
    → text_eqb p.id id ≡ false
unfolding oldest_free
oldest_free-IsSpent d id [] p h k = cc
oldest_free-IsSpent d id (q ∷ ps) p h k = elim (Bool-cases (is_free d q)) [
  | inr e ↦ oldest_free-IsSpent d id ps p (ground arith) (rw e at k)
  | inl e ↦
      let fresh : text_eqb q.id id ≡ false = ground arith in
      elim (Option-cases (oldest_free d ps)) [
        | inl none_else ↦
            let same : q ≡ p = cc (rw (oldest_free, e, none_else) at k) in
            subst (λ x. text_eqb x.id id ≡ false) same fresh
        | inr (r, found) ↦ elim (Bool-cases (ltb r.created_at q.created_at)) [
          | inl first ↦
              let same : r ≡ p = cc (rw (oldest_free, e, found, first) at k) in
              subst (λ x. text_eqb x.id id ≡ false) same
                (oldest_free-IsSpent d id ps r (ground arith) found)
          | inr later ↦
              let same : q ≡ p = cc (rw (oldest_free, e, found, later) at k) in
              subst (λ x. text_eqb x.id id ≡ false) same fresh
        ]
      ]
]

-- The rows given out by calls of `consumeKeyPackage` for devices at times, by their ids.
unfoldable pub given : List (String × ℕ) → Tables → List String
given [] s = []
given ((d, now) ∷ calls) s =
    let rest = given calls (consume_key_package d now s).0 in
    elim (oldest_free d s.packages) [ none ↦ rest | some p ↦ p.id ∷ rest ]

abbrev pub Distinct : List String → Type 0
Distinct [] = Unit {0}
Distinct (x ∷ xs) = (any (text_eqb x) xs ≡ false) × Distinct xs

consume-IsSpent :
    (id d : String) (now : ℕ) (s : Tables)
    → IsSpent id s.packages
    → IsSpent id (consume_key_package d now s).0.packages
unfolding consume_key_package
consume-IsSpent id d now s h = elim (Option-cases (oldest_free d s.packages)) [
  | inl e ↦ rw (e, consume_key_package) h
  | inr (p, e) ↦ rw (e, consume_key_package) (mark-IsSpent id p.id now s.packages h)
]

given-IsSpent :
    (id : String) (calls : List (String × ℕ)) (s : Tables)
    → IsSpent id s.packages
    → any (text_eqb id) (given calls s) ≡ false
unfolding given
given-IsSpent id [] s h = refl
given-IsSpent id ((d, now) ∷ calls) s h =
    let later =
      given-IsSpent id calls (consume_key_package d now s).0 (consume-IsSpent id d now s h) in
    elim (Option-cases (oldest_free d s.packages)) [
      | inl e ↦ rw (e, given) later
      | inr (p, e) ↦
          rw (e, given) (ground (arith, later, oldest_free-IsSpent d id s.packages p h e))
    ]

-- No key package is given out twice: whatever calls are made, for any devices, one after another,
-- the rows that they answer with all have different ids.
pub given-Distinct : (calls : List (String × ℕ)) (s : Tables) → Distinct (given calls s)
unfolding given consume_key_package
given-Distinct [] s = tt
given-Distinct ((d, now) ∷ calls) s =
    let rest = given-Distinct calls (consume_key_package d now s).0 in
    elim (Option-cases (oldest_free d s.packages)) [
      | inl e ↦ rw (e, given) rest
      | inr (p, e) ↦
          let gone : IsSpent p.id (consume_key_package d now s).0.packages =
            rw (e, consume_key_package) (mark-IsSpent_self p.id now s.packages) in
          rw (e, given) (given-IsSpent p.id calls (consume_key_package d now s).0 gone, rest)
    ]
