-- ===== src/Web/History/Appending.antt =====
-- What a message appended to the history does (web/src/lib/historia.ts).
use mekamb_chat.Common.{
  ℕ, zero, suc, ◌-◌, ◌≤◌, ◌≡◌, refl, String, Bool, true, Option, Bool-cases, inl, inr, List, [],
  ◌∷◌, ◌++◌, arith, text_eqb, text_eqb_refl, text_discrete, any, length, length-append, take_last,
  drop,
}
use mekamb_chat.Common.Keyed.{get, get-set_self}
use mekamb_chat.Web.History.{
  Message, Vault, message_limit, load, load_conversation, append_message, messages_of,
}

any-drop_append :
    (p : Message → Bool) (n : ℕ) (xs : List Message) (w : Message)
    → n ≤ length xs
    → p w ≡ true
    → any p (drop n (xs ++ w ∷ [])) ≡ true
any-drop_append p zero [] w h k = ground arith
any-drop_append p zero (x ∷ xs) w h k = ground (arith, any-drop_append p zero xs w (omega arith) k)
any-drop_append p (suc n) [] w h k = absurd (omega arith)
any-drop_append p (suc n) (x ∷ xs) w h k = any-drop_append p n xs w (omega arith) k

-- The last message is among those kept.
pub any-take_last_append :
    (p : Message → Bool) (xs : List Message) (w : Message)
    → p w ≡ true
    → any p (take_last message_limit (xs ++ w ∷ [])) ≡ true
any-take_last_append p xs w h =
    any-drop_append p (length (xs ++ w ∷ []) - message_limit) xs w
      (omega (arith, length-append xs (w ∷ []))) h

present_after :
    (key : String) (name : Option String) (w : Message) (v : Vault)
    → any (λ o. text_eqb o.id w.id) (load_conversation key (append_message key name w v)) ≡ true
unfolding append_message load_conversation load
present_after key name w v =
    elim (Bool-cases (any (λ o. text_eqb o.id w.id) (load_conversation key v))) [
      | inl e ↦ rw (append_message, e) e
      | inr e ↦
          rw (append_message, e)
            (rw (get-set_self text_discrete key _ (load v))
              (any-take_last_append _ (load_conversation key v) w (text_eqb_refl w.id)))
    ]

-- An envelope that arrives twice leaves one message: after a message was appended, appending one
-- with the same id again, under any name, changes nothing, although only the last 500 are kept.
pub append_message_twice :
    (key : String) (name name' : Option String) (w : Message) (v : Vault)
    → append_message key name' w (append_message key name w v) ≡ append_message key name w v
append_message_twice key name name' w v =
    let t = append_message key name w v in
    let there : any (λ o. text_eqb o.id w.id) (messages_of (get text_discrete key (load t)))
        ≡ true =
      unfold load_conversation in present_after key name w v in
    unfold append_message in rw there refl
