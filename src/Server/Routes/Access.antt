-- ===== src/Server/Routes/Access.antt =====
-- Who may connect with a mailbox (server/src/index.ts, GET /inbox/:userId/connect).
use mekamb_chat.Common.{
  ℕ, ◌≡◌, ◌≢◌, String, Bool, true, Option, none, some, if◌then◌else◌, text_eqb→eq, text_discrete,
  arith, Bool-cases, Option-cases, inl, inr,
}
use mekamb_chat.Common.Keyed.{get-set_ne}
use mekamb_chat.Server.Auth.State.{TokenPayload, truthy}
use mekamb_chat.Server.Inbox.{Connected, connect}
use mekamb_chat.Server.Directory.{username_for}
use mekamb_chat.Server.Routes.{
  Backend, Crypto, refused, connected, mailbox_of, verify_token, is_name, connect_mailbox,
  connect_route,
}

module _ (x : Crypto) where
  -- What a connection means: the token is one that the server signed and has not expired, the mailbox
  -- is the one of its account, the device is the token's, and no other mailbox changes.
  pub record Admits (user : String) (upgrade : Bool) (token : Option String) (handle now : ℕ)
      (s : Backend) (c : Connected) : Type 0 where
    pub payload : TokenPayload
    pub given : String
    pub presented : truthy token ≡ some given
    pub verified : verify_token x given now ≡ some payload
    pub owned : username_for s.users payload.user_id ≡ some user
    pub device : c ≡ connect (mailbox_of user s) upgrade (truthy payload.device_id) handle now
    pub others :
        (other : String)
        → user ≢ other
        → mailbox_of other (connect_route x user upgrade token handle now s).0 ≡ mailbox_of other s

  is_name→eq : (o : Option String) (user : String) → is_name o user ≡ true → o ≡ some user
  is_name→eq none user h = absurd (cc h)
  is_name→eq (some name) user h = rw (text_eqb→eq name user h)

  module _ (user : String) (upgrade : Bool) (handle now : ℕ) (s : Backend) where
    mailbox_of-connect_mailbox :
        (payload : TokenPayload) (other : String)
        → user ≢ other
        → mailbox_of other (connect_mailbox x user upgrade payload handle now s).0
          ≡ mailbox_of other s
    unfolding connect_mailbox mailbox_of
    mailbox_of-connect_mailbox payload other h =
        let c = connect (mailbox_of user s) upgrade (truthy payload.device_id) handle now in
        rw (get-set_ne text_discrete user other c.state s.mailboxes h)

    connect_mailbox_device :
        (payload : TokenPayload) (c : Connected)
        → (connect_mailbox x user upgrade payload handle now s).1 ≡ connected c
        → c ≡ connect (mailbox_of user s) upgrade (truthy payload.device_id) handle now
    unfolding connect_mailbox
    connect_mailbox_device payload c h = cc h

    -- The route once the token is known.
    route_checked :
        (token : Option String) (given : String) (payload : TokenPayload)
        → truthy token ≡ some given
        → verify_token x given now ≡ some payload
        → connect_route x user upgrade token handle now s ≡ (
            if is_name (username_for s.users payload.user_id) user
            then connect_mailbox x user upgrade payload handle now s
            else (s, refused 403 "to nie jest Twoja skrzynka"))
    unfolding connect_route
    route_checked token given payload shown checked = rw (shown, checked, connect_route)

    admits :
        (token : Option String) (given : String) (payload : TokenPayload) (c : Connected)
        → truthy token ≡ some given
        → verify_token x given now ≡ some payload
        → (connect_route x user upgrade token handle now s).1 ≡ connected c
        → Admits user upgrade token handle now s c
    admits token given payload c shown checked done =
        let lem = route_checked token given payload shown checked in
        elim (Bool-cases (is_name (username_for s.users payload.user_id) user)) [
          | inr e ↦
              let shut : connect_route x user upgrade token handle now s
                  ≡ (s, refused 403 "to nie jest Twoja skrzynka") =
                rw (lem, e) in
              absurd (cc (shut, done))
          | inl e ↦
              let opened : connect_route x user upgrade token handle now s
                  ≡ connect_mailbox x user upgrade payload handle now s =
                rw (lem, e) in
              record {
                payload = payload;
                given = given;
                presented = shown;
                verified = checked;
                owned = is_name→eq _ user e;
                device = connect_mailbox_device payload c (cc (opened, done));
                others = λ other h. rw opened (mailbox_of-connect_mailbox payload other h);
              }
        ]

    no_token :
        (token : Option String) (c : Connected)
        → truthy token ≡ none
        → (connect_route x user upgrade token handle now s).1 ≢ connected c
    unfolding connect_route
    no_token token c e done = ground arith

    bad_token :
        (token : Option String) (given : String) (c : Connected)
        → truthy token ≡ some given
        → verify_token x given now ≡ none
        → (connect_route x user upgrade token handle now s).1 ≢ connected c
    unfolding connect_route
    bad_token token given c shown e done = ground arith

    -- A connection is answered only for a token that the server signed and that has not expired, and
    -- only with the mailbox of the token's own account; the device is the one of the token, whatever
    -- the address says, and no other mailbox changes.
    pub connect_route_sound :
        (token : Option String) (c : Connected)
        → (connect_route x user upgrade token handle now s).1 ≡ connected c
        → Admits user upgrade token handle now s c
    connect_route_sound token c done = elim (Option-cases (truthy token)) [
      | inl e ↦ absurd (no_token token c e done)
      | inr (given, shown) ↦ elim (Option-cases (verify_token x given now)) [
        | inl e ↦ absurd (bad_token token given c shown e done)
        | inr (payload, checked) ↦ admits token given payload c shown checked done
      ]
    ]
