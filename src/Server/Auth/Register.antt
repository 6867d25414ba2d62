-- ===== src/Server/Auth/Register.antt =====
-- Registration: `/register/start`, `/register/finish` and `/register/confirm` (server/src/auth.ts).
use Prim.Native.Char.{code}
use mekamb_chat.Common.{
  ℕ, String, Bool, ◌&&◌, ◌||◌, Option, none, some, List, [], ◌∷◌, ◌++◌, leb, ◌==◌, if◌then◌else◌,
  text_eqb, length, all, any, map,
}
use mekamb_chat.Common.Int.{ℤ}
use mekamb_chat.Server.Auth.State.{
  Status, pending, active, User, Server, Services, Fresh, Reply, refused, registration, enrolled,
  user_by_name, sign_in,
}
use mekamb_chat.Server.Auth.Totp.{verify_code}

abbrev pub codes : String → List ℕ
codes String.[] = []
codes (String.◌∷◌ c s) = code c ∷ codes s

-- `[a-z0-9._-]`, in either case.
abbrev pub is_name_char : ℕ → Bool
is_name_char c =
    (leb 97 c && leb c 122)
    || (leb 65 c && leb c 90)
    || (leb 48 c && leb c 57)
    || (c == 46 || (c == 95 || c == 45))

-- `isValidUsername`
unfoldable pub is_valid_username : List ℕ → Bool
is_valid_username name = leb 3 (length name) && leb (length name) 32 && all is_name_char name

-- UPDATE users SET status = 'active', totp_last_counter = ? WHERE id = ?
unfoldable pub activate : String → ℤ → Server → Server
activate id k s = record s {
  users =
      map (λ u. if text_eqb u.id id then record u { status = active; last_counter = some k } else u)
        s.users;
}

-- INSERT INTO users: `none` where the id or the name is there already.
unfoldable pub insert_user : User → Server → Option Server
insert_user u s =
    if any (λ v. text_eqb v.id u.id || text_eqb v.username u.username) s.users
    then none
    else some (record s { users = s.users ++ u ∷ [] })

module _ (x : Services) where
  -- POST /register/start
  unfoldable pub register_start : Server → String → String → Reply
  unfolding is_valid_username user_by_name
  register_start s username request =
      if is_valid_username (codes username)
      then elim (user_by_name username s) [
        | some u ↦ refused 409 "nazwa jest zajęta"
        | none ↦ elim (x.registration_start username request) [
          | none ↦ refused 400 "nie udało się rozpocząć rejestracji"
          | some response ↦ registration response
        ]
      ]
      else refused 400 "nieprawidłowa nazwa użytkownika"

  -- POST /register/finish
  unfoldable pub register_finish : Server → String → String → Fresh → Server × Reply
  unfolding is_valid_username insert_user
  register_finish s username upload f =
      if is_valid_username (codes username)
      then elim (x.registration_finish upload) [
        | none ↦ (s, refused 400 "nieprawidłowa odpowiedź rejestracyjna")
        | some sealed ↦
            elim (insert_user
              (record {
                id = f.uuid;
                username = username;
                opaque_record = sealed;
                totp_secret_enc = x.encrypt f.iv f.totp_secret;
                status = pending;
                last_counter = none;
              })
              s) [
                | none ↦ (s, refused 409 "nazwa jest zajęta")
                | some t ↦ (t, enrolled f.totp_secret (x.provisioning_uri f.totp_secret username))
              ]
      ]
      else (s, refused 400 "nieprawidłowa nazwa użytkownika")

  -- The rest of `/register/confirm`, once the row is found.
  unfoldable pub confirm_user :
      Server → User → Status → List ℕ → Option String → Bool → ℕ → Fresh → Server × Reply
  unfolding verify_code activate sign_in
  confirm_user s u active code device in_body now f = (s, refused 400 "nie ma czego potwierdzać")
  confirm_user s u pending code device in_body now f = elim (x.decrypt u.totp_secret_enc) [
    | none ↦ (s, refused 500 "Internal Server Error")
    | some secret ↦ elim (verify_code x secret code now) [
      | none ↦ (s, refused 401 "nieprawidłowy kod")
      | some k ↦ sign_in x u.id device in_body now f (activate u.id k s)
    ]
  ]

  -- POST /register/confirm
  unfoldable pub register_confirm :
      Server → String → List ℕ → Option String → Bool → ℕ → Fresh → Server × Reply
  unfolding user_by_name confirm_user
  register_confirm s username code device in_body now f = elim (user_by_name username s) [
    | none ↦ (s, refused 400 "nie ma czego potwierdzać")
    | some u ↦ confirm_user s u u.status code device in_body now f
  ]
