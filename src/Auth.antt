-- ===== src/Auth.antt =====
-- The administrators' sessions: backend/src/services/auth.service.ts. Tokens, digests, user names
-- and passwords are numbers; `jsonwebtoken`, `bcrypt` and SHA-256 are the parameters of `Signer`.
pub mod Refresh
pub mod Logout
pub mod Login
mod Tests
use public_lighting_fault_re.Base.{
  ℕ, zero, suc, ◌+◌, Bool, true, false, not, ◌&&◌, ◌||◌, Option, none, some, List, [], ◌∷◌, ltb,
  ◌==◌, if◌then◌else◌, is_some, is_none,
}
use public_lighting_fault_re.Base.Tables.{find_row, update_rows}

-- A row of `admins`.
pub record Admin : Type 0 where
  pub id : ℕ
  pub username : ℕ
  pub password_hash : ℕ
  pub full_name : Option ℕ
  pub is_active : Bool

pub record AdminUser : Type 0 where
  pub id : ℕ
  pub username : ℕ
  pub full_name : Option ℕ

-- A row of `admin_refresh_sessions`.
pub record Session : Type 0 where
  pub id : ℕ
  pub admin_id : ℕ
  pub token_hash : ℕ
  pub expires_at : ℕ
  pub revoked_at : Option ℕ

pub data TokenType : Type 0 where
  access refresh : TokenType

-- `AdminJwtPayload`; `jti` is `none` where it is absent or empty.
pub record JwtPayload : Type 0 where
  pub sub : ℕ
  pub username : ℕ
  pub kind : TokenType
  pub jti : Option ℕ

pub data Activity : Type 0 where
  logged_in logged_out : ℕ → Activity

pub record Db : Type 0 where
  pub admins : List Admin
  pub sessions : List Session
  pub activities : List Activity

-- The libraries: `verify now` is `jwt.verify` at a time, `none` where it throws; `sign now` is
-- `jwt.sign` with the life time in seconds; `compare` is `bcrypt.compare`.
pub record Signer : Type 0 where
  pub verify : ℕ → ℕ → Option JwtPayload
  pub sign : (now seconds : ℕ) → JwtPayload → ℕ
  pub hash_token : ℕ → ℕ
  pub compare : (password hash : ℕ) → Bool
  pub refresh_max_age_ms : ℕ

-- The two cookies and the administrator.
pub record Grant : Type 0 where
  pub admin : AdminUser
  pub access_token : ℕ
  pub refresh_token : ℕ

abbrev pub is_refresh : TokenType → Bool
is_refresh refresh = true
is_refresh access = false

abbrev pub user_of : Admin → AdminUser
user_of a = record { id = a.id; username = a.username; full_name = a.full_name }

abbrev pub has_username : ℕ → Admin → Bool
has_username u a = a.username == u

-- `findAdminByUsername`
unfoldable pub find_admin_by_username : ℕ → Db → Option Admin
unfolding find_row
find_admin_by_username u db = find_row (has_username u) db.admins

abbrev pub is_active_id : ℕ → Admin → Bool
is_active_id id a = a.id == id && a.is_active

-- `findAdminById`
unfoldable pub find_admin_by_id : ℕ → Db → Option AdminUser
unfolding find_row
find_admin_by_id id db = elim (find_row (is_active_id id) db.admins) [
  | none ↦ none
  | some a ↦ some (user_of a)
]

abbrev pub has_id : ℕ → Session → Bool
has_id jti s = s.id == jti

abbrev pub revoked : ℕ → Session → Session
revoked now s = record s { revoked_at = some now }

-- `revokeSession`
unfoldable pub revoke_session : (now jti : ℕ) → Db → Db
unfolding update_rows
revoke_session now jti db = record db {
  sessions = update_rows (has_id jti) (revoked now) db.sessions;
}

abbrev pub log_admin_activity : Activity → Db → Db
log_admin_activity a db = record db { activities = a ∷ db.activities }

abbrev pub is_open_session : ℕ → Session → Bool
is_open_session admin s = s.admin_id == admin && is_none s.revoked_at

module _ (g : Signer) where
  -- `signAccessToken`
  abbrev pub sign_access_token : ℕ → AdminUser → ℕ
  sign_access_token now a =
      g.sign now 3600 (record { sub = a.id; username = a.username; kind = access; jti = none })

  abbrev pub refresh_seconds : ℕ
  refresh_seconds = 2_592_000

  abbrev pub refresh_payload : AdminUser → ℕ → JwtPayload
  refresh_payload a jti = record {
    sub = a.id;
    username = a.username;
    kind = refresh;
    jti = some jti;
  }

  -- `signRefreshToken`
  abbrev pub sign_refresh_token : ℕ → AdminUser → ℕ → ℕ
  sign_refresh_token now a jti = g.sign now refresh_seconds (refresh_payload a jti)

  -- `storeRefreshSession`
  unfoldable pub store_refresh_session : (now admin jti token : ℕ) → Db → Db
  store_refresh_session now admin jti token db = record db {
    sessions =
        (record {
          id = jti;
          admin_id = admin;
          token_hash = g.hash_token token;
          expires_at = now + g.refresh_max_age_ms;
          revoked_at = none;
        })
        ∷ db.sessions;
  }

  -- The tokens that `login` and `refreshTokens` make, with the new session stored.
  unfoldable pub grant : (now jti : ℕ) → AdminUser → Db → Db × Grant
  unfolding store_refresh_session
  grant now jti a db =
      let token = sign_refresh_token now a jti in
      (
        store_refresh_session now a.id jti token db,
        record { admin = a; access_token = sign_access_token now a; refresh_token = token },
      )

  -- `login`; `none` is the thrown 401, `jti` the new identifier.
  unfoldable pub login : (now jti username password : ℕ) → Db → Db × Option Grant
  unfolding find_admin_by_username grant
  login now jti username password db = elim (find_admin_by_username username db) [
    | none ↦ (db, none)
    | some a ↦
        if a.is_active && g.compare password a.password_hash
        then (let (db', r) = grant now jti (user_of a) db in
            (log_admin_activity (logged_in a.id) db', some r))
        else (db, none)
  ]

  -- The identifier in a refresh token.
  unfoldable pub refresh_id : (now token : ℕ) → Option ℕ
  refresh_id now token = elim (g.verify now token) [
    | none ↦ none
    | some p ↦ if is_refresh p.kind then p.jti else none
  ]

  abbrev pub is_session : (jti token : ℕ) → Session → Bool
  is_session jti token s = s.id == jti && s.token_hash == g.hash_token token

  abbrev pub is_live : ℕ → Session → Bool
  is_live now s = is_none s.revoked_at && not (ltb s.expires_at now)

  -- From the session on.
  unfoldable pub refresh_session : (now jti' jti : ℕ) → Session → Db → Db × Option Grant
  unfolding find_admin_by_id revoke_session grant
  refresh_session now jti' jti s db = elim (find_admin_by_id s.admin_id db) [
    | none ↦ (db, none)
    | some a ↦ let (db', r) = grant now jti' a (revoke_session now jti db) in (db', some r)
  ]

  -- The session of an identifier, where it is live.
  unfoldable pub live_session : (now jti token : ℕ) → Db → Option Session
  unfolding find_row
  live_session now jti token db = elim (find_row (is_session jti token) db.sessions) [
    | none ↦ none
    | some s ↦ if is_live now s then some s else none
  ]

  -- `refreshTokens`, where no other request's statement falls between its own; `jti'` is the new
  -- identifier. `live_session` is its SELECT, and `refresh_session` goes on from there.
  unfoldable pub refresh_tokens : (now jti' token : ℕ) → Db → Db × Option Grant
  unfolding refresh_id live_session refresh_session
  refresh_tokens now jti' token db = elim (refresh_id now token) [
    | none ↦ (db, none)
    | some jti ↦ elim (live_session now jti token db) [
      | none ↦ (db, none)
      | some s ↦ refresh_session now jti' jti s db
    ]
  ]

  -- `logout`, the part that reads the token.
  unfoldable pub logout_token : (now : ℕ) → Option ℕ → Db → Db
  unfolding revoke_session
  logout_token now none db = db
  logout_token now (some token) db = elim (g.verify now token) [
    | none ↦ db
    | some p ↦ elim p.jti [ none ↦ db | some jti ↦ revoke_session now jti db ]
  ]

  unfoldable pub logout_admin : (now : ℕ) → Option ℕ → Db → Db
  unfolding update_rows
  logout_admin now none db = db
  logout_admin now (some zero) db = db
  logout_admin now (some (suc a)) db =
      log_admin_activity (logged_out (suc a))
        (record db { sessions = update_rows (is_open_session (suc a)) (revoked now) db.sessions })

  -- `logout`
  unfoldable pub logout : (now : ℕ) → (token admin : Option ℕ) → Db → Db
  unfolding logout_token logout_admin
  logout now token admin db = logout_admin now admin (logout_token now token db)

  -- A statement of a request on the sessions.
  pub data Statement : Type 0 where
    revoke_one : (now jti : ℕ) → Statement
    revoke_all : (now admin : ℕ) → Statement
    store : (now admin jti token : ℕ) → Statement

  unfoldable pub execute : Statement → Db → Db
  unfolding revoke_session logout_admin store_refresh_session
  execute (revoke_one now jti) db = revoke_session now jti db
  execute (revoke_all now admin) db = logout_admin now (some admin) db
  execute (store now admin jti token) db = store_refresh_session now admin jti token db

  -- The statements of several requests in the order in which they run.
  unfoldable pub execute_all : List Statement → Db → Db
  unfolding execute
  execute_all [] db = db
  execute_all (x ∷ xs) db = execute_all xs (execute x db)

  -- `verifyAccessToken`
  unfoldable pub verify_access_token : (now token : ℕ) → Option JwtPayload
  verify_access_token now token = elim (g.verify now token) [
    | none ↦ none
    | some p ↦ if is_refresh p.kind then none else some p
  ]

  -- `getAdminFromAccessToken`
  unfoldable pub get_admin_from_access_token : (now token : ℕ) → Db → Option AdminUser
  unfolding verify_access_token find_admin_by_id
  get_admin_from_access_token now token db = elim (verify_access_token now token) [
    | none ↦ none
    | some p ↦ find_admin_by_id p.sub db
  ]
