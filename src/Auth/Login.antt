-- ===== src/Auth/Login.antt =====
-- What a login begins.
use mathlib.Core.Path.{subst}
use public_lighting_fault_re.Base.{
  ℕ, ◌+◌, ◌≤◌, ◌≡◌, refl, ap, ◌∙◌, inl, inr, Bool, true, ◌&&◌, none, some, List, [], ◌∷◌, arith,
  Bool-cases, Option-cases,
}
use public_lighting_fault_re.Base.Tables.{find_row}
use public_lighting_fault_re.Auth.{
  Admin, AdminUser, Session, Db, Signer, Grant, user_of, has_username, is_active_id,
  find_admin_by_id, find_admin_by_username, store_refresh_session, grant, refresh_id, is_session,
  is_live, live_session, refresh_session, refresh_tokens, sign_refresh_token, refresh_payload,
  login,
}
use public_lighting_fault_re.Auth.Logout.{find_admin_by_id_same}

find_other_row :
    {A : Type 0} (p q : A → Bool) (xs : List A) {x : A}
    → find_row p xs ≡ some x
    → q x ≡ true
    → (y : A) × (find_row q xs ≡ some y)
unfolding find_row
find_other_row p q [] e h = cc
find_other_row p q (z ∷ zs) {x} e h = elim (Bool-cases (q z)) [
  | inl t ↦ (z, rw t refl)
  | inr t ↦ elim (Bool-cases (p z)) [
    | inl u ↦ let same : z ≡ x = ground (arith, rw u at e) in absurd (cc (rw same at t))
    | inr u ↦ let (y, f) = find_other_row p q zs (rw u at e) h in (y, rw t f)
  ]
]

module _ (g : Signer) where
  login_result :
      (now jti username password : ℕ) (db : Db) {r : Grant}
      → (login g now jti username password db).1 ≡ some r
      → (a : Admin) × (find_row (has_username username) db.admins ≡ some a)
        × (a.is_active ≡ true)
        × (g.compare password a.password_hash ≡ true)
        × ((grant g now jti (user_of a) db).1 ≡ r)
        × ((login g now jti username password db).0.sessions
            ≡ (grant g now jti (user_of a) db).0.sessions)
        × ((login g now jti username password db).0.admins ≡ db.admins)
  unfolding login grant find_admin_by_username store_refresh_session
  login_result now jti username password db {r} e =
      elim (Option-cases (find_row (has_username username) db.admins)) [
        | inl f ↦ absurd (cc (rw (f, login) at e))
        | inr (a, f) ↦ elim (Bool-cases (a.is_active && g.compare password a.password_hash)) [
          | inl t ↦ (
            a,
            f,
            ground arith,
            ground arith,
            ground (arith, rw t at (rw (f, login) at e)),
            rw (f, login) (rw t refl),
            rw (f, login) (rw t refl),
          )
          | inr t ↦ absurd (cc (rw t at (rw (f, login) at e)))
        ]
      ]

  find_admin_again :
      (a : Admin) (username : ℕ) (db : Db)
      → find_row (has_username username) db.admins ≡ some a
      → a.is_active ≡ true
      → (u : AdminUser) × (find_admin_by_id a.id db ≡ some u) × (u.id ≡ a.id)
  unfolding find_admin_by_id
  find_admin_again a username db f active =
      let self : is_active_id a.id a ≡ true = ground arith in
      let (b, h) = find_other_row (has_username username) (is_active_id a.id) db.admins f self in
      let found : find_admin_by_id a.id db ≡ some (user_of b) = rw (h, find_admin_by_id) refl in
      (user_of b, found, find_admin_by_id_same a.id db found)

  granted :
      (now jti : ℕ) (a : AdminUser) (db : Db) {r : Grant}
      → (grant g now jti a db).1 ≡ r
      → (sign_refresh_token g now a jti ≡ r.refresh_token) × (a ≡ r.admin)
  unfolding grant
  granted now jti a db e = (ap (λ x. x.refresh_token) e, ap (λ x. x.admin) e)

  find_admin_by_id_of :
      (id : ℕ) (db db' : Db)
      → db'.admins ≡ db.admins
      → find_admin_by_id id db' ≡ find_admin_by_id id db
  unfolding find_admin_by_id
  find_admin_by_id_of id db db' e = rw (e, find_admin_by_id) refl

  refresh_tokens_ok :
      (now jti' token jti : ℕ) (db : Db) (s : Session) (u : AdminUser)
      → refresh_id g now token ≡ some jti
      → live_session g now jti token db ≡ some s
      → find_admin_by_id s.admin_id db ≡ some u
      → (r : Grant) × ((refresh_tokens g now jti' token db).1 ≡ some r) × (r.admin ≡ u)
  unfolding refresh_tokens refresh_session grant
  refresh_tokens_ok now jti' token jti db s u e l f =
      rw (e, refresh_tokens) (rw (l, refresh_tokens) (rw (f, refresh_session) (_, refl, refl)))

  -- The session that a grant stores.
  abbrev new_session : (now jti : ℕ) → AdminUser → Session
  new_session now jti a = record {
    id = jti;
    admin_id = a.id;
    token_hash = g.hash_token (sign_refresh_token g now a jti);
    expires_at = now + g.refresh_max_age_ms;
    revoked_at = none;
  }

  live_session-grant :
      (now jti later : ℕ) (a : AdminUser) (db db' : Db)
      → db'.sessions ≡ (grant g now jti a db).0.sessions
      → later ≤ now + g.refresh_max_age_ms
      → live_session g later jti (sign_refresh_token g now a jti) db' ≡ some (new_session now jti a)
  unfolding live_session grant store_refresh_session find_row
  live_session-grant now jti later a db db' e prompt =
      let here : is_session g jti (sign_refresh_token g now a jti) (new_session now jti a) ≡ true =
        ground arith in
      let live : is_live g later (new_session now jti a) ≡ true = ground arith in
      rw (e, live_session) (rw here (rw live refl))

  -- A login opens a session that works: a refresh with its refresh token, while the library reads
  -- from it what was signed and the session has not expired, gives new tokens to the same
  -- administrator.
  pub refresh_tokens-login :
      (now jti username password later jti' : ℕ) (db : Db) (r : Grant)
      → (login g now jti username password db).1 ≡ some r
      → g.verify later r.refresh_token ≡ some (refresh_payload g r.admin jti)
      → later ≤ now + g.refresh_max_age_ms
      → (r' : Grant) × ((refresh_tokens g later jti' r.refresh_token
            (login g now jti username password db).0).1
          ≡ some r')
        × (r'.admin.id ≡ r.admin.id)
  unfolding refresh_tokens
  refresh_tokens-login now jti username password later jti' db r e read prompt =
      let (a, f, active, right, given, sessions, admins) =
        login_result now jti username password db e in
      let db' = (login g now jti username password db).0 in
      let (u, found, same) = find_admin_again a username db f active in
      let signed : sign_refresh_token g now (user_of a) jti ≡ r.refresh_token =
        (granted now jti (user_of a) db given).0 in
      let named : refresh_id g later r.refresh_token ≡ some jti = rw (read, refresh_id) refl in
      let live =
        subst (λ t. live_session g later jti t db' ≡ some (new_session now jti (user_of a))) signed
          (live_session-grant now jti later (user_of a) db db' sessions prompt) in
      let (r', ok, mine) =
        refresh_tokens_ok later jti' r.refresh_token jti db' (new_session now jti (user_of a)) u
          named live (find_admin_by_id_of a.id db db' admins ∙ found) in
      (r', ok, ap (λ x. x.id) mine ∙ same ∙ ap (λ x. x.id) (granted now jti (user_of a) db given).1)
