-- ===== src/Auth/Refresh.antt =====
-- Who gets new tokens, and what revoking a session means for its refresh token.

use public_lighting_fault_re.Base.{
  ℕ, zero, suc, Bool, is_some, ◌≤◌, ◌≡◌, ◌≢◌, refl, ◌∙◌, ◌⊎◌, inl, inr, true, false, none, some,
  List, [], ◌∷◌, arith, ◌==◌, Bool-cases, Option-cases, is_none, All,
}
use public_lighting_fault_re.Base.Tables.{find_row, update_rows}
use public_lighting_fault_re.Base.Tables.Laws.{All-find_row, All-update_rows, find_row-holds}
use public_lighting_fault_re.Auth.{
  Session, Db, Signer, Grant, find_admin_by_id, has_id, revoked, revoke_session,
  store_refresh_session, grant, refresh_id, is_session, is_live, live_session, refresh_session,
  refresh_tokens, sign_refresh_token, Statement, revoke_one, revoke_all, store, execute,
  execute_all, logout_admin, is_open_session, AdminUser,
}

other_id : (a b : ℕ) → a ≢ b → (a == b) ≡ false
other_id a b n = ground arith

module _ (g : Signer) where
  -- A live session of the table, with the token's digest.
  pub record IsGranted (now jti token : ℕ) (s : Session) (db : Db) (r : Grant) : Type 0 where
    pub named : refresh_id g now token ≡ some jti
    pub stored : find_row (is_session g jti token) db.sessions ≡ some s
    pub not_revoked : s.revoked_at ≡ none
    pub not_expired : now ≤ s.expires_at
    pub admin_active : find_admin_by_id s.admin_id db ≡ some r.admin

  live_session-IsLive :
      (now jti token : ℕ) (db : Db) {s : Session}
      → live_session g now jti token db ≡ some s
      → (find_row (is_session g jti token) db.sessions ≡ some s) × (is_live g now s ≡ true)
  unfolding live_session
  live_session-IsLive now jti token db {s} e =
      elim (Option-cases (find_row (is_session g jti token) db.sessions)) [
        | inl f ↦ absurd (cc (rw (f, live_session) at e))
        | inr (s', f) ↦ elim (Bool-cases (is_live g now s')) [
          | inl l ↦
              let same : s' ≡ s = ground (arith, rw l at (rw (f, live_session) at e)) in
              rw (← same) (f, l)
          | inr l ↦ absurd (cc (rw l at (rw (f, live_session) at e)))
        ]
      ]

  refresh_session_result :
      (now jti' jti : ℕ) (s : Session) (db : Db) {r : Grant}
      → (refresh_session g now jti' jti s db).1 ≡ some r
      → (find_admin_by_id s.admin_id db ≡ some r.admin)
        × ((refresh_session g now jti' jti s db).0
            ≡ store_refresh_session g now r.admin.id jti'
                (sign_refresh_token g now r.admin jti')
                (revoke_session now jti db))
  unfolding refresh_session grant
  refresh_session_result now jti' jti s db {r} e =
      elim (Option-cases (find_admin_by_id s.admin_id db)) [
        | inl f ↦ absurd (cc (rw (f, refresh_session) at e))
        | inr (a, f) ↦
            let e' = rw (f, refresh_session) at e in
            let same : a ≡ r.admin = ground (arith, e') in
            rw (← same) (f, rw (f, refresh_session) refl)
      ]

  -- What a refresh that succeeded has found and done.
  pub refresh_tokens_result :
      (now jti' token : ℕ) (db : Db) {r : Grant}
      → (refresh_tokens g now jti' token db).1 ≡ some r
      → (jti : ℕ) × (s : Session) × (refresh_id g now token ≡ some jti)
        × (find_row (is_session g jti token) db.sessions ≡ some s)
        × (is_live g now s ≡ true)
        × (find_admin_by_id s.admin_id db ≡ some r.admin)
        × ((refresh_tokens g now jti' token db).0
            ≡ store_refresh_session g now r.admin.id jti'
                (sign_refresh_token g now r.admin jti')
                (revoke_session now jti db))
  unfolding refresh_tokens
  refresh_tokens_result now jti' token db {r} e = elim (Option-cases (refresh_id g now token)) [
    | inl f ↦ absurd (cc (rw (f, refresh_tokens) at e))
    | inr (jti, f) ↦
        let e' = rw (f, refresh_tokens) at e in
        elim (Option-cases (live_session g now jti token db)) [
          | inl l ↦ absurd (cc (rw (l, refresh_tokens) at e'))
          | inr (s, l) ↦
              let (stored, live) = live_session-IsLive now jti token db l in
              let (active, after) =
                refresh_session_result now jti' jti s db (rw (l, refresh_tokens) at e') in
              (
                jti,
                s,
                f,
                stored,
                live,
                active,
                rw (f, refresh_tokens) (rw (l, refresh_tokens) after),
              )
        ]
  ]

  -- New tokens are given only for a refresh token that the library accepts, whose identifier and
  -- digest stand in a session that is neither revoked nor expired, and to that session's
  -- administrator, who must be active.
  pub refresh_tokens-IsGranted :
      (now jti' token : ℕ) (db : Db) (r : Grant)
      → (refresh_tokens g now jti' token db).1 ≡ some r
      → (jti : ℕ) × (s : Session) × IsGranted now jti token s db r
  refresh_tokens-IsGranted now jti' token db r e =
      let (jti, s, f, stored, live, active, after) = refresh_tokens_result now jti' token db e in
      (
        jti,
        s,
        record {
          named = f;
          stored = stored;
          not_revoked = ground (arith, live);
          not_expired = ground (arith, live);
          admin_active = active;
        },
      )

  -- A session that the identifier does not name, or that was revoked.
  abbrev pub IsDead : ℕ → Session → Type 0
  IsDead jti s = (has_id jti s ≡ false) ⊎ (is_none s.revoked_at ≡ false)

  pub live_session-IsDead :
      (now jti token : ℕ) (db : Db)
      → All (IsDead jti) db.sessions
      → live_session g now jti token db ≡ none
  unfolding live_session
  live_session-IsDead now jti token db h =
      elim (Option-cases (find_row (is_session g jti token) db.sessions)) [
        | inl f ↦ rw (f, live_session) refl
        | inr (s, f) ↦
            let dead = All-find_row (IsDead jti) (is_session g jti token) db.sessions h f in
            let here = find_row-holds (is_session g jti token) db.sessions f in
            let over : is_live g now s ≡ false = ground (arith, dead, here) in
            rw (f, live_session) (rw over refl)
      ]

  pub revoke_session-IsDead :
      (now jti : ℕ) (db : Db) → All (IsDead jti) (revoke_session now jti db).sessions
  unfolding revoke_session update_rows
  revoke_session-IsDead now jti db = go db.sessions
    where
      go : (ss : List Session) → All (IsDead jti) (update_rows (has_id jti) (revoked now) ss)
      go [] = tt
      go (s ∷ ss) = elim (Bool-cases (has_id jti s)) [
        | inl e ↦ (rw e (inr refl), go ss)
        | inr e ↦ (rw e (inl e), go ss)
      ]

  -- A new session is stored under another identifier.
  abbrev pub IsAnother : ℕ → Statement g → Type 0
  IsAnother jti (store now admin jti' token) = jti' ≢ jti
  IsAnother jti _ = Unit

  revoked-IsDead :
      (now jti : ℕ) (p : Session → Bool) (ss : List Session)
      → All (IsDead jti) ss
      → All (IsDead jti) (update_rows p (revoked now) ss)
  revoked-IsDead now jti p ss h =
      All-update_rows (IsDead jti) p (revoked now) ss (λ s k q. inr refl) h

  execute-IsDead :
      (jti : ℕ) (x : Statement g) (db : Db)
      → IsAnother jti x
      → All (IsDead jti) db.sessions
      → All (IsDead jti) (execute g x db).sessions
  unfolding execute revoke_session logout_admin store_refresh_session
  execute-IsDead jti (revoke_one now j) db other h = revoked-IsDead now jti (has_id j) db.sessions h
  execute-IsDead jti (revoke_all now zero) db other h = h
  execute-IsDead jti (revoke_all now (suc admin)) db other h =
      revoked-IsDead now jti (is_open_session (suc admin)) db.sessions h
  execute-IsDead jti (store now admin j token) db other h = (inl (other_id j jti other), h)

  execute_all-IsDead :
      (jti : ℕ) (xs : List (Statement g)) (db : Db)
      → All (IsAnother jti) xs
      → All (IsDead jti) db.sessions
      → All (IsDead jti) (execute_all g xs db).sessions
  unfolding execute_all
  execute_all-IsDead jti [] db other h = h
  execute_all-IsDead jti (x ∷ xs) db other h =
      execute_all-IsDead jti xs (execute g x db) other.1 (execute-IsDead jti x db other.0 h)

  -- Once the session of a refresh token is revoked, by a refresh or a logout, a refresh with the
  -- token whose SELECT comes later is refused and changes nothing, whatever statements of other
  -- requests run in between; the sessions that they store have other identifiers.
  pub refresh_tokens-revoke_session :
      (now later jti jti' token : ℕ) (db : Db) (xs : List (Statement g))
      → refresh_id g later token ≡ some jti
      → All (IsAnother jti) xs
      → refresh_tokens g later jti' token (execute_all g xs (revoke_session now jti db))
        ≡ (execute_all g xs (revoke_session now jti db), none)
  unfolding refresh_tokens
  refresh_tokens-revoke_session now later jti jti' token db xs named others =
      let db' = execute_all g xs (revoke_session now jti db) in
      let dead = live_session-IsDead later jti token db' (
        execute_all-IsDead jti xs (revoke_session now jti db) others
          (revoke_session-IsDead now jti db)) in
      rw (named, refresh_tokens) (rw (dead, refresh_tokens) refl)

  same_admins :
      (id : ℕ) (db db' : Db)
      → db'.admins ≡ db.admins
      → find_admin_by_id id db' ≡ find_admin_by_id id db
  unfolding find_admin_by_id
  same_admins id db db' e = rw e refl

  refresh_session-admins :
      (now jti' jti : ℕ) (s : Session) (a : AdminUser) (db : Db)
      → find_admin_by_id s.admin_id db ≡ some a
      → (refresh_session g now jti' jti s db).0.admins ≡ db.admins
  unfolding refresh_session grant revoke_session store_refresh_session
  refresh_session-admins now jti' jti s a db e = rw (e, refresh_session) refl

  refresh_session-grants :
      (now jti' jti : ℕ) (s : Session) (a : AdminUser) (db : Db)
      → find_admin_by_id s.admin_id db ≡ some a
      → is_some (refresh_session g now jti' jti s db).1 ≡ true
  unfolding refresh_session grant
  refresh_session-grants now jti' jti s a db e = rw (e, refresh_session) refl

  -- Two refreshes with one token can both be granted: where both SELECTs come before either
  -- revocation and find the session live, and its administrator is active, the first refresh is
  -- granted, and so is the second, which goes on from the session that it has read on the tables
  -- that the first has left.
  pub refresh_tokens_twice :
      (now later jti jti' jti'' token : ℕ) (s : Session) (a : AdminUser) (db : Db)
      → refresh_id g now token ≡ some jti
      → live_session g now jti token db ≡ some s
      → live_session g later jti token db ≡ some s
      → find_admin_by_id s.admin_id db ≡ some a
      → (is_some (refresh_tokens g now jti' token db).1 ≡ true)
        × (is_some (refresh_session g later jti'' jti s (refresh_tokens g now jti' token db).0).1
            ≡ true)
  unfolding refresh_tokens
  refresh_tokens_twice now later jti jti' jti'' token s a db named first second active =
      let db' = (refresh_session g now jti' jti s db).0 in
      let active' =
        same_admins s.admin_id db db' (refresh_session-admins now jti' jti s a db active)
        ∙ active in
      rw (named, refresh_tokens)
        (rw (first, refresh_tokens)
          (
            refresh_session-grants now jti' jti s a db active,
            refresh_session-grants later jti'' jti s a db' active',
          ))
