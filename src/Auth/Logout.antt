-- ===== src/Auth/Logout.antt =====
-- What a logout ends.
use public_lighting_fault_re.Base.{
  ℕ, suc, ◌≡◌, ◌≢◌, refl, sym, ◌∙◌, ◌⊎◌, inl, inr, true, false, Option, some, List, [], ◌∷◌, arith,
  ◌==◌, Bool-cases, Option-cases, is_none, All,
}
use public_lighting_fault_re.Base.Tables.{find_row, update_rows}
use public_lighting_fault_re.Base.Tables.Laws.{All-find_row, find_row-holds}
use public_lighting_fault_re.Auth.{
  AdminUser, Session, Db, Signer, Grant, user_of, is_active_id, find_admin_by_id, revoked,
  is_session, is_live, refresh_tokens, logout, logout_token, logout_admin, is_open_session,
}
use public_lighting_fault_re.Auth.Refresh.{refresh_tokens_result}

pub find_admin_by_id_same :
    (id : ℕ) (db : Db) {u : AdminUser} → find_admin_by_id id db ≡ some u → u.id ≡ id
unfolding find_admin_by_id
find_admin_by_id_same id db {u} e = elim (Option-cases (find_row (is_active_id id) db.admins)) [
  | inl f ↦ absurd (cc (rw (f, find_admin_by_id) at e))
  | inr (a, f) ↦
      let same : user_of a ≡ u = ground (arith, rw (f, find_admin_by_id) at e) in
      let mine = find_row-holds (is_active_id id) db.admins f in rw (← same) (ground (arith, mine))
]

-- No session of the administrator is open.
abbrev IsClosedFor : ℕ → Session → Type 0
IsClosedFor admin s = (s.admin_id == admin) ≡ false ⊎ (is_none s.revoked_at ≡ false)

closed_rows :
    (now admin : ℕ) (ss : List Session)
    → All (IsClosedFor admin) (update_rows (is_open_session admin) (revoked now) ss)
unfolding update_rows
closed_rows now admin [] = tt
closed_rows now admin (s ∷ ss) = elim (Bool-cases (is_open_session admin s)) [
  | inl e ↦ (rw e (inr refl), closed_rows now admin ss)
  | inr e ↦ (rw e (ground arith), closed_rows now admin ss)
]

module _ (g : Signer) where
  -- On the tables that a logout naming the administrator leaves, a refresh gives no new tokens for
  -- that administrator, whatever the token, its session and the time.
  pub refresh_tokens-logout :
      (now a later jti token : ℕ) (presented : Option ℕ) (db : Db) (r : Grant)
      → (refresh_tokens g later jti token (logout g now presented (some (suc a)) db)).1 ≡ some r
      → r.admin.id ≢ suc a
  unfolding logout logout_admin
  refresh_tokens-logout now a later jti token presented db r e same =
      let (named, s, f, stored, live, active, after) =
        refresh_tokens_result g later jti token (logout g now presented (some (suc a)) db) e in
      let closed =
        All-find_row (IsClosedFor (suc a)) (is_session g named token)
          (logout g now presented (some (suc a)) db).sessions
          (closed_rows now (suc a) (logout_token g now presented db).sessions) stored in
      let owner =
        find_admin_by_id_same s.admin_id (logout g now presented (some (suc a)) db) active in
      closed_live later (suc a) s closed live (sym owner ∙ same)
    where
      closed_live :
          (later admin : ℕ) (s : Session)
          → IsClosedFor admin s
          → is_live g later s ≡ true
          → s.admin_id ≢ admin
      closed_live later admin s (inl other) live e = ground arith
      closed_live later admin s (inr gone) live e = ground arith
