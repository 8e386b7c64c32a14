-- ===== src/Auth/Tests.antt =====
-- Runs of the session service, and its theorems at concrete inputs.
use public_lighting_fault_re.Base.{
  ℕ, zero, suc, ◌+◌, ◌≡◌, ◌≢◌, refl, true, is_some, List, Option, none, some, [], ◌∷◌, arith, ◌==◌,
}
use public_lighting_fault_re.Base.Tables.{find_row, update_rows}
use public_lighting_fault_re.Auth.{
  Session, JwtPayload, refresh, Db, Signer, Grant, find_admin_by_id, find_admin_by_username,
  store_refresh_session, revoke_session, grant, refresh_id, live_session, refresh_session,
  refresh_tokens, login, logout, logout_admin, logout_token, Statement, revoke_all, store,
  execute_all,
}
use public_lighting_fault_re.Auth.Refresh.{
  IsGranted, refresh_tokens-IsGranted, refresh_tokens-revoke_session, refresh_tokens_twice,
}
use public_lighting_fault_re.Auth.Logout.{refresh_tokens-logout}
use public_lighting_fault_re.Auth.Login.{refresh_tokens-login}

abbrev code_of : Option ℕ → ℕ
code_of none = 0
code_of (some j) = suc j

-- Tokens that hold the identifier and the administrator in the clear, all of administrator 1.
abbrev read_token : ℕ → Option JwtPayload
read_token zero = none
read_token (suc j) = some (record { sub = 1; username = 5; kind = refresh; jti = some j })

abbrev plain : Signer
plain = record {
  verify = λ now token. read_token token;
  sign = λ now seconds p. code_of p.jti;
  hash_token = λ token. token + 1000;
  compare = λ password hash. password == hash;
  refresh_max_age_ms = 2_592_000_000;
}

abbrev start : Db
start = record {
  admins =
      record { id = 1; username = 5; password_hash = 42; full_name = none; is_active = true } ∷ [];
  sessions = [];
  activities = [];
}

abbrev given : (jti : ℕ) → Grant
given jti = record {
  admin = record { id = 1; username = 5; full_name = none };
  access_token = 0;
  refresh_token = suc jti;
}

abbrev logged_in_db : Db
unfolding login find_admin_by_username find_row grant store_refresh_session
logged_in_db = (login plain 100 7 5 42 start).0

login_works : (login plain 100 7 5 42 start).1 ≡ some (given 7)
unfolding login find_admin_by_username find_row grant store_refresh_session
login_works = refl

wrong_password : (login plain 100 7 5 41 start).1 ≡ none
unfolding login find_admin_by_username find_row
wrong_password = refl

refreshed : (refresh_tokens plain 200 8 8 logged_in_db).1 ≡ some (given 8)
unfolding logged_in_db login find_admin_by_username find_row grant store_refresh_session
    refresh_tokens refresh_id live_session refresh_session find_admin_by_id revoke_session
    update_rows
refreshed = refl

refresh_tokens-IsGranted_example :
    (jti : ℕ) × (s : Session) × IsGranted plain 200 jti 8 s logged_in_db (given 8)
refresh_tokens-IsGranted_example =
    refresh_tokens-IsGranted plain 200 8 8 logged_in_db (given 8) refreshed

abbrev others : List (Statement plain)
others = store 250 1 9 10 ∷ revoke_all 260 1 ∷ []

refresh_tokens-revoke_session_example :
    refresh_tokens plain 300 11 8 (execute_all plain others (revoke_session 200 7 logged_in_db))
    ≡ (execute_all plain others (revoke_session 200 7 logged_in_db), none)
unfolding refresh_id
refresh_tokens-revoke_session_example =
    refresh_tokens-revoke_session plain 200 300 7 11 8 logged_in_db others refl
      ((λ e. ground (arith, e)), (tt, tt))

abbrev first_session : Session
first_session = record {
  id = 7;
  admin_id = 1;
  token_hash = 1008;
  expires_at = 2_592_000_100;
  revoked_at = none;
}

refresh_tokens_twice_example :
    (is_some (refresh_tokens plain 200 8 8 logged_in_db).1 ≡ true)
    × (is_some
          (refresh_session plain 210 9 7 first_session
            (refresh_tokens plain 200 8 8 logged_in_db).0).1
        ≡ true)
unfolding logged_in_db login find_admin_by_username find_row grant store_refresh_session refresh_id
    live_session find_admin_by_id
refresh_tokens_twice_example =
    refresh_tokens_twice plain 200 210 7 8 9 8 first_session
      (record { id = 1; username = 5; full_name = none }) logged_in_db refl refl refl refl

-- A second administrator keeps its session when the first logs out.
abbrev two_admins : Db
two_admins = record {
  admins =
      record { id = 1; username = 5; password_hash = 42; full_name = none; is_active = true }
      ∷ record { id = 2; username = 6; password_hash = 43; full_name = none; is_active = true }
      ∷ [];
  sessions =
      record { id = 7; admin_id = 2; token_hash = 1008; expires_at = 900; revoked_at = none }
      ∷ record { id = 9; admin_id = 1; token_hash = 1010; expires_at = 900; revoked_at = none }
      ∷ [];
  activities = [];
}

abbrev second_given : Grant
second_given = record {
  admin = record { id = 2; username = 6; full_name = none };
  access_token = 0;
  refresh_token = 12;
}

still_open :
    (refresh_tokens plain 300 11 8 (logout plain 200 (some 10) (some 1) two_admins)).1
    ≡ some second_given
unfolding logout logout_admin logout_token find_row grant store_refresh_session refresh_tokens
    refresh_id live_session refresh_session find_admin_by_id revoke_session update_rows
still_open = refl

closed : (refresh_tokens plain 300 11 10 (logout plain 200 none (some 1) two_admins)).1 ≡ none
unfolding logout logout_admin logout_token find_row refresh_tokens refresh_id live_session
    update_rows
closed = refl

refresh_tokens-logout_example : second_given.admin.id ≢ 1
refresh_tokens-logout_example =
    refresh_tokens-logout plain 200 0 300 11 8 (some 10) two_admins second_given still_open

refresh_tokens-login_example :
    (r' : Grant) × ((refresh_tokens plain 200 8 8 (login plain 100 7 5 42 start).0).1 ≡ some r')
    × (r'.admin.id ≡ 1)
refresh_tokens-login_example =
    refresh_tokens-login plain 100 7 5 42 200 8 start (given 7) login_works refl (omega arith)
