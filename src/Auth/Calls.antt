-- ===== src/Auth/Calls.antt =====
-- Any sequence of calls of the methods of src/ap_auth/store.py, with the time and the caller of each.
use analysis_package.Base.{ℕ, String, ◌<◌, Bool, Option, List, [], ◌∷◌, inl, inr}
use mathlib.Core.Path.{subst, sym}
use analysis_package.Identity.{RoleSet, Identity}
use analysis_package.Auth
use analysis_package.Base.{◌≤◌}
use analysis_package.Base.Table.{count_where}
use analysis_package.Auth.{has_id, Kind, AuthStore, Crypto}
use analysis_package.Auth.Admins.{
  enabled_admins, IsGoverned, write_disabled-IsGoverned, write_roles-IsGoverned,
  write_password-IsGoverned, insert_user-IsGoverned, kept-IsGoverned,
}
use analysis_package.Auth.Accounts.{
  set_disabled_outcome, set_roles_outcome, set_password_outcome, create_user_outcome,
  issue_token_users, revoke_token_users, revoke_session_by_hash_users,
}

-- one call of the store
pub data Call : Type 0 where
  create_user : String → String → RoleSet → Option String → Call
  set_password : String → String → Call
  set_disabled : String → Bool → Call
  set_roles : String → RoleSet → Call
  issue_token : String → String → Kind → ℕ → Bool → Call
  revoke_token : String → Call
  revoke_session_by_hash : String → Call

module _ (crypto : Crypto) where
  unfoldable pub perform : ℕ → Option Identity → Call → AuthStore → AuthStore
  perform now actor (Call.create_user user_id display_name roles password) s =
      (Auth.create_user crypto now user_id display_name roles password actor s).1
  perform now actor (Call.set_password user_id password) s =
      (Auth.set_password crypto now user_id password actor s).1
  perform now actor (Call.set_disabled user_id disabled) s =
      (Auth.set_disabled now user_id disabled actor s).1
  perform now actor (Call.set_roles user_id roles) s = (Auth.set_roles now user_id roles actor s).1
  perform now actor (Call.issue_token raw_token user_id kind ttl audited) s =
      (Auth.issue_token crypto now raw_token user_id kind ttl actor audited s).1
  perform now actor (Call.revoke_token raw_token) s = (Auth.revoke_token crypto raw_token s).1
  perform now actor (Call.revoke_session_by_hash hash) s =
      (Auth.revoke_session_by_hash now hash actor s).1

  -- calls with the time and the caller of each
  unfoldable pub run : List (ℕ × Option Identity × Call) → AuthStore → AuthStore
  run [] s = s
  run ((now, actor, call) ∷ rest) s = run rest (perform now actor call s)

  perform-IsGoverned :
      (now : ℕ) (actor : Option Identity) (c : Call) (s : AuthStore)
      → IsGoverned s
      → IsGoverned (perform now actor c s)
  unfolding perform
  perform-IsGoverned now actor (Call.create_user user_id display_name roles password) s g =
      elim (create_user_outcome now user_id actor s crypto display_name roles password) [
        | inl e ↦ subst IsGoverned (sym e) g
        | inr (free, e) ↦
            subst IsGoverned (sym e)
              (insert_user-IsGoverned now user_id actor s g _ (unfold Auth.new_user in free))
      ]
  perform-IsGoverned now actor (Call.set_password user_id password) s g =
      elim (set_password_outcome now user_id actor s crypto password) [
        | inl e ↦ subst IsGoverned (sym e) g
        | inr e ↦
            subst IsGoverned (sym e)
              (write_password-IsGoverned now user_id actor s g crypto password)
      ]
  perform-IsGoverned now actor (Call.set_disabled user_id disabled) s g =
      elim (set_disabled_outcome now user_id actor s disabled) [
        | inl e ↦ subst IsGoverned (sym e) g
        | inr (u, h, fine, e) ↦
            subst IsGoverned (sym e)
              (write_disabled-IsGoverned now user_id actor s g disabled h fine)
      ]
  perform-IsGoverned now actor (Call.set_roles user_id roles) s g =
      elim (set_roles_outcome now user_id actor s roles) [
        | inl e ↦ subst IsGoverned (sym e) g
        | inr (u, h, fine, e) ↦
            subst IsGoverned (sym e) (write_roles-IsGoverned now user_id actor s g roles h fine)
      ]
  perform-IsGoverned now actor (Call.issue_token raw_token user_id kind ttl audited) s g =
      kept-IsGoverned now user_id actor s g _
        (issue_token_users crypto now actor s raw_token user_id kind ttl audited)
  perform-IsGoverned now actor (Call.revoke_token raw_token) s g =
      kept-IsGoverned now raw_token actor s g _ (revoke_token_users crypto now actor s raw_token)
  perform-IsGoverned now actor (Call.revoke_session_by_hash hash) s g =
      kept-IsGoverned now hash actor s g _ (revoke_session_by_hash_users crypto now actor s hash)

  run-IsGoverned :
      (calls : List (ℕ × Option Identity × Call)) (s : AuthStore)
      → IsGoverned s
      → IsGoverned (run calls s)
  unfolding run
  run-IsGoverned [] s g = g
  run-IsGoverned ((now, actor, call) ∷ rest) s g =
      run-IsGoverned rest (perform now actor call s) (perform-IsGoverned now actor call s g)

  -- In a store with unique user ids and an enabled admin, any sequence of calls, refused ones
  -- included, leaves at least one enabled admin, and the ids unique.
  pub last_admin_remains :
      (calls : List (ℕ × Option Identity × Call)) (s : AuthStore)
      → ((user_id : String) → count_where (has_id user_id) s.users ≤ 1)
      → 0 < enabled_admins s
      → (0 < enabled_admins (run calls s))
        × ((user_id : String) → count_where (has_id user_id) (run calls s).users ≤ 1)
  last_admin_remains calls s unique some_admin =
      let g = run-IsGoverned calls s (record { unique = unique; some_admin = some_admin }) in
      (g.some_admin, g.unique)
