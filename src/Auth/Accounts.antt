-- ===== src/Auth/Accounts.antt =====
-- What each method of src/ap_auth/store.py writes, or that it writes nothing.
use analysis_package.Base.{
  ℕ, String, ◌≡◌, refl, Bool, false, not, ◌&&◌, Option, none, some, arith, Bool-cases, Option-cases,
  inl, inr, ◌⊎◌, ◌==◌,
}
use analysis_package.Identity.{Role, RoleSet, role_in, any_role, Identity}
use analysis_package.Auth.{
  User, Kind, AuthStore, Crypto, get_user, insert_auth_audit, is_enabled_admin, other_admins,
  may_disable, new_user, insert_user, create_user, write_password, set_password, write_disabled,
  set_disabled, write_roles, set_roles, issue_token, revoke_token, revoke_session_by_hash,
}

module _ (now : ℕ) (user_id : String) (actor : Option Identity) (s : AuthStore) where
  pub set_disabled_outcome :
      (disabled : Bool)
      → ((set_disabled now user_id disabled actor s).1 ≡ s)
        ⊎ (u : User) × (get_user s user_id ≡ some u)
          × ((disabled && not (may_disable u (other_admins user_id s))) ≡ false)
          × ((set_disabled now user_id disabled actor s).1
              ≡ write_disabled now user_id disabled actor s)
  unfolding set_disabled
  set_disabled_outcome disabled = elim (Option-cases (get_user s user_id)) [
    | inl missing ↦ inl (ground arith)
    | inr (u, h) ↦ elim (Bool-cases (disabled && not (may_disable u (other_admins user_id s)))) [
      | inl refused ↦ inl (ground arith)
      | inr fine ↦ inr (u, h, fine, ground arith)
    ]
  ]

  pub set_roles_outcome :
      (roles : RoleSet)
      → ((set_roles now user_id roles actor s).1 ≡ s)
        ⊎ (u : User) × (get_user s user_id ≡ some u)
          × ((is_enabled_admin u && not (role_in Role.admin roles) && (other_admins user_id s == 0))
              ≡ false)
          × ((set_roles now user_id roles actor s).1 ≡ write_roles now user_id roles actor s)
  unfolding set_roles
  set_roles_outcome roles = elim (Bool-cases (any_role roles)) [
    | inr roleless ↦ inl (ground arith)
    | inl given ↦ elim (Option-cases (get_user s user_id)) [
      | inl missing ↦ inl (ground arith)
      | inr (u, h) ↦
          elim (Bool-cases (
            is_enabled_admin u
            && not (role_in Role.admin roles)
            && (other_admins user_id s == 0))) [
              | inl refused ↦ inl (ground arith)
              | inr fine ↦ inr (u, h, fine, ground arith)
            ]
    ]
  ]

  pub set_password_outcome :
      (crypto : Crypto) (password : String)
      → ((set_password crypto now user_id password actor s).1 ≡ s)
        ⊎ ((set_password crypto now user_id password actor s).1
            ≡ write_password crypto now user_id password actor s)
  unfolding set_password
  set_password_outcome crypto password = ground arith

  pub create_user_outcome :
      (crypto : Crypto) (display_name : String) (roles : RoleSet) (password : Option String)
      → ((create_user crypto now user_id display_name roles password actor s).1 ≡ s)
        ⊎ (get_user s user_id ≡ none)
          × ((create_user crypto now user_id display_name roles password actor s).1
              ≡ insert_user now actor (new_user crypto now user_id display_name roles password) s)
  unfolding create_user
  create_user_outcome crypto display_name roles password = ground arith

module _ (crypto : Crypto) (now : ℕ) (actor : Option Identity) (s : AuthStore) where
  -- The calls about tokens leave the users alone.
  pub issue_token_users :
      (raw_token user_id : String) (kind : Kind) (ttl : ℕ) (audited : Bool)
      → (issue_token crypto now raw_token user_id kind ttl actor audited s).1.users ≡ s.users
  unfolding issue_token insert_auth_audit
  issue_token_users raw_token user_id kind ttl audited = ground arith

  pub revoke_token_users :
      (raw_token : String) → (revoke_token crypto raw_token s).1.users ≡ s.users
  unfolding revoke_token
  revoke_token_users raw_token = refl

  pub revoke_session_by_hash_users :
      (hash : String) → (revoke_session_by_hash now hash actor s).1.users ≡ s.users
  unfolding revoke_session_by_hash insert_auth_audit
  revoke_session_by_hash_users hash = ground arith
