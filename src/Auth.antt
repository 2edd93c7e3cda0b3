-- ===== src/Auth.antt =====
-- The user, session and token store, src/ap_auth/store.py. `now` is what `_utcnow()` returns during
-- the call, in microseconds; the texts of `_iso` have whole seconds. A `roles` column holds the set
-- that `parse_roles` reads from it.
pub mod Accounts
pub mod Admins
pub mod Calls
pub mod Tokens
use analysis_package.Base.{
  ℕ, String, ltb, ◌==◌, ◌+◌, ◌*◌, Bool, true, false, ◌&&◌, not, Option, none, some, List, [], ◌∷◌,
  ◌++◌, str_eq, is_some, if◌then◌else◌,
}
use Prim.Native.Nat.{◌/◌}
use analysis_package.Base.Exec.{
  Result, ok, err, Exec, pure, raise, gets, require_some, guard, modify, transaction, ◌>>=◌, ◌>>◌,
}
use analysis_package.Base.Table.{find, count_where, update_where}
use analysis_package.Identity.{Role, RoleSet, role_in, any_role, Identity, new_identity}

pub record User : Type 0 where
  pub id : String
  pub display_name : String
  pub password_hash : Option String
  pub roles : RoleSet
  pub disabled : Bool
  pub created_at : ℕ

pub data Kind : Type 0 where
  session bearer : Kind

pub record Session : Type 0 where
  pub token_hash : String
  pub user_id : String
  pub kind : Kind
  pub created_at : ℕ
  pub expires_at : Option ℕ
  pub revoked : Bool

pub data AuthAction : Type 0 where
  created password_reset disable enable role_change token_issue token_revoke : AuthAction

pub record AuthAudit : Type 0 where
  pub actor : Option Identity  -- `actor_id`, `actor_roles`
  pub target_user_id : String
  pub action : AuthAction
  pub ts : ℕ

pub record AuthStore : Type 0 where
  pub users : List User
  pub sessions : List Session
  pub audit : List AuthAudit

-- `AuthError`, one constructor for each `raise`; `last_admin` is `LastAdminError`.
pub data AuthError : Type 0 where
  empty_user_id roleless_user user_exists no_such_user last_admin : AuthError
  no_such_token no_enabled_user : AuthError

abbrev pub A : Type 0 → Type 0
A T = Exec AuthStore AuthError T

-- `hash_password`, `verify_password` (src/ap_auth/passwords.py) and `_hash_token`: scrypt and sha256
pub record Crypto : Type 0 where
  pub hash_password : String → String
  pub verify_password : String → String → Bool
  pub hash_token : String → String

-- `_iso`, and `_parse_iso` of such a text
abbrev pub iso : ℕ → ℕ
iso t = t / 1000000

abbrev pub parse_iso : ℕ → ℕ
parse_iso n = n * 1000000

-- WHERE id=?
unfoldable pub has_id : String → User → Bool
has_id user_id u = str_eq u.id user_id

unfoldable pub get_user : AuthStore → String → Option User
get_user s user_id = find (has_id user_id) s.users

unfoldable pub insert_auth_audit : ℕ → Option Identity → String → AuthAction → AuthStore → AuthStore
insert_auth_audit now actor target action s = record s {
  audit =
      s.audit
      ++ record { actor = actor; target_user_id = target; action = action; ts = iso now } ∷ [];
}

-- an enabled user who holds the admin role
unfoldable pub is_enabled_admin : User → Bool
is_enabled_admin u = not u.disabled && role_in Role.admin u.roles

-- `_count_enabled_admins(exclude_user_id=…)`
unfoldable pub other_admins : String → AuthStore → ℕ
other_admins user_id s = count_where (λ u. is_enabled_admin u && not (has_id user_id u)) s.users

-- the row that `create_user` inserts
unfoldable pub new_user : Crypto → ℕ → String → String → RoleSet → Option String → User
new_user crypto now user_id display_name roles password = record {
  id = user_id;
  display_name = display_name;
  password_hash = elim password [
    | none ↦ none
    | some p ↦ if str_eq p "" then none else some (crypto.hash_password p)
  ];
  roles = roles;
  disabled = false;
  created_at = iso now;
}

-- the INSERT of `create_user` and its audit row
unfoldable pub insert_user : ℕ → Option Identity → User → AuthStore → AuthStore
insert_user now actor user s =
    insert_auth_audit now actor user.id created (record s { users = s.users ++ user ∷ [] })

unfoldable pub create_user :
    Crypto → ℕ → String → String → RoleSet → Option String → Option Identity → A User
create_user crypto now user_id display_name roles password actor = do
  guard (not (str_eq user_id "")) empty_user_id
  guard (any_role roles) roleless_user
  transaction (do
    existing ← gets (λ s. get_user s user_id)
    guard (not (is_some existing)) user_exists
    let user = new_user crypto now user_id display_name roles password
    modify (insert_user now actor user)
    pure user)

-- the UPDATE of `set_password` and its audit row
unfoldable pub write_password :
    Crypto → ℕ → String → String → Option Identity → AuthStore → AuthStore
write_password crypto now user_id password actor s =
    insert_auth_audit now actor user_id password_reset (record s {
      users =
          update_where (has_id user_id)
            (λ u. record u { password_hash = some (crypto.hash_password password) }) s.users;
    })

unfoldable pub set_password : Crypto → ℕ → String → String → Option Identity → A (Unit {0})
set_password crypto now user_id password actor = transaction (do
  existing ← gets (λ s. get_user s user_id)
  guard (is_some existing) no_such_user
  modify (write_password crypto now user_id password actor))

-- the UPDATEs of `set_disabled` and its audit row
unfoldable pub write_disabled : ℕ → String → Bool → Option Identity → AuthStore → AuthStore
write_disabled now user_id disabled actor s =
    insert_auth_audit now actor user_id (if disabled then disable else enable) (record s {
      users = update_where (has_id user_id) (λ u. record u { disabled = disabled }) s.users;
      sessions =
          if disabled
          then update_where (λ x. str_eq x.user_id user_id) (λ x. record x { revoked = true })
              s.sessions
          else s.sessions;
    })

-- the last-admin guard of `set_disabled`
unfoldable pub may_disable : User → ℕ → Bool
may_disable u others = not (is_enabled_admin u && (others == 0))

unfoldable pub set_disabled : ℕ → String → Bool → Option Identity → A (Unit {0})
set_disabled now user_id disabled actor = transaction (do
  found ← gets (λ s. get_user s user_id)
  u ← require_some found no_such_user
  others ← gets (other_admins user_id)
  guard (not (disabled && not (may_disable u others))) last_admin
  modify (write_disabled now user_id disabled actor))

-- the UPDATE of `set_roles` and its audit row
unfoldable pub write_roles : ℕ → String → RoleSet → Option Identity → AuthStore → AuthStore
write_roles now user_id roles actor s =
    insert_auth_audit now actor user_id role_change
      (record s { users = update_where (has_id user_id) (λ u. record u { roles = roles }) s.users })

unfoldable pub set_roles : ℕ → String → RoleSet → Option Identity → A (Option User)
set_roles now user_id roles actor = do
  guard (any_role roles) roleless_user
  transaction (do
    found ← gets (λ s. get_user s user_id)
    u ← require_some found no_such_user
    others ← gets (other_admins user_id)
    guard (not (is_enabled_admin u && not (role_in Role.admin roles) && (others == 0))) last_admin
    modify (write_roles now user_id roles actor))
  gets (λ s. get_user s user_id)

-- `Identity(id=…, roles=…)`, or `None` on an `IdentityError`
abbrev pub identity_or_none : String → RoleSet → Option Identity
identity_or_none id roles = elim (new_identity id roles) [ ok actor ↦ some actor | err e ↦ none ]

unfoldable pub verify_login : Crypto → String → String → AuthStore → Option Identity
verify_login crypto user_id password s = elim (get_user s user_id) [
  | none ↦ none
  | some u ↦ if u.disabled then none else elim u.password_hash [
    | none ↦ none
    | some h ↦ if crypto.verify_password password h then identity_or_none u.id u.roles else none
  ]
]

-- the row that `_issue_token` inserts
unfoldable pub new_session : Crypto → ℕ → String → String → Kind → ℕ → Session
new_session crypto now raw_token user_id kind ttl = record {
  token_hash = crypto.hash_token raw_token;
  user_id = user_id;
  kind = kind;
  created_at = iso now;
  expires_at = if ttl == 0 then none else some (iso (now + ttl));
  revoked = false;
}

-- `_issue_token`; `raw_token` is what `secrets.token_urlsafe` returned, and `ttl` is in microseconds
unfoldable pub issue_token :
    Crypto → ℕ → String → String → Kind → ℕ → Option Identity → Bool → A String
issue_token crypto now raw_token user_id kind ttl actor audited = do
  found ← gets (λ s. find (λ u. has_id user_id u && not u.disabled) s.users)
  guard (is_some found) no_enabled_user
  transaction (do
    modify (λ s. record s {
      sessions = s.sessions ++ new_session crypto now raw_token user_id kind ttl ∷ [];
    })
    modify (λ s. if audited then insert_auth_audit now actor user_id token_issue s else s)
    pure raw_token)

abbrev pub has_token : String → Session → Bool
has_token hash x = str_eq x.token_hash hash

unfoldable pub revoke_token : Crypto → String → A (Unit {0})
revoke_token crypto raw_token = modify (λ s. record s {
  sessions =
      update_where (has_token (crypto.hash_token raw_token)) (λ x. record x { revoked = true })
        s.sessions;
})

unfoldable pub revoke_session_by_hash : ℕ → String → Option Identity → A (Unit {0})
revoke_session_by_hash now hash actor = transaction (do
  found ← gets (λ s. find (has_token hash) s.sessions)
  x ← require_some found no_such_token
  modify (λ s. insert_auth_audit now actor x.user_id token_revoke (record s {
    sessions = update_where (has_token hash) (λ y. record y { revoked = true }) s.sessions;
  })))

-- `_utcnow() > _parse_iso(expires_at)`
unfoldable pub is_expired : ℕ → Option ℕ → Bool
is_expired now none = false
is_expired now (some at) = ltb (parse_iso at) now

-- `identity_for_token`, its JOIN as two reads
unfoldable pub identity_for_token : Crypto → ℕ → String → AuthStore → Option Identity
identity_for_token crypto now raw_token s =
    elim (find (has_token (crypto.hash_token raw_token)) s.sessions) [
      | none ↦ none
      | some x ↦ elim (get_user s x.user_id) [
        | none ↦ none
        | some u ↦
            if x.revoked
            then none
            else if u.disabled
            then none
            else if is_expired now x.expires_at
            then none
            else identity_or_none x.user_id u.roles
      ]
    ]
