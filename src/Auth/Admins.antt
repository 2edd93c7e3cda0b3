-- ===== src/Auth/Admins.antt =====
-- The last-admin guard of src/ap_auth/store.py.
use analysis_package.Base.{
  ℕ, String, ◌≡◌, ◌≤◌, ◌<◌, refl, ap, sym, Bool, true, false, not, ◌&&◌, Option, none, some, List,
  [], ◌∷◌, arith, Bool-cases, inl, inr, str_eq, str_eq_iff, ◌==◌, ◌++◌,
}
use mathlib.Core.Path.{subst}
use analysis_package.Base.Table.{find, count_where, update_where}
use analysis_package.Base.Table.Laws.{
  count_split, count-update-ge, count-update_mono, count_comm, count-append, count-update,
  count_and_zero, count-zero_of_find,
}
use analysis_package.Identity.{Role, RoleSet, role_in, Identity}
use analysis_package.Auth.{
  User, AuthStore, Crypto, has_id, get_user, is_enabled_admin, other_admins, may_disable,
  insert_auth_audit, write_disabled, write_roles, write_password, insert_user,
}

-- how many enabled users hold the admin role
unfoldable pub enabled_admins : AuthStore → ℕ
enabled_admins s = count_where is_enabled_admin s.users

-- no two users share an id: PRIMARY KEY
abbrev pub IdsUnique : AuthStore → Type 0
IdsUnique s = (user_id : String) → count_where (has_id user_id) s.users ≤ 1

module _ (user_id : String) (s : AuthStore) where
  -- Where the user under edit is no enabled admin, the others are all the enabled admins.
  others_are_all :
      {u : User}
      → IdsUnique s
      → get_user s user_id ≡ some u
      → is_enabled_admin u ≡ false
      → other_admins user_id s ≡ enabled_admins s
  unfolding other_admins enabled_admins get_user
  others_are_all {u} unique h plain = omega (
    arith,
    count_split is_enabled_admin (has_id user_id) s.users,
    count_comm is_enabled_admin (has_id user_id) s.users,
    count_and_zero (has_id user_id) is_enabled_admin s.users (unique user_id) h plain,
  )

  -- An edit of one user that passed the guard leaves an enabled admin.
  edit_keeps_admin :
      (f : User → User) {u : User}
      → IdsUnique s
      → 0 < enabled_admins s
      → get_user s user_id ≡ some u
      → (is_enabled_admin u && (other_admins user_id s == 0)) ≡ false
      → 0 < count_where is_enabled_admin (update_where (has_id user_id) f s.users)
  unfolding other_admins
  edit_keeps_admin f {u} unique some_admin h guarded = elim (Bool-cases (is_enabled_admin u)) [
    | inl admin ↦ ground (arith, count-update-ge is_enabled_admin (has_id user_id) f s.users)
    | inr plain ↦ ground (
      arith,
      count-update-ge is_enabled_admin (has_id user_id) f s.users,
      others_are_all unique h plain,
    )
  ]

-- the two facts that every request keeps
pub record IsGoverned (s : AuthStore) : Type 0 where
  pub unique : IdsUnique s
  pub some_admin : 0 < enabled_admins s

edit_IsGoverned :
    (s t : AuthStore) (user_id : String) (f : User → User)
    → t.users ≡ update_where (has_id user_id) f s.users
    → ((u : User) (name : String) → has_id name (f u) ≡ has_id name u)
    → 0 < count_where is_enabled_admin (update_where (has_id user_id) f s.users)
    → IsGoverned s
    → IsGoverned t
unfolding enabled_admins
edit_IsGoverned s t user_id f e keeps some_admin g = record {
  unique = λ name. omega (
    arith,
    ap (count_where (has_id name)) e,
    count-update (has_id name) (has_id user_id) f s.users (λ u. keeps u name),
    g.unique name,
  );
  some_admin = omega (arith, ap (count_where is_enabled_admin) e);
}

module _ (now : ℕ) (user_id : String) (actor : Option Identity) (s : AuthStore)
    (g : IsGoverned s) where
  at_least :
      (l : List User)
      → count_where is_enabled_admin s.users ≤ count_where is_enabled_admin l
      → 0 < count_where is_enabled_admin l
  unfolding enabled_admins
  at_least l h = omega (arith, g.some_admin)

  pub write_disabled-IsGoverned :
      (disabled : Bool) {u : User}
      → get_user s user_id ≡ some u
      → (disabled && not (may_disable u (other_admins user_id s))) ≡ false
      → IsGoverned (write_disabled now user_id disabled actor s)
  unfolding write_disabled insert_auth_audit
  write_disabled-IsGoverned true {u} h guarded =
      edit_IsGoverned s _ user_id (λ x. record x { disabled = true }) refl
        (unfold has_id in λ x name. refl)
        (edit_keeps_admin user_id s _ g.unique g.some_admin h (unfold may_disable in ground arith))
        g
  write_disabled-IsGoverned false {u} h guarded =
      edit_IsGoverned s _ user_id (λ x. record x { disabled = false }) refl
        (unfold has_id in λ x name. refl)
        (at_least _ (
          count-update_mono is_enabled_admin (has_id user_id) (λ x. record x { disabled = false })
            s.users (unfold is_enabled_admin in λ x admin. ground arith)))
        g

  pub write_roles-IsGoverned :
      (roles : RoleSet) {u : User}
      → get_user s user_id ≡ some u
      → (is_enabled_admin u && not (role_in Role.admin roles) && (other_admins user_id s == 0))
        ≡ false
      → IsGoverned (write_roles now user_id roles actor s)
  unfolding write_roles insert_auth_audit
  write_roles-IsGoverned roles {u} h guarded =
      edit_IsGoverned s _ user_id (λ x. record x { roles = roles }) refl
        (unfold has_id in λ x name. refl)
        (elim (Bool-cases (role_in Role.admin roles)) [
          | inl still ↦ at_least _ (
              count-update_mono is_enabled_admin (has_id user_id) (λ x. record x { roles = roles })
                s.users (unfold is_enabled_admin in λ x admin. ground arith))
          | inr not_any_more ↦ edit_keeps_admin user_id s _ g.unique g.some_admin h (ground arith)
        ])
        g

  pub write_password-IsGoverned :
      (crypto : Crypto) (password : String)
      → IsGoverned (write_password crypto now user_id password actor s)
  unfolding write_password insert_auth_audit
  write_password-IsGoverned crypto password =
      let f : User → User =
        (λ x. record x { password_hash = some (crypto.hash_password password) }) in
      edit_IsGoverned s _ user_id f refl (unfold has_id in λ x name. refl)
        (at_least _ (
          count-update_mono is_enabled_admin (has_id user_id) f s.users
            (unfold is_enabled_admin in λ x admin. admin)))
        g

  -- A user with a new id is one more.
  fresh_id :
      (u : User) (name : String)
      → get_user s u.id ≡ none
      → count_where (has_id name) (s.users ++ u ∷ []) ≤ 1
  unfolding has_id get_user
  fresh_id u name h = elim (Bool-cases (str_eq u.id name)) [
    | inl same ↦ ground (
      arith,
      count-append (has_id name) s.users u,
      count-zero_of_find (has_id name) s.users
          (subst (λ n. find (has_id n) s.users ≡ none) ((str_eq_iff u.id name).0 same) h),
    )
    | inr other ↦ ground (arith, count-append (has_id name) s.users u, g.unique name)
  ]

  pub insert_user-IsGoverned :
      (u : User) → get_user s u.id ≡ none → IsGoverned (insert_user now actor u s)
  unfolding insert_user insert_auth_audit enabled_admins
  insert_user-IsGoverned u h = record {
    unique = λ name. fresh_id u name h;
    some_admin = omega (arith, count-append is_enabled_admin s.users u, g.some_admin);
  }

  pub kept-IsGoverned : (t : AuthStore) → t.users ≡ s.users → IsGoverned t
  unfolding enabled_admins
  kept-IsGoverned t e = record {
    unique = λ name. subst (λ l. count_where (has_id name) l ≤ 1) (sym e) (g.unique name);
    some_admin = subst (λ l. 0 < count_where is_enabled_admin l) (sym e) g.some_admin;
  }
