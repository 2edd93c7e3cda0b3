-- ===== src/Auth/Tokens.antt =====
-- The tokens of src/ap_auth/store.py: `issue_session`, `issue_bearer_token`, `revoke_token`,
-- `revoke_session_by_hash`, `identity_for_token`, and the revocation in `set_disabled`.
use analysis_package.Base.{
  ℕ, String, ◌≡◌, refl, sym, ap, Bool, true, false, not, ◌&&◌, Option, none, some, List, [], ◌∷◌,
  ◌++◌, arith, Option-cases, inl, inr, str_eq, str_eq_refl, str_eq_iff, if◌then◌else◌, ◌+◌, ◌==◌,
  is_some, ltb,
}
use mathlib.Core.Path.{subst}
use analysis_package.Base.Exec.{ok}
use analysis_package.Base.Table.{find, update_where}
use analysis_package.Base.Table.Laws.{
  find-update, find-append, find_holds, count_and_pos, count-zero_of_find,
}
use analysis_package.Identity.{Identity}
use analysis_package.Auth.{
  User, Kind, Session, AuthStore, Crypto, has_id, get_user, has_token, is_expired,
  identity_for_token, identity_or_none, iso, parse_iso, revoke_token, set_disabled, write_disabled,
  issue_token, new_session, insert_auth_audit, insert_user, write_password, write_roles,
  revoke_session_by_hash,
}
use analysis_package.Auth.Accounts.{
  set_disabled_outcome, set_roles_outcome, set_password_outcome, create_user_outcome,
}
use analysis_package.Auth.Calls.{Call, perform, run}

unfoldable revoked_in : String → List Session → Bool
revoked_in hash l = elim (find (has_token hash) l) [ none ↦ false | some x ↦ x.revoked ]

module _ (hash : String) (l : List Session) where
  -- Whichever tokens are revoked next, a revoked token stays revoked.
  revoked_in-update :
      (p : Session → Bool)
      → revoked_in hash l ≡ true
      → revoked_in hash (update_where p (λ x. record x { revoked = true }) l) ≡ true
  unfolding revoked_in
  revoked_in-update p h =
      ground
        (arith, find-update (has_token hash) p (λ x. record x { revoked = true }) l (λ a. refl))

  revoked_in-append :
      (x : Session) → revoked_in hash l ≡ true → revoked_in hash (l ++ x ∷ []) ≡ true
  unfolding revoked_in
  revoked_in-append x h = ground (arith, find-append (has_token hash) l x)

  -- An UPDATE that reaches the token revokes it.
  update_revokes :
      (p : Session → Bool) {x : Session}
      → find (has_token hash) l ≡ some x
      → p x ≡ true
      → revoked_in hash (update_where p (λ y. record y { revoked = true }) l) ≡ true
  unfolding revoked_in
  update_revokes p {x} h reached =
      ground
        (arith, find-update (has_token hash) p (λ y. record y { revoked = true }) l (λ a. refl))

module _ (crypto : Crypto) (now : ℕ) (actor : Option Identity) (s : AuthStore) (hash : String)
    (h : revoked_in hash s.sessions ≡ true) where
  write_disabled-revoked :
      (user_id : String) (disabled : Bool)
      → revoked_in hash (write_disabled now user_id disabled actor s).sessions ≡ true
  unfolding write_disabled insert_auth_audit
  write_disabled-revoked user_id true = revoked_in-update hash s.sessions _ h
  write_disabled-revoked user_id false = h

  perform-revoked : (c : Call) → revoked_in hash (perform crypto now actor c s).sessions ≡ true
  unfolding perform insert_auth_audit
  perform-revoked (Call.create_user user_id display_name roles password) =
      elim (create_user_outcome now user_id actor s crypto display_name roles password) [
        | inl e ↦ subst (λ t. revoked_in hash t.sessions ≡ true) (sym e) h
        | inr (free, e) ↦
            subst (λ t. revoked_in hash t.sessions ≡ true) (sym e) (unfold insert_user in h)
      ]
  perform-revoked (Call.set_password user_id password) =
      elim (set_password_outcome now user_id actor s crypto password) [
        | inl e ↦ subst (λ t. revoked_in hash t.sessions ≡ true) (sym e) h
        | inr e ↦
            subst (λ t. revoked_in hash t.sessions ≡ true) (sym e) (unfold write_password in h)
      ]
  perform-revoked (Call.set_disabled user_id disabled) =
      elim (set_disabled_outcome now user_id actor s disabled) [
        | inl e ↦ subst (λ t. revoked_in hash t.sessions ≡ true) (sym e) h
        | inr (u, found, fine, e) ↦
            subst (λ t. revoked_in hash t.sessions ≡ true) (sym e)
              (write_disabled-revoked user_id disabled)
      ]
  perform-revoked (Call.set_roles user_id roles) =
      elim (set_roles_outcome now user_id actor s roles) [
        | inl e ↦ subst (λ t. revoked_in hash t.sessions ≡ true) (sym e) h
        | inr (u, found, fine, e) ↦
            subst (λ t. revoked_in hash t.sessions ≡ true) (sym e) (unfold write_roles in h)
      ]
  perform-revoked (Call.issue_token raw_token user_id kind ttl audited) =
      unfold issue_token in
      ground (
        arith,
        revoked_in-append hash s.sessions (new_session crypto now raw_token user_id kind ttl) h,
      )
  perform-revoked (Call.revoke_token raw_token) =
      unfold revoke_token in revoked_in-update hash s.sessions _ h
  perform-revoked (Call.revoke_session_by_hash given) =
      unfold revoke_session_by_hash in
      ground (arith, revoked_in-update hash s.sessions (has_token given) h)

run-revoked :
    (crypto : Crypto) (calls : List (ℕ × Option Identity × Call)) (s : AuthStore) (hash : String)
    → revoked_in hash s.sessions ≡ true
    → revoked_in hash (run crypto calls s).sessions ≡ true
unfolding run
run-revoked crypto [] s hash h = h
run-revoked crypto ((now, actor, call) ∷ rest) s hash h =
    run-revoked crypto rest (perform crypto now actor call s) hash
      (perform-revoked crypto now actor s hash h call)

-- An accepted `set_disabled` has written.
set_disabled_writes :
    (now : ℕ) (user_id : String) (disabled : Bool) (actor : Option Identity) (s : AuthStore)
    → (set_disabled now user_id disabled actor s).0 ≡ ok tt
    → (set_disabled now user_id disabled actor s).1 ≡ write_disabled now user_id disabled actor s
unfolding set_disabled
set_disabled_writes now user_id disabled actor s accepted = ground arith

revoked_is_nobody :
    (crypto : Crypto) (now : ℕ) (raw_token : String) (s : AuthStore)
    → revoked_in (crypto.hash_token raw_token) s.sessions ≡ true
    → identity_for_token crypto now raw_token s ≡ none
unfolding revoked_in identity_for_token
revoked_is_nobody crypto now raw_token s h = ground arith

-- A token that the store holds, once revoked, names nobody again: at any later time, after any
-- calls of the store.
pub revoke_is_final :
    (crypto : Crypto) (raw_token : String) (s : AuthStore) {x : Session}
    → find (has_token (crypto.hash_token raw_token)) s.sessions ≡ some x
    → (calls : List (ℕ × Option Identity × Call)) (later : ℕ)
    → identity_for_token crypto later raw_token
        (run crypto calls (revoke_token crypto raw_token s).1)
      ≡ none
unfolding revoke_token
revoke_is_final crypto raw_token s {x} h calls later =
    let hash = crypto.hash_token raw_token in
    revoked_is_nobody crypto later raw_token _ (
      run-revoked crypto calls _ hash (
        update_revokes hash s.sessions (has_token hash) h
          (find_holds (has_token hash) s.sessions x h)))

-- Disabling a user, where it is not refused, ends every token of theirs: it names nobody again, at
-- any later time, after any calls of the store, enabling the user again included.
pub disable_is_final :
    (crypto : Crypto) (now : ℕ) (user_id : String) (actor : Option Identity) (s : AuthStore)
    → (set_disabled now user_id true actor s).0 ≡ ok tt
    → (raw_token : String) {x : Session}
    → find (has_token (crypto.hash_token raw_token)) s.sessions ≡ some x
    → x.user_id ≡ user_id
    → (calls : List (ℕ × Option Identity × Call)) (later : ℕ)
    → identity_for_token crypto later raw_token
        (run crypto calls (set_disabled now user_id true actor s).1)
      ≡ none
unfolding write_disabled insert_auth_audit
disable_is_final crypto now user_id actor s accepted raw_token {x} h own calls later =
    let hash = crypto.hash_token raw_token in
    revoked_is_nobody crypto later raw_token _ (
      run-revoked crypto calls _ hash (
        subst (λ t. revoked_in hash t.sessions ≡ true)
          (sym (set_disabled_writes now user_id true actor s accepted))
          (update_revokes hash s.sessions (λ y. str_eq y.user_id user_id) h
            ((str_eq_iff x.user_id user_id).1 own))))

module _ (crypto : Crypto) (now : ℕ) (raw_token user_id : String) (kind : Kind) (ttl : ℕ)
    (actor : Option Identity) (audited : Bool) (s : AuthStore) {u : User} where
  finds_enabled :
      get_user s user_id ≡ some u
      → u.disabled ≡ false
      → is_some (find (λ v. has_id user_id v && not v.disabled) s.users) ≡ true
  unfolding get_user
  finds_enabled h enabled =
      elim (Option-cases (find (λ v. has_id user_id v && not v.disabled) s.users)) [
        | inl e ↦ absurd (
            ground (
              arith,
              count_and_pos (has_id user_id) (λ v. not v.disabled) s.users h,
              count-zero_of_find (λ v. has_id user_id v && not v.disabled) s.users e,
            ))
        | inr (v, e) ↦ rw e refl
      ]

  issue_token_writes :
      get_user s user_id ≡ some u
      → u.disabled ≡ false
      → ((issue_token crypto now raw_token user_id kind ttl actor audited s).1.sessions
          ≡ s.sessions ++ new_session crypto now raw_token user_id kind ttl ∷ [])
        × ((issue_token crypto now raw_token user_id kind ttl actor audited s).1.users ≡ s.users)
  unfolding issue_token insert_auth_audit
  issue_token_writes h enabled = ground (arith, finds_enabled h enabled)

-- A token issued to an enabled user, whose hash the store did not hold, names that user, with the
-- user's roles, in the store that the issue leaves, until its time is up; and nobody from then on.
pub issue-identity_for_token :
    (crypto : Crypto) (now : ℕ) (raw_token user_id : String) (kind : Kind) (ttl : ℕ)
    (actor : Option Identity) (audited : Bool) (s : AuthStore) {u : User}
    → find (has_token (crypto.hash_token raw_token)) s.sessions ≡ none
    → get_user s user_id ≡ some u
    → u.disabled ≡ false
    → (later : ℕ)
    → identity_for_token crypto later raw_token
        (issue_token crypto now raw_token user_id kind ttl actor audited s).1
      ≡ (if not (ttl == 0) && ltb (parse_iso (iso (now + ttl))) later
          then none
          else identity_or_none user_id u.roles)
unfolding identity_for_token is_expired get_user new_session
issue-identity_for_token crypto now raw_token user_id kind ttl actor audited s {u} fresh h enabled
      later =
    let sent = issue_token_writes crypto now raw_token user_id kind ttl actor audited s h enabled in
    ground (
      arith,
      sent,
      ap (find (has_token (crypto.hash_token raw_token))) sent.0,
      find-append (has_token (crypto.hash_token raw_token)) s.sessions
          (new_session crypto now raw_token user_id kind ttl),
      ap (find (has_id user_id)) sent.1,
      str_eq_refl (crypto.hash_token raw_token),
    )
