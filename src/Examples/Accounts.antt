-- ===== src/Examples/Accounts.antt =====
-- Runs of the user store at concrete inputs.
use analysis_package.Base.{
  ℕ, String, ◌≡◌, ◌≤◌, ◌<◌, refl, true, false, not, ◌&&◌, Option, none, some, List, [], ◌∷◌, arith,
  str_eq, str_eq_iff, Bool-cases, inl, inr, if◌then◌else◌, ◌+◌, ◌==◌, ltb,
}
use mathlib.Core.Path.{subst}
use analysis_package.Base.Exec.{ok}
use analysis_package.Base.Table.{find, count_where}
use analysis_package.Identity.{role_in, no_roles, Identity}
use analysis_package.Auth.{
  User, Session, session, AuthStore, Crypto, has_id, get_user, is_enabled_admin, has_token,
  other_admins, may_disable, identity_for_token, identity_or_none, iso, parse_iso, revoke_token,
  set_disabled, issue_token,
}
use analysis_package.Auth.Admins.{enabled_admins}
use analysis_package.Auth.Calls.{Call, run, last_admin_remains}
use analysis_package.Auth.Tokens.{revoke_is_final, disable_is_final, issue-identity_for_token}

abbrev plain_crypto : Crypto
plain_crypto = record {
  hash_password = λ p. p;
  verify_password = λ p h. str_eq p h;
  hash_token = λ t. t;
}

abbrev admin_user : User
admin_user = record {
  id = "root";
  display_name = "Root";
  password_hash = none;
  roles = record no_roles { admin = true };
  disabled = false;
  created_at = 0;
}

abbrev analyst_user : User
analyst_user = record {
  id = "alice";
  display_name = "Alice";
  password_hash = none;
  roles = record no_roles { analyst = true };
  disabled = false;
  created_at = 0;
}

abbrev held_token : Session
held_token = record {
  token_hash = "t";
  user_id = "alice";
  kind = session;
  created_at = 0;
  expires_at = none;
  revoked = false;
}

abbrev two_users : AuthStore
two_users = record {
  users = admin_user ∷ analyst_user ∷ [];
  sessions = held_token ∷ [];
  audit = [];
}

abbrev some_calls : List (ℕ × Option Identity × Call)
some_calls =
    (1, none, Call.set_disabled "root" true)
    ∷ (2, none, Call.set_roles "alice" (record no_roles { admin = true }))
    ∷ (3, none, Call.set_disabled "root" true)
    ∷ (4, none, Call.set_disabled "alice" false)
    ∷ []

root_is_unique : count_where (has_id "root") two_users.users ≤ 1
unfolding count_where has_id str_eq
root_is_unique = omega arith

two_users_unique : (user_id : String) → count_where (has_id user_id) two_users.users ≤ 1
unfolding count_where has_id
two_users_unique user_id = elim (Bool-cases (str_eq "root" user_id)) [
  | inl e ↦
      subst (λ n. count_where (has_id n) two_users.users ≤ 1) ((str_eq_iff "root" user_id).0 e)
        root_is_unique
  | inr other ↦ ground arith
]

last_admin_remains_example :
    (0 < enabled_admins (run plain_crypto some_calls two_users))
    × ((user_id : String)
        → count_where (has_id user_id) (run plain_crypto some_calls two_users).users ≤ 1)
unfolding enabled_admins count_where is_enabled_admin role_in
last_admin_remains_example =
    last_admin_remains plain_crypto some_calls two_users two_users_unique (omega arith)

token_is_held : find (has_token "t") two_users.sessions ≡ some held_token
unfolding find str_eq
token_is_held = refl

revoke_is_final_example :
    identity_for_token plain_crypto 9 "t"
      (run plain_crypto some_calls (revoke_token plain_crypto "t" two_users).1)
    ≡ none
revoke_is_final_example = revoke_is_final plain_crypto "t" two_users token_is_held some_calls 9

disable_is_accepted : (set_disabled 5 "alice" true none two_users).0 ≡ ok tt
unfolding set_disabled get_user find has_id str_eq other_admins count_where is_enabled_admin role_in
    may_disable
disable_is_accepted = refl

disable_is_final_example :
    identity_for_token plain_crypto 9 "t"
      (run plain_crypto some_calls (set_disabled 5 "alice" true none two_users).1)
    ≡ none
disable_is_final_example =
    disable_is_final plain_crypto 5 "alice" none two_users disable_is_accepted "t" token_is_held
      refl some_calls 9

new_token_is_free : find (has_token "u") two_users.sessions ≡ none
unfolding find str_eq
new_token_is_free = refl

alice_is_there : get_user two_users "alice" ≡ some analyst_user
unfolding get_user find has_id str_eq
alice_is_there = refl

issue-identity_for_token_example :
    identity_for_token plain_crypto 4000000 "u"
      (issue_token plain_crypto 1500000 "u" "alice" session 2000000 none false two_users).1
    ≡ (if not (2000000 == 0) && ltb (parse_iso (iso (1500000 + 2000000))) 4000000
        then none
        else identity_or_none "alice" analyst_user.roles)
issue-identity_for_token_example =
    issue-identity_for_token plain_crypto 1500000 "u" "alice" session 2000000 none false two_users
      new_token_is_free alice_is_there refl 4000000
