-- ===== src/Guarantees/Permanence.antt =====
-- What no request can change of a published package: src/ap_store/store.py promises that a published
-- version is never mutated in place, and that a purge is irreversible.
use mathlib.Core.Path.{subst}
use mathlib.Core.Option
use analysis_package.Base.{String, ◌≡◌, ◌≢◌, ◌⊎◌, refl, ◌∙◌, sym, Option, none, some, List, arith}
use analysis_package.Identity.{Identity}
use analysis_package.Store.Records.{Key, Status, purged, PackageRow, Overall, Bytes, Store}
use analysis_package.Store.Effects.{get_row, tombstone}
use analysis_package.Review.{ReviewPolicy}
use analysis_package.Changes.{Changes, done, next, Allowed}
use analysis_package.Changes.Rows.{
  RowStep, kept, status_set, link_set, hold_set, wiped, Fate, absent, born, carried, fate,
}
use analysis_package.Requests.{Env, Request, run, run-Changes}

-- `r'` is a later state of the published version `r`
pub record SameVersion (r r' : PackageRow) : Type 0 where
  pub key : r'.key ≡ r.key
  pub profile : r'.profile ≡ r.profile
  pub created_at : r'.created_at ≡ r.created_at
  pub blob_sha256 : r'.blob_sha256 ≡ r.blob_sha256
  pub gate_overall : r'.gate_overall ≡ r.gate_overall
  pub published_by_id : r'.published_by_id ≡ r.published_by_id
  pub published_by_roles : r'.published_by_roles ≡ r.published_by_roles
  pub titled : (r'.title ≡ r.title) ⊎ (r'.purged_at ≢ none)

-- ... and what is known of its purge
record Follows (r r' : PackageRow) : Type 0 where
  version : SameVersion r r'
  dated : r.purged_at ≢ none → r'.purged_at ≡ r.purged_at
  purged_stays : r.status ≡ purged → r.purged_at ≢ none → r'.status ≡ purged

module _ (rerun_gate : Bytes → Overall) (policy : ReviewPolicy) where
  not_allowed_from_purged :
      {s : Store} {r : PackageRow} {to : Status} {actor : Identity} {reason : Option String}
      → Allowed rerun_gate policy s r to actor reason
      → r.status ≡ purged
      → ⊥
  not_allowed_from_purged (Allowed.submit st t who g) p = cc
  not_allowed_from_purged (Allowed.approve st t who f) p = cc
  not_allowed_from_purged (Allowed.reject st t who f w) p = cc
  not_allowed_from_purged (Allowed.pull_back st t who) p = ground arith
  not_allowed_from_purged (Allowed.supersede st t who) p = cc
  not_allowed_from_purged (Allowed.recall st t who w) p = cc
  not_allowed_from_purged (Allowed.restore st t who) p = ground arith

  step-SameVersion :
      {s : Store} {r r' : PackageRow} → RowStep rerun_gate policy s r r' → SameVersion r r'
  unfolding tombstone
  step-SameVersion (kept e) = ground arith
  step-SameVersion (status_set to actor reason okay e) = ground arith
  step-SameVersion (link_set replaced e) = ground arith
  step-SameVersion (hold_set actor hold reason who e) = ground arith
  step-SameVersion (wiped actor now who live st free e) = ground arith

  step-dated :
      {s : Store} {r r' : PackageRow}
      → RowStep rerun_gate policy s r r'
      → r.purged_at ≢ none
      → r'.purged_at ≡ r.purged_at
  step-dated (kept e) h = ground arith
  step-dated (status_set to actor reason okay e) h = ground arith
  step-dated (link_set replaced e) h = ground arith
  step-dated (hold_set actor hold reason who e) h = ground arith
  step-dated (wiped actor now who live st free e) h = absurd (h live)

  step-purged :
      {s : Store} {r r' : PackageRow}
      → RowStep rerun_gate policy s r r'
      → r.status ≡ purged
      → r'.status ≡ purged
  unfolding tombstone
  step-purged (kept e) h = ground arith
  step-purged (status_set to actor reason okay e) h = absurd (not_allowed_from_purged okay h)
  step-purged (link_set replaced e) h = ground arith
  step-purged (hold_set actor hold reason who e) h = ground arith
  step-purged (wiped actor now who live st free e) h = ground arith

SameVersion-trans :
    {r r' r'' : PackageRow}
    → SameVersion r r'
    → SameVersion r' r''
    → ((r'.purged_at ≢ none) → r''.purged_at ≡ r'.purged_at)
    → SameVersion r r''
SameVersion-trans a b dated = record {
  key = b.key ∙ a.key;
  profile = b.profile ∙ a.profile;
  created_at = b.created_at ∙ a.created_at;
  blob_sha256 = b.blob_sha256 ∙ a.blob_sha256;
  gate_overall = b.gate_overall ∙ a.gate_overall;
  published_by_id = b.published_by_id ∙ a.published_by_id;
  published_by_roles = b.published_by_roles ∙ a.published_by_roles;
  titled = ground arith;
}

Follows-refl : (r : PackageRow) → Follows r r
Follows-refl r = record { version = ground arith; dated = λ h. refl; purged_stays = λ p h. p }

Follows-trans : {r r' r'' : PackageRow} → Follows r r' → Follows r' r'' → Follows r r''
Follows-trans a b = record {
  version = SameVersion-trans a.version b.version b.dated;
  dated = λ h. b.dated (λ q. h (sym (a.dated h) ∙ q)) ∙ a.dated h;
  purged_stays = λ p h. b.purged_stays (a.purged_stays p h) (λ q. h (sym (a.dated h) ∙ q));
}

module _ (rerun_gate : Bytes → Overall) (policy : ReviewPolicy) where
  step-Follows : {s : Store} {r r' : PackageRow} → RowStep rerun_gate policy s r r' → Follows r r'
  step-Follows st = record {
    version = step-SameVersion rerun_gate policy st;
    dated = step-dated rerun_gate policy st;
    purged_stays = λ p h. step-purged rerun_gate policy st p;
  }

module _ (rerun_gate : Bytes → Overall) (policy : ReviewPolicy) (j : Key) where
  Later : Store → PackageRow → Type 0
  Later t r = (r' : PackageRow) × (get_row t j ≡ some r') × Follows r r'

  Later-of_Fate :
      {s t : Store} (r : PackageRow)
      → get_row s j ≡ some r
      → Fate rerun_gate policy s t j
      → Later t r
  unfolding Later
  Later-of_Fate r h (absent gone _) = absurd (ground arith)
  Later-of_Fate r h (born x gone _ _ _ _ _ _) = absurd (ground arith)
  Later-of_Fate r h (carried x x' hx hx' st) =
      let own : x ≡ r = Option.some-injective _ _ (sym hx ∙ h) in
      (x', hx', subst (λ y. Follows y x') own (step-Follows rerun_gate policy st))

  Changes-Later :
      {s t : Store} (r : PackageRow)
      → get_row s j ≡ some r
      → Changes rerun_gate policy s t
      → Later t r
  unfolding Later
  Changes-Later r h done = (r, h, Follows-refl r)
  Changes-Later r h (next cs c) =
      let (r', h', kept_so_far) = Changes-Later r h cs in
      let (r'', h'', kept_now) = Later-of_Fate r' h' (fate rerun_gate policy c j) in
      (r'', h'', Follows-trans kept_so_far kept_now)

-- A published version is permanent: after any requests its key still has a row, with the key, the
-- profile, the publication time, the blob, the recorded gate verdict and the publisher that it had,
-- and with its title unless the row has a purge time.
pub version_is_permanent :
    (env : Env) (requests : List Request) (s : Store) (j : Key) (r : PackageRow)
    → get_row s j ≡ some r
    → (r' : PackageRow) × (get_row (run env requests s) j ≡ some r') × SameVersion r r'
unfolding Later
version_is_permanent env requests s j r h =
    let (r', found, later) =
      Changes-Later env.rerun_gate env.policy j r h (run-Changes env requests s) in
    (r', found, later.version)

-- A purge is final: after any requests a row that is purged, with a purge time, is purged with the
-- same purge time.
pub purge_is_final :
    (env : Env) (requests : List Request) (s : Store) (j : Key) (r : PackageRow)
    → get_row s j ≡ some r
    → r.status ≡ purged
    → r.purged_at ≢ none
    → (r' : PackageRow) × (get_row (run env requests s) j ≡ some r')
      × (r'.status ≡ purged)
      × (r'.purged_at ≡ r.purged_at)
unfolding Later
purge_is_final env requests s j r h p dated =
    let (r', found, later) =
      Changes-Later env.rerun_gate env.policy j r h (run-Changes env requests s) in
    (r', found, later.purged_stays p dated, later.dated dated)
