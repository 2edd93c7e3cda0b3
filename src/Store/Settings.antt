-- ===== src/Store/Settings.antt =====
-- The settings of the store, src/ap_store/store.py, and the retention marker over them.
use mathlib.Core.Option
use analysis_package.Base.{
  ℕ, String, ◌≡◌, refl, Bool, Option, none, some, List, [], ◌∷◌, ◌++◌, arith, str_eq, str_eq_refl,
  is_some, if◌then◌else◌, Option-cases, inl, inr,
}
use analysis_package.Base.Exec.{raise, modify, transaction}
use analysis_package.Base.Int.{ℤ, pos, negsuc}
use analysis_package.Base.Table.{find, update_where}
use analysis_package.Base.Table.Laws.{find-update, find-append, find_holds}
use analysis_package.Identity.{Identity}
use analysis_package.Store.Records.{Setting, Store}
use analysis_package.Store.Methods.{M, negative_retention}

abbrev named_setting : String → Setting → Bool
named_setting key row = str_eq row.key key

-- `get_setting`
unfoldable pub get_setting : String → Store → Option String
get_setting key s = Option.map (λ (row : Setting). row.value) (find (named_setting key) s.settings)

-- INSERT ... ON CONFLICT(key) DO UPDATE
unfoldable pub upsert : Setting → List Setting → List Setting
upsert row rows =
    if is_some (find (named_setting row.key) rows)
    then update_where (named_setting row.key)
        (λ old. record old {
          value = row.value;
          updated_at = row.updated_at;
          updated_by_id = row.updated_by_id;
          updated_by_roles = row.updated_by_roles;
        })
        rows
    else rows ++ row ∷ []

-- all that `set_setting` writes
unfoldable pub write_setting : ℕ → String → String → Identity → Store → Store
write_setting now key value actor s = record s {
  settings =
      upsert
        (record {
          key = key;
          value = value;
          updated_at = now;
          updated_by_id = actor.id;
          updated_by_roles = actor.roles;
        })
        s.settings;
  settings_audit =
      s.settings_audit
      ++ record {
        key = key;
        old_value = get_setting key s;
        new_value = value;
        actor_id = actor.id;
        actor_roles = actor.roles;
        ts = now;
      }
        ∷ [];
}

unfoldable pub set_setting : ℕ → String → String → Identity → M (Unit {0})
set_setting now key value actor = transaction (modify (write_setting now key value actor))

abbrev pub retention_days_key : String
retention_days_key = "retention_days"

-- `get_retention_days`: no setting, or the parsed number, or a `ValueError`. `int_of` is `int(s)`.
unfoldable pub get_retention_days : (String → Option ℤ) → Store → Option (Option ℤ)
get_retention_days int_of s = elim (get_setting retention_days_key s) [
  | none ↦ some none
  | some v ↦ Option.map (λ (n : ℤ). some n) (int_of v)
]

-- `set_retention_days`. `str_of` is `str(n)`.
unfoldable pub set_retention_days : (ℕ → String) → ℕ → ℤ → Identity → M (Unit {0})
set_retention_days str_of now (negsuc n) actor = raise negative_retention
set_retention_days str_of now (pos n) actor = set_setting now retention_days_key (str_of n) actor

module _ (row : Setting) (rows : List Setting) where
  refreshed : Setting → Setting
  refreshed old = record old {
    value = row.value;
    updated_at = row.updated_at;
    updated_by_id = row.updated_by_id;
    updated_by_roles = row.updated_by_roles;
  }

  -- After an upsert, the row of its key has its value.
  value-upsert :
      Option.map (λ (r : Setting). r.value) (find (named_setting row.key) (upsert row rows))
      ≡ some row.value
  unfolding upsert refreshed
  value-upsert = elim (Option-cases (find (named_setting row.key) rows)) [
    | inl fresh ↦ ground (arith, find-append (named_setting row.key) rows row, str_eq_refl row.key)
    | inr (old, there) ↦ ground (
      arith,
      find-update (named_setting row.key) (named_setting row.key) refreshed rows (λ a. refl),
      find_holds (named_setting row.key) rows old there,
    )
  ]

-- A setting that was just written is the one that is read.
pub get_setting-set_setting :
    (now : ℕ) (key value : String) (actor : Identity) (s : Store)
    → get_setting key (set_setting now key value actor s).1 ≡ some value
unfolding get_setting set_setting write_setting
get_setting-set_setting now key value actor s =
    value-upsert
      (record {
        key = key;
        value = value;
        updated_at = now;
        updated_by_id = actor.id;
        updated_by_roles = actor.roles;
      })
      s.settings

-- The retention marker that was set is the one that is read back, for texts that `int` reads as
-- what `str` wrote.
pub retention_round_trip :
    (str_of : ℕ → String) (int_of : String → Option ℤ)
    → ((n : ℕ) → int_of (str_of n) ≡ some (pos n))
    → (now n : ℕ) (actor : Identity) (s : Store)
    → get_retention_days int_of (set_retention_days str_of now (pos n) actor s).1
      ≡ some (some (pos n))
unfolding get_retention_days set_retention_days
retention_round_trip str_of int_of law now n actor s =
    ground (arith, get_setting-set_setting now retention_days_key (str_of n) actor s, law n)
