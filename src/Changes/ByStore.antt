-- ===== src/Changes/ByStore.antt =====
-- `publish` makes only changes of the abstract machine.
use mathlib.Core.Option
use analysis_package.Base.{
  ℕ, String, refl, inl, inr, Option, str_eq, arith, str_eq_iff, Bool-cases, Option-cases,
}
use analysis_package.Identity.{Identity}
use analysis_package.Store.Records.{Key, Overall, Bytes, Store}
use analysis_package.Store.Effects.{get_row}
use analysis_package.Store.Methods.{PackageDir, named, draft_row, publish, publish_row}
use analysis_package.Store.Publish.{publish_row_fresh, publish_row_again, publish_row_differs}
use analysis_package.Review.{ReviewPolicy}
use analysis_package.Changes.{Change, same, published}

-- the key that the manifest of a directory names
unfoldable pub named_key : PackageDir → Key
named_key dir = record {
  package_id = Option.get_or (named dir.manifest.package_id) "";
  package_version = Option.get_or (named dir.manifest.package_version) "";
}

module _ (rerun_gate : Bytes → Overall) (policy : ReviewPolicy) (blob_sha256 : Bytes → String)
    (now : ℕ) (dir : PackageDir) (actor : Identity) (gate_report : Option Overall) (s : Store) where
  by_publish_row :
      (k : Key)
      → Change rerun_gate policy k s (publish_row blob_sha256 now dir k actor gate_report s).1
  unfolding draft_row
  by_publish_row k = elim (Option-cases (get_row s k)) [
    | inl fresh ↦ rw (publish_row_fresh blob_sha256 now dir actor gate_report s k fresh) (
        published (draft_row blob_sha256 now dir k actor gate_report)
          (record { sha256 = blob_sha256 dir.blob; bytes = dir.blob }) actor now refl fresh refl
          refl refl refl refl)
    | inr (row, old) ↦ elim (Bool-cases (str_eq row.blob_sha256 (blob_sha256 dir.blob))) [
      | inl e ↦
          rw
            (publish_row_again blob_sha256 now dir actor gate_report s k old
              ((str_eq_iff row.blob_sha256 (blob_sha256 dir.blob)).0 e))
            (same refl)
      | inr e ↦
          rw
            (publish_row_differs blob_sha256 now dir actor gate_report s k old
              (λ q. ground (arith, str_eq_iff row.blob_sha256 (blob_sha256 dir.blob))))
            (same refl)
    ]
  ]

  -- `publish` inserts one fresh draft, or leaves the store as it is.
  pub publish-Change :
      Change rerun_gate policy (named_key dir) s (publish blob_sha256 now dir actor gate_report s).1
  unfolding publish named_key
  publish-Change = elim (Option-cases (named dir.manifest.package_id)) [
    | inl missing ↦ rw missing (same refl)
    | inr (package_id, given) ↦ elim (Option-cases (named dir.manifest.package_version)) [
      | inl missing ↦ rw (given, missing) (same refl)
      | inr (package_version, given') ↦
          rw (given, given')
            (by_publish_row (record { package_id = package_id; package_version = package_version }))
    ]
  ]
