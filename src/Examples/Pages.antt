-- ===== src/Examples/Pages.antt =====
-- The pages of a list of two packages.
use mathlib.Core.List.Perm
use analysis_package.Base.{ℕ, ◌≡◌, true, none, some, List, [], ◌∷◌, str_eq}
use analysis_package.Store.Records.{approved, PackageRow, Store}
use analysis_package.Store.Listing.{ListFilter, Sql}
use analysis_package.Store.Pages.{page}
use analysis_package.Examples.Packages.{demo_row, second_key, two_versions}

abbrev newer : PackageRow
newer = record demo_row { key = second_key; created_at = 2 }

abbrev two_dated : Store
two_dated = record two_versions { packages = demo_row ∷ newer ∷ [] }

abbrev one_a_page : ListFilter
one_a_page = record {
  profile = none;
  status = some approved;
  owner = some "alice";
  as_of_from = none;
  as_of_to = none;
  query = none;
  page = 7;
  page_size = 1;
}

abbrev equal_texts : Sql
equal_texts = record { text_le = str_eq; like = λ q t. true }

-- a sorting of two rows that stand in the other order
abbrev turned : ℕ → List PackageRow → List PackageRow
turned n (a ∷ b ∷ []) = b ∷ a ∷ []
turned n l = l

-- what rules out two rows that tie
abbrev Tie : PackageRow → PackageRow → Type 0
Tie a b = a.as_of ≡ b.as_of → a.created_at ≡ b.created_at → a ≡ b
