-- ===== src/Store/Listing.antt =====
-- `list` and `settings_audit_trail` of src/ap_store/store.py. LIKE and the comparison of texts are
-- SQLite's, and parameters; so is the order in which one call answers its rows, which need not be
-- that of another call where rows tie.
use analysis_package.Base.{
  ℕ, zero, suc, String, ◌-◌, ◌*◌, Bool, true, ◌&&◌, ◌||◌, Option, none, some, List, [], ◌∷◌, ◌++◌,
  leb, str_eq, opt_eq, if◌then◌else◌,
}
use analysis_package.Base.Table.{count_where, select, take}
use analysis_package.Store.Records.{Status, PackageRow, SettingAudit, Store, status_is}

pub record ListFilter : Type 0 where
  pub profile : Option String
  pub status : Option Status
  pub owner : Option String
  pub as_of_from : Option String
  pub as_of_to : Option String
  pub query : Option String
  pub page : ℕ  -- a number below 1 reads as 1
  pub page_size : ℕ  -- ... likewise

pub record ListPage : Type 0 where
  pub items : List PackageRow
  pub total : ℕ
  pub page : ℕ
  pub page_size : ℕ

-- what `list` relies on of SQLite
pub record Sql : Type 0 where
  pub text_le : String → String → Bool  -- `<=` of texts
  pub like : String → String → Bool  -- the text has the query in it: LIKE '%query%'

-- ORDER BY as_of DESC, created_at DESC: the first row may stand before the second
unfoldable pub newest_first : Sql → PackageRow → PackageRow → Bool
newest_first sql a b =
    if str_eq a.as_of b.as_of then leb b.created_at a.created_at else sql.text_le b.as_of a.as_of

-- a clause that is added where its filter is given and not empty
abbrev if_given : Option String → (String → Bool) → Bool
if_given none clause = true
if_given (some value) clause = if str_eq value "" then true else clause value

abbrev if_status : Option Status → Status → Bool
if_status none status = true
if_status (some wanted) status = status_is status wanted

-- WHERE
unfoldable pub meets_filter : Sql → ListFilter → PackageRow → Bool
meets_filter sql filt r =
    if_given filt.profile (λ v. str_eq r.profile v)
    && if_status filt.status r.status
    && if_given filt.owner (λ v. opt_eq r.analyst_id (some v) || opt_eq r.reviewer_id (some v))
    && if_given filt.as_of_from (λ v. sql.text_le v r.as_of)
    && if_given filt.as_of_to (λ v. sql.text_le r.as_of v)
    && if_given filt.query (λ v. sql.like v r.title)

abbrev pub at_least_one : ℕ → ℕ
at_least_one n = if leb 1 n then n else 1

-- `max(1, min(filt.page_size, 200))`
unfoldable pub size_of_page : ℕ → ℕ
size_of_page n = at_least_one (if leb n 200 then n else 200)

-- OFFSET
unfoldable pub drop {ℓ} : {A : Type ℓ} → ℕ → List A → List A
drop zero l = l
drop (suc n) [] = []
drop (suc n) (x ∷ xs) = drop n xs

-- `order_by` is what the sorting of this call makes of the rows
unfoldable pub list : Sql → (List PackageRow → List PackageRow) → ListFilter → Store → ListPage
list sql order_by filt s =
    let rows = order_by (select (meets_filter sql filt) s.packages) in
    let page = at_least_one filt.page in
    let size = size_of_page filt.page_size in
    record {
      items = take size (drop ((page - 1) * size) rows);
      total = count_where (meets_filter sql filt) s.packages;
      page = page;
      page_size = size;
    }

abbrev last_first {ℓ} : {A : Type ℓ} → List A → List A
last_first [] = []
last_first (x ∷ xs) = last_first xs ++ x ∷ []

unfoldable pub settings_audit_trail : Option String → Store → List SettingAudit
settings_audit_trail none s = last_first s.settings_audit
settings_audit_trail (some key) s = last_first (select (λ a. str_eq a.key key) s.settings_audit)
