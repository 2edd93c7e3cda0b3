-- ===== src/Store/Pages.antt =====
-- The pages of `PackageStore.list`, src/ap_store/store.py, one after another.
use analysis_package.Base.{ℕ, zero, suc, List, [], ◌++◌}
use analysis_package.Base.Table.{select}
use analysis_package.Store.Records.{PackageRow, Store}
use analysis_package.Store.Listing.{ListFilter, ListPage, Sql, meets_filter, list}

-- the rows that meet the filter
abbrev pub matching : Sql → ListFilter → Store → List PackageRow
matching sql filt s = select (meets_filter sql filt) s.packages

module _ (sql : Sql) (orders : ℕ → List PackageRow → List PackageRow) (filt : ListFilter)
    (s : Store) where
  -- the answer of the call for a page
  abbrev pub page : ℕ → ListPage
  page n = list sql (orders n) (record filt { page = n }) s

  -- the rows of the pages 1 to n, as n calls answer them
  unfoldable pub first_pages : ℕ → List PackageRow
  first_pages zero = []
  first_pages (suc n) = first_pages n ++ (page (suc n)).items
