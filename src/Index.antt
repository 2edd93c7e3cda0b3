-- ===== src/Index.antt =====
-- The search index: src/ap_index/index_store.py and src/ap_index/models.py, and the visibility rule of
-- src/ap_manager_bot/scoping.py. SQLite's full-text match and its bm25 order are parameters.
pub mod Scope
use analysis_package.Base.{
  ℕ, String, Bool, true, false, not, ◌&&◌, ◌||◌, Option, none, some, List, [], ◌∷◌, ◌++◌, str_eq,
  if◌then◌else◌,
}
use analysis_package.Base.Exec.{Result, Exec, pure, guard, modify, ◌>>=◌, ◌>>◌}
use analysis_package.Base.Table.{find, select, take}
use analysis_package.Identity.{Role, Identity, has_role}
use analysis_package.Store.Records.{Key, key_is}

-- a row of the `chunks` table; its key is `package_id`, `package_version`
pub record ChunkRecord : Type 0 where
  pub chunk_id : String
  pub key : Key
  pub as_of : String
  pub profile : String
  pub chunk_type : String
  pub field_path : String
  pub confidentiality : String
  pub text : String

pub data IndexError : Type 0 where
  mixed_versions missing_package_blob unreadable_manifest : IndexError

pub record SearchFilters : Type 0 where
  pub package_id : Option String
  pub profile : Option String
  pub chunk_type : Option String
  pub confidentiality_in : Option (List String)

-- DELETE FROM chunks WHERE package_id=? AND package_version=?
unfoldable pub remove_package : Key → List ChunkRecord → List ChunkRecord
remove_package k chunks = select (λ c. not (key_is c.key k)) chunks

unfoldable pub share_key : Key → List ChunkRecord → Bool
share_key k [] = true
share_key k (c ∷ chunks) = let rest = share_key k chunks in key_is c.key k && rest

unfoldable pub index_package : List ChunkRecord → Exec (List ChunkRecord) IndexError (Unit {0})
index_package [] = pure tt
index_package (c ∷ chunks) = do
  guard (share_key c.key (c ∷ chunks)) IndexError.mixed_versions
  modify (λ index. remove_package c.key index ++ c ∷ chunks)

unfoldable pub get_chunk : String → List ChunkRecord → Option ChunkRecord
get_chunk chunk_id index = find (λ c. str_eq c.chunk_id chunk_id) index

-- a clause `column = ?`, added where the filter is given and not empty
abbrev pub meets : Option String → String → Bool
meets none value = true
meets (some wanted) value = if str_eq wanted "" then true else str_eq value wanted

unfoldable pub one_of : List String → String → Bool
one_of [] value = false
one_of (t ∷ ts) value = let rest = one_of ts value in str_eq t value || rest

-- the clause `confidentiality IN (...)`, added where the filter is given and not empty
abbrev pub meets_one_of : Option (List String) → String → Bool
meets_one_of none value = true
meets_one_of (some []) value = true
meets_one_of (some (t ∷ ts)) value = one_of (t ∷ ts) value

unfoldable pub passes_filters : SearchFilters → ChunkRecord → Bool
passes_filters filters c =
    meets filters.package_id c.key.package_id
    && meets filters.profile c.profile
    && meets filters.chunk_type c.chunk_type
    && meets_one_of filters.confidentiality_in c.confidentiality

-- `matches` is `chunks MATCH ?` on the sanitized query, `by_bm25` is ORDER BY bm25(chunks)
unfoldable pub search :
    (String → ChunkRecord → Bool)
    → (String → List ChunkRecord → List ChunkRecord)
    → Option String
    → SearchFilters
    → ℕ
    → List ChunkRecord
    → List ChunkRecord
search matches by_bm25 none filters limit index = take limit (select (passes_filters filters) index)
search matches by_bm25 (some query) filters limit index =
    if str_eq query ""
    then take limit (select (passes_filters filters) index)
    else take limit
        (by_bm25 query (select (λ c. matches query c && passes_filters filters c) index))

-- `confidentiality_filter_for`; `sorted` puts "internal" first
unfoldable pub confidentiality_filter_for : Identity → List String
confidentiality_filter_for actor =
    if has_role actor Role.analyst
      || has_role actor Role.reviewer
      || has_role actor Role.standard_approver
    then "internal" ∷ "internal_restricted" ∷ []
    else "internal" ∷ []

unfoldable pub chunk_in_scope : Identity → ChunkRecord → Bool
chunk_in_scope actor c = one_of (confidentiality_filter_for actor) c.confidentiality

-- the filters of the bot's `search_packages`, src/ap_manager_bot/tool_backend.py
unfoldable pub bot_filters : Identity → Option String → Option String → SearchFilters
bot_filters actor package_id chunk_type = record {
  package_id = package_id;
  profile = none;
  chunk_type = chunk_type;
  confidentiality_in = some (confidentiality_filter_for actor);
}

-- `search_packages` of the bot: the search, and the re-check of each chunk
unfoldable pub search_packages :
    (String → ChunkRecord → Bool)
    → (String → List ChunkRecord → List ChunkRecord)
    → Identity
    → Option String
    → Option String
    → Option String
    → ℕ
    → List ChunkRecord
    → List ChunkRecord
search_packages matches by_bm25 actor query package_id chunk_type limit index =
    select (chunk_in_scope actor)
      (search matches by_bm25 query (bot_filters actor package_id chunk_type) limit index)
