-- ===== src/Index/Scope.antt =====
-- What a search of the bot can return: the filter of src/ap_manager_bot/scoping.py and its re-check.
use analysis_package.Base.{
  ℕ, String, ◌≡◌, refl, Bool, true, ◌&&◌, Option, none, some, List, [], ◌∷◌, arith, str_eq,
  Bool-cases, inl, inr,
}
use Prim.Native.Nat.{zero, suc}
use analysis_package.Base.Table.{All, select, take}
use analysis_package.Base.Table.Laws.{All-map}
use analysis_package.Identity.{Identity}
use analysis_package.Index.{
  ChunkRecord, search, passes_filters, confidentiality_filter_for, chunk_in_scope, bot_filters,
  search_packages,
}

module _ {ℓ} {A : Type ℓ} where
  All-select : (p : A → Bool) (l : List A) → All (λ a. p a ≡ true) (select p l)
  unfolding select
  All-select p [] = tt
  All-select p (x ∷ xs) = elim (Bool-cases (p x)) [
    | inl t ↦ rw t (t, All-select p xs)
    | inr t ↦ rw t (All-select p xs)
  ]

module _ {ℓ κ} {A : Type ℓ} (P : A → Type κ) where
  All-take : (n : ℕ) (l : List A) → All P l → All P (take n l)
  unfolding take
  All-take zero l h = tt
  All-take (suc n) [] h = tt
  All-take (suc n) (x ∷ xs) h = (h.0, All-take n xs h.1)

passing_in_scope :
    (actor : Identity) (package_id chunk_type : Option String) (c : ChunkRecord)
    → passes_filters (bot_filters actor package_id chunk_type) c ≡ true
    → chunk_in_scope actor c ≡ true
unfolding passes_filters bot_filters chunk_in_scope confidentiality_filter_for
passing_in_scope actor package_id chunk_type c h = ground arith

select-All : {A : Type 0} (p : A → Bool) (l : List A) → All (λ a. p a ≡ true) l → select p l ≡ l
unfolding select
select-All p [] h = refl
select-All p (x ∷ xs) h = rw (h.0, select-All p xs h.1) refl

module _ (matches : String → ChunkRecord → Bool)
    (by_bm25 : String → List ChunkRecord → List ChunkRecord)
    (law : (query : String) (p : ChunkRecord → Bool) (l : List ChunkRecord)
      → All (λ c. p c ≡ true) l
      → All (λ c. p c ≡ true) (by_bm25 query l))
    (actor : Identity) (package_id chunk_type : Option String) (limit : ℕ)
    (index : List ChunkRecord) where
  filtered :
      All
        (λ c. chunk_in_scope actor c ≡ true)
        (take limit (select (passes_filters (bot_filters actor package_id chunk_type)) index))
  filtered =
      let filters = bot_filters actor package_id chunk_type in
      All-take (λ c. chunk_in_scope actor c ≡ true) limit (select (passes_filters filters) index)
        (All-map (λ c. passes_filters filters c ≡ true) (λ c. chunk_in_scope actor c ≡ true)
          (select (passes_filters filters) index) (passing_in_scope actor package_id chunk_type)
          (All-select (passes_filters filters) index))

  matched :
      (query : String)
      → All
          (λ c. chunk_in_scope actor c ≡ true)
          (take limit (
            by_bm25 query (
              select
                (λ c. matches query c && passes_filters (bot_filters actor package_id chunk_type) c)
                index)))
  matched query =
      let filters = bot_filters actor package_id chunk_type in
      let p : ChunkRecord → Bool = (λ c. matches query c && passes_filters filters c) in
      All-take (λ c. chunk_in_scope actor c ≡ true) limit (by_bm25 query (select p index))
        (law query (chunk_in_scope actor) (select p index) (
          All-map (λ c. p c ≡ true) (λ c. chunk_in_scope actor c ≡ true) (select p index)
            (λ c h. passing_in_scope actor package_id chunk_type c (ground arith))
            (All-select p index)))

  found_in_scope :
      (query : Option String)
      → All
          (λ c. chunk_in_scope actor c ≡ true)
          (search matches by_bm25 query (bot_filters actor package_id chunk_type) limit index)
  unfolding search
  found_in_scope none = filtered
  found_in_scope (some query) = elim (Bool-cases (str_eq query "")) [
    | inl empty ↦ rw empty filtered
    | inr given ↦ rw given (matched query)
  ]

-- The bot's search returns only chunks in its caller's scope, and its re-check after the search
-- drops none of them; the order by relevance is any that keeps what holds of every chunk.
pub search_packages_in_scope :
    (matches : String → ChunkRecord → Bool) (by_bm25 : String → List ChunkRecord → List ChunkRecord)
    → ((query : String) (p : ChunkRecord → Bool) (l : List ChunkRecord)
        → All (λ c. p c ≡ true) l
        → All (λ c. p c ≡ true) (by_bm25 query l))
    → (actor : Identity) (query package_id chunk_type : Option String) (limit : ℕ)
      (index : List ChunkRecord)
    → All
        (λ c. chunk_in_scope actor c ≡ true)
        (search matches by_bm25 query (bot_filters actor package_id chunk_type) limit index)
      × (search_packages matches by_bm25 actor query package_id chunk_type limit index
          ≡ search matches by_bm25 query (bot_filters actor package_id chunk_type) limit index)
unfolding search_packages
search_packages_in_scope matches by_bm25 law actor query package_id chunk_type limit index =
    let h = found_in_scope matches by_bm25 law actor package_id chunk_type limit index query in
    (h, select-All (chunk_in_scope actor) _ h)
