-- ===== src/Store/Reads.antt =====
-- What a read by key sees after each effect.
use mathlib.Core.Option
use analysis_package.Base.{
  ℕ, String, ◌≡◌, refl, ap, sym, ◌∙◌, Bool, true, false, Option, none, some, arith, if◌then◌else◌,
}
use analysis_package.Base.Table.{or_else}
use analysis_package.Base.Table.Laws.{find-update, find-append, find_holds}
use analysis_package.Identity.{Identity}
use analysis_package.Store.Records.{Key, Status, PackageRow, Store, key_is, key_is_iff}
use analysis_package.Store.Effects.{
  at_key, at_key_in, get_row, insert_package, write_status, write_link, write_hold, write_purge,
  tombstone,
}

-- The row that a read finds has the key that was asked for.
pub get_row_key : (s : Store) (k : Key) (r : PackageRow) → get_row s k ≡ some r → r.key ≡ k
unfolding get_row
get_row_key s k r h = (key_is_iff r.key k).0 (find_holds (at_key k) s.packages r h)

-- A key has one row to read: two reads whose rows share a key give the same row.
pub same_row :
    (s : Store) (k j : Key) (r x : PackageRow)
    → get_row s k ≡ some r
    → get_row s j ≡ some x
    → key_is x.key k ≡ true
    → x ≡ r
same_row s k j r x hr hx e =
    let own : j ≡ k = sym (get_row_key s j x hx) ∙ (key_is_iff x.key k).0 e in
    Option.some-injective _ _ (sym hx ∙ ap (get_row s) own ∙ hr)

pub get_row-insert_package :
    (row : PackageRow) (actor : Identity) (now : ℕ) (s : Store) (k : Key)
    → get_row (insert_package row actor now s) k
      ≡ or_else (get_row s k) (if key_is row.key k then some row else none)
unfolding get_row insert_package
get_row-insert_package row actor now s k = find-append (at_key k) s.packages row

-- A write to the rows of one key, seen through a read of any key.
abbrev written : (PackageRow → Bool) → (PackageRow → PackageRow) → PackageRow → PackageRow
written p f r = if p r then f r else r

pub get_row-write_status :
    (k : Key) (from to : Status) (actor : Identity) (reason : Option String) (now : ℕ) (s : Store)
    (j : Key)
    → get_row (write_status k from to actor reason now s) j
      ≡ Option.map (written (at_key_in k from) (λ r. record r { status = to })) (get_row s j)
unfolding get_row write_status
get_row-write_status k from to actor reason now s j =
    find-update (at_key j) (at_key_in k from) (λ r. record r { status = to }) s.packages (λ a. refl)

-- A status written to one key does not touch the row of another.
pub get_row-write_status_ne :
    (k : Key) (from to : Status) (actor : Identity) (reason : Option String) (now : ℕ) (s : Store)
    (j : Key) (r : PackageRow)
    → key_is j k ≡ false
    → get_row s j ≡ some r
    → get_row (write_status k from to actor reason now s) j ≡ some r
get_row-write_status_ne k from to actor reason now s j r ne h =
    ground (arith, get_row-write_status k from to actor reason now s j, h, get_row_key s j r h)

pub get_row-write_link :
    (k replaced : Key) (actor : Identity) (now : ℕ) (s : Store) (j : Key)
    → get_row (write_link k replaced actor now s) j
      ≡ Option.map (written (at_key k) (λ r. record r { replaces = some replaced })) (get_row s j)
unfolding get_row write_link
get_row-write_link k replaced actor now s j =
    find-update (at_key j) (at_key k) (λ r. record r { replaces = some replaced }) s.packages
      (λ a. refl)

pub get_row-write_hold :
    (k : Key) (hold : Bool) (reason : Option String) (actor : Identity) (now : ℕ) (s : Store)
    (j : Key)
    → get_row (write_hold k hold reason actor now s) j
      ≡ Option.map
          (written (at_key k) (λ r. record r {
            legal_hold = hold;
            legal_hold_reason = if hold then reason else none;
          }))
          (get_row s j)
unfolding get_row write_hold
get_row-write_hold k hold reason actor now s j =
    find-update (at_key j) (at_key k)
      (λ r. record r { legal_hold = hold; legal_hold_reason = if hold then reason else none })
      s.packages (λ a. refl)

pub get_row-write_purge :
    (row : PackageRow) (actor : Identity) (reason : Option String) (now : ℕ) (s : Store) (j : Key)
    → get_row (write_purge row actor reason now s) j
      ≡ Option.map (written (at_key row.key) (tombstone now)) (get_row s j)
unfolding get_row write_purge tombstone
get_row-write_purge row actor reason now s j =
    find-update (at_key j) (at_key row.key) (tombstone now) s.packages (λ a. refl)
