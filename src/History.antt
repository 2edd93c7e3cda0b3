-- ===== src/History.antt =====
-- The audit table as a history: replaying it gives the live statuses (src/ap_store/store.py writes
-- each status change and its audit row in one transaction).
use mathlib.Core.Path.{subst}
use analysis_package.Base.{
  ℕ, String, ◌≡◌, refl, ap, ◌∙◌, sym, Bool, true, false, Option, none, some, List, [], ◌∷◌, ◌++◌,
  arith, if◌then◌else◌,
}
use analysis_package.Identity.{Identity}
use analysis_package.Store.Records.{
  Key, Status, purged, PackageRow, Overall, Bytes, Store, AuditRow, Audited, moved_to,
  legal_hold_set, legal_hold_cleared, key_is, key_is_iff,
}
use analysis_package.Store.Effects.{
  get_row, insert_package, write_status, write_link, write_hold, write_purge,
}
use analysis_package.Store.Reads.{get_row_key}
use analysis_package.Review.{ReviewPolicy}
use analysis_package.Changes.{
  Change, same, published, moved, linked, held, configured, destroyed, Changes, done, next,
}
use analysis_package.Changes.Statuses.{
  status_at, status_at-write_status, status_at-write_link, status_at-write_hold,
  status_at-write_purge, status_at-insert_package, status_at-configured,
}

-- the status after one more audit row
unfoldable pub note : Key → Option Status → AuditRow → Option Status
note j before a =
    if key_is a.key j then elim a.to_status [ moved_to st ↦ some st | _ ↦ before ] else before

-- the status of a key by the audit table alone
unfoldable pub replay : Key → Option Status → List AuditRow → Option Status
unfolding note
replay j before [] = before
replay j before (a ∷ log) = replay j (note j before a) log

-- An audit row that records a move names, as `from_status`, the status before it.
abbrev Continues : Key → Option Status → AuditRow → Audited → Type 0
Continues j before a (moved_to st) = (if key_is a.key j then a.from_status else before) ≡ before
Continues j before a _ = Unit

-- every row of the table does
unfoldable pub Chained : Key → Option Status → List AuditRow → Type 0
unfolding note
Chained j before [] = Unit
Chained j before (a ∷ log) = Continues j before a a.to_status × Chained j (note j before a) log

replay-append :
    (j : Key) (before : Option Status) (log : List AuditRow) (a : AuditRow)
    → replay j before (log ++ a ∷ []) ≡ note j (replay j before log) a
unfolding replay
replay-append j before [] a = refl
replay-append j before (b ∷ log) a = replay-append j (note j before b) log a

Chained-append :
    (j : Key) (before : Option Status) (log : List AuditRow) (a : AuditRow)
    → Chained j before log
    → Continues j (replay j before log) a a.to_status
    → Chained j before (log ++ a ∷ [])
unfolding Chained replay
Chained-append j before [] a h c = (c, tt)
Chained-append j before (b ∷ log) a h c = (h.0, Chained-append j (note j before b) log a h.1 c)

-- the audit table tells the status of every key, and each of its moves starts where the last ended
pub record IsTold (s : Store) : Type 0 where
  pub statuses : (j : Key) → status_at s j ≡ replay j none s.package_audit
  pub chained : (j : Key) → Chained j none s.package_audit

-- One effect that appends one audit row.
IsTold-append :
    (s t : Store) (a : AuditRow)
    → t.package_audit ≡ s.package_audit ++ a ∷ []
    → ((j : Key) → status_at t j ≡ note j (status_at s j) a)
    → ((j : Key) → Continues j (status_at s j) a a.to_status)
    → IsTold s
    → IsTold t
IsTold-append s t a log step starts told = record {
  statuses = λ j.
      step j
      ∙ ap (λ o. note j o a) (told.statuses j)
      ∙ sym (replay-append j none s.package_audit a)
      ∙ ap (replay j none) (sym log);
  chained = λ j. subst (Chained j none) (sym log) (
      Chained-append j none s.package_audit a (told.chained j)
        (subst (λ o. Continues j o a a.to_status) (told.statuses j) (starts j)));
}

-- the audit row of each effect
abbrev entry : Key → Option Status → Audited → Identity → Option String → ℕ → AuditRow
entry k from to actor reason now = record {
  key = k;
  from_status = from;
  to_status = to;
  actor_id = actor.id;
  actor_roles = actor.roles;
  reason = reason;
  ts = now;
}

status_at_found :
    (s : Store) (k j : Key) (r : PackageRow)
    → get_row s k ≡ some r
    → (if key_is k j then some r.status else status_at s j) ≡ status_at s j
unfolding status_at
status_at_found s k j r h = ground (arith, key_is_iff k j)

status_at_fresh :
    (s : Store) (k j : Key)
    → get_row s k ≡ none
    → (if key_is k j then none else status_at s j) ≡ status_at s j
unfolding status_at
status_at_fresh s k j h = ground (arith, key_is_iff k j)

same_if : (b : Bool) (o : Option Status) → (if b then o else o) ≡ o
same_if true o = refl
same_if false o = refl

module _ (rerun_gate : Bytes → Overall) (policy : ReviewPolicy) where
  -- Every change appends the audit rows that tell it.
  Change-IsTold : {k : Key} {s t : Store} → Change rerun_gate policy k s t → IsTold s → IsTold t
  unfolding note insert_package write_status write_link write_hold write_purge
  Change-IsTold {k} {s} (same e) told = subst IsTold (sym e) told
  Change-IsTold {k} {s} {t} (published row b actor now own fresh st live free sha e) told =
      IsTold-append s t (entry row.key none (moved_to row.status) actor (some "published") now)
        (ap (λ u. u.package_audit) e)
        (λ j. ap (λ u. status_at u j) e ∙ status_at-insert_package s j row actor now b fresh)
        (λ j. status_at_fresh s row.key j fresh) told
  Change-IsTold {k} {s} {t} (moved r to actor reason now h okay e) told =
      IsTold-append s t (entry k (some r.status) (moved_to to) actor reason now)
        (ap (λ u. u.package_audit) e)
        (λ j. ap (λ u. status_at u j) e ∙ status_at-write_status s j k r to actor reason now h)
        (λ j. status_at_found s k j r h) told
  Change-IsTold {k} {s} {t} (linked l replaced r actor now h e) told =
      IsTold-append s t _ (ap (λ u. u.package_audit) e)
        (λ j.
          ap (λ u. status_at u j) e
          ∙ status_at-write_link s j l replaced actor now
          ∙ sym (same_if (key_is l j) (status_at s j)))
        (λ j. tt) told
  Change-IsTold {k} {s} {t} (held r true reason actor now h who e) told =
      IsTold-append s t (entry k none legal_hold_set actor reason now) (ap (λ u. u.package_audit) e)
        (λ j.
          ap (λ u. status_at u j) e
          ∙ status_at-write_hold s j k true reason actor now
          ∙ sym (same_if (key_is k j) (status_at s j)))
        (λ j. tt) told
  Change-IsTold {k} {s} {t} (held r false reason actor now h who e) told =
      IsTold-append s t (entry k none legal_hold_cleared actor reason now)
        (ap (λ u. u.package_audit) e)
        (λ j.
          ap (λ u. status_at u j) e
          ∙ status_at-write_hold s j k false reason actor now
          ∙ sym (same_if (key_is k j) (status_at s j)))
        (λ j. tt) told
  Change-IsTold {k} {s} {t} (configured settings settings_audit e) told = record {
    statuses = λ j.
        ap (λ u. status_at u j) e
        ∙ status_at-configured s j settings settings_audit
        ∙ told.statuses j
        ∙ ap (λ u. replay j none u.package_audit) (sym e);
    chained = λ j. subst (λ u. Chained j none u.package_audit) (sym e) (told.chained j);
  }
  Change-IsTold {k} {s} {t} (destroyed r actor reason now h who live st free e) told =
      let own : r.key ≡ k = get_row_key s k r h in
      IsTold-append s t (entry r.key (some r.status) (moved_to purged) actor reason now)
        (ap (λ u. u.package_audit) e)
        (λ j.
          ap (λ u. status_at u j) e
          ∙ status_at-write_purge s j k r actor reason now h
          ∙ ap (λ x. if key_is x j then some purged else status_at s j) (sym own))
        (λ j. status_at_found s r.key j r (ap (get_row s) own ∙ h)) told

  -- After any changes from a store that is told, replaying the audit table gives every live status,
  -- and each recorded move starts from the status where the one before it ended.
  pub Changes-IsTold : {s t : Store} → Changes rerun_gate policy s t → IsTold s → IsTold t
  Changes-IsTold done told = told
  Changes-IsTold (next cs c) told = Change-IsTold c (Changes-IsTold cs told)
