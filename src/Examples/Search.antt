-- ===== src/Examples/Search.antt =====
-- Runs of the search index and of the gate at concrete inputs.
use analysis_package.Base.{
  String, ◌≡◌, refl, Bool, true, false, none, some, List, [], ◌∷◌, str_eq, if◌then◌else◌,
}
use analysis_package.Base.Exec.{ok}
use analysis_package.Base.Table.{All}
use analysis_package.Identity.{Identity, no_roles}
use analysis_package.Store.Records.{Overall, approved, in_review, Key}
use analysis_package.Store.Methods.{PackageDir}
use analysis_package.Review.{default_policy}
use analysis_package.Changes.Statuses.{status_at}
use analysis_package.Requests.{Env, Action, Request, empty_store}
use analysis_package.Index.{ChunkRecord, search, search_packages, bot_filters, chunk_in_scope}
use analysis_package.Index.Scope.{search_packages_in_scope}
use analysis_package.Corpus.{Redaction, System, visits}
use analysis_package.Corpus.Visits.{indexed_is_approved}
use analysis_package.Gate.{
  CheckOutcome, Waiver, outcome, Outcome, any_of, overall, run_checks, run_all,
}
use analysis_package.Gate.Verdict.{blocks_unwaived, verdict_of_simple_checks}

abbrev alice : Identity
alice = record { id = "alice"; roles = record no_roles { analyst = true } }

abbrev rita : Identity
rita = record { id = "rita"; roles = record no_roles { reviewer = true } }

abbrev cara : Identity
cara = record { id = "cara"; roles = record no_roles { company_reader = true } }

abbrev key : Key
key = record { package_id = "p"; package_version = "1" }

abbrev env : Env
env = record {
  blob_sha256 = λ bytes. "sha";
  rerun_gate = λ bytes. Overall.pass;
  policy = default_policy;
  str_of = λ n. "30";
}

abbrev redaction : Redaction
redaction = record {
  loads = λ bytes. true;
  has_high_severity = λ bytes. false;
  as_of = λ bytes. "2026-01-01";
  profile = λ bytes. "supply";
  confidentiality = λ bytes. "internal_restricted";
  build_all_chunks = λ bytes.
      record { chunk_type = "truth"; row_id = "0"; field_path = "labels"; text = "x" } ∷ [];
}

abbrev dir : PackageDir
dir = record {
  manifest = record {
    package_id = some "p";
    package_version = some "1";
    profile = "supply";
    title = "First";
    as_of = "2026-01-01";
    owners_json = "{}";
    analyst_id = some "alice";
    reviewer_id = none;
  };
  blob = 7 ∷ [];
  gate = Overall.pass;
}

abbrev requests : List Request
requests =
    record { now = 1; actor = alice; action = Action.publish dir none }
    ∷ record { now = 2; actor = alice; action = Action.review key in_review none }
    ∷ record { now = 3; actor = rita; action = Action.review key approved none }
    ∷ []

abbrev visited : System
visited = visits env redaction requests (record { store = empty_store; index = [] })

indexed_is_approved_example : All (λ c. status_at visited.store c.key ≡ some approved) visited.index
indexed_is_approved_example = indexed_is_approved env redaction requests

abbrev chunk : String → ChunkRecord
chunk confidentiality = record {
  chunk_id = "c";
  key = key;
  as_of = "";
  profile = "supply";
  chunk_type = "truth";
  field_path = "";
  confidentiality = confidentiality;
  text = "";
}

abbrev chunks : List ChunkRecord
chunks = chunk "internal" ∷ chunk "internal_restricted" ∷ []

search_packages_in_scope_example :
    All
      (λ c. chunk_in_scope cara c ≡ true)
      (search (λ q c. true) (λ q l. l) (some "x") (bot_filters cara none none) 10 chunks)
    × (search_packages (λ q c. true) (λ q l. l) cara (some "x") none none 10 chunks
        ≡ search (λ q c. true) (λ q l. l) (some "x") (bot_filters cara none none) 10 chunks)
search_packages_in_scope_example =
    search_packages_in_scope (λ q c. true) (λ q l. l) (λ q p l h. h) cara (some "x") none none 10
      chunks

-- one check that fails, and one that passes
abbrev checks : List (String × (Bool → CheckOutcome))
checks =
    ("must_fields", λ c. outcome "must_fields" (if c then Outcome.pass else Outcome.fail) "")
    ∷ ("layout_dirs", λ c. outcome "layout_dirs" Outcome.pass "")
    ∷ []

abbrev simple : List CheckOutcome
simple = outcome "must_fields" Outcome.fail "" ∷ outcome "layout_dirs" Outcome.pass "" ∷ []

abbrev waivers : List Waiver
waivers = record { check_id = "must_fields"; reason = "agreed" } ∷ []

checks_run : run_checks checks false ≡ ok simple
unfolding run_checks str_eq
checks_run = refl

verdict_of_simple_checks_example :
    (outcomes : List CheckOutcome) × (run_all (λ s. "") checks false waivers (some "approved")
      ≡ ok outcomes)
    × (overall outcomes
        ≡ (if any_of (blocks_unwaived waivers) simple then Overall.fail else Overall.pass))
verdict_of_simple_checks_example =
    verdict_of_simple_checks (λ s. "") checks false waivers (some "approved") simple checks_run
