-- ===== src/Gate.antt =====
-- The gate's runner: src/ap_gate/checks/registry.py, src/ap_gate/checks/types.py,
-- src/ap_gate/checks/qa.py and the verdict of src/ap_gate/report/model.py. A check is a function of
-- the package and its manifest; the texts of the messages are kept where a waiver changes them.
pub mod Verdict
pub mod Paths
pub mod Found
pub mod Pinned
pub mod Declared
pub mod Layout
pub mod Confined
pub mod Clean
pub mod PinnedInputs
pub mod Labels
pub mod KnownCodes
use analysis_package.Base.{
  String, Bool, true, false, not, ◌&&◌, ◌||◌, Option, none, some, List, [], ◌∷◌, ◌++◌, str_eq,
  opt_eq, is_some, if◌then◌else◌,
}
use Prim.Native.String.{◌++◌ as text_append}
use analysis_package.Base.Exec.{Result, ok, err}
use analysis_package.Store.Records.{Overall}

pub data Outcome : Type 0 where
  pass fail skip : Outcome

pub data Severity : Type 0 where
  required advisory : Severity

pub record CheckOutcome : Type 0 where
  pub check_id : String
  pub result : Outcome
  pub severity : Severity
  pub waived : Bool
  pub message : String
  pub paths : List String

-- an entry of `qa.waivers[]` that is a dict; no `check_id` reads as ""
pub record Waiver : Type 0 where
  pub check_id : String
  pub reason : String

abbrev pub is_fail : Outcome → Bool
is_fail fail = true
is_fail _ = false

abbrev pub is_required : Severity → Bool
is_required required = true
is_required advisory = false

unfoldable pub blocks_overall_pass : CheckOutcome → Bool
blocks_overall_pass o = is_fail o.result && is_required o.severity && not o.waived

-- `waivers[check_id]`: a later entry of the list replaces an earlier one
unfoldable pub waiver_for : String → List Waiver → Option Waiver
waiver_for check_id [] = none
waiver_for check_id (w ∷ ws) = elim (waiver_for check_id ws) [
  | some later ↦ some later
  | none ↦ if not (str_eq w.check_id "") && str_eq w.check_id check_id then some w else none
]

abbrev pub waived_message : String → String → String
waived_message message reason =
    if str_eq reason ""
    then message
    else if str_eq message ""
    then text_append "waived: " reason
    else text_append message (text_append "\n  (waived: " (text_append reason ")"))

-- the body of the loop of `_apply_waivers`
unfoldable pub apply_waiver : List Waiver → CheckOutcome → CheckOutcome
apply_waiver ws o = elim (waiver_for o.check_id ws) [
  | none ↦ o
  | some w ↦
      if is_fail o.result
      then record o { waived = true; result = pass; message = waived_message o.message w.reason }
      else o
]

unfoldable pub apply_waivers : List Waiver → List CheckOutcome → List CheckOutcome
apply_waivers ws [] = []
apply_waivers ws (o ∷ outcomes) = apply_waiver ws o ∷ apply_waivers ws outcomes

unfoldable pub any_of : (CheckOutcome → Bool) → List CheckOutcome → Bool
any_of p [] = false
any_of p (o ∷ outcomes) = let rest = any_of p outcomes in p o || rest

-- the verdict of `build_report`
unfoldable pub overall : List CheckOutcome → Overall
overall outcomes = if any_of blocks_overall_pass outcomes then Overall.fail else Overall.pass

-- `CheckOutcome.ok`, `.fail` and `.skip`
abbrev pub outcome : String → Outcome → String → CheckOutcome
outcome check_id result message = record {
  check_id = check_id;
  result = result;
  severity = required;
  waived = false;
  message = message;
  paths = [];
}

abbrev pub no_unlabeled_diff : String
no_unlabeled_diff = "no_unlabeled_diff"

abbrev pub qa_approved_implies_pass : String
qa_approved_implies_pass = "qa_approved_implies_pass"

-- `check_no_unlabeled_diff`
unfoldable pub check_no_unlabeled_diff : CheckOutcome
check_no_unlabeled_diff = outcome no_unlabeled_diff skip (
    text_append
      "engine replay not implemented in phase 1 (stubbed) - no_unlabeled_diff always skips "
      "until real deterministic engines exist to replay against.")

-- `o.check_id != "no_unlabeled_diff" and o.blocks_overall_pass()`
unfoldable pub blocks_approval : CheckOutcome → Bool
blocks_approval o = not (str_eq o.check_id no_unlabeled_diff) && blocks_overall_pass o

-- the ids of the blocking outcomes, joined by ", "
unfoldable pub blocking_ids : List CheckOutcome → String
blocking_ids [] = ""
blocking_ids (o ∷ outcomes) =
    let rest = blocking_ids outcomes in
    if blocks_approval o
    then if str_eq rest "" then o.check_id else text_append o.check_id (text_append ", " rest)
    else rest

-- `check_qa_approved_implies_pass`, on the manifest's `qa.status`. `repr` is Python's.
unfoldable pub check_qa_approved :
    (Option String → String) → Option String → List CheckOutcome → CheckOutcome
check_qa_approved repr status prior =
    if not (opt_eq status (some "approved"))
    then outcome qa_approved_implies_pass skip (
        text_append "qa.status is " (text_append (repr status) ", not 'approved' - not applicable"))
    else if any_of blocks_approval prior
    then outcome qa_approved_implies_pass fail (
        text_append "qa.status is 'approved' but these required checks failed: " (
          text_append (blocking_ids prior) (
            text_append
              " - fix them, waive them with a reason in qa.waivers, or set qa.status back "
              "to 'in_review' until they pass.")))
    else outcome qa_approved_implies_pass pass
        "all required checks pass or are waived - approved status is consistent"

module _ {Context : Type 0} where
  -- the first loop of `run_all`; an `AssertionError` names the check
  unfoldable pub run_checks :
      List (String × (Context → CheckOutcome)) → Context → Result String (List CheckOutcome)
  run_checks [] context = ok []
  run_checks ((check_id, check) ∷ checks) context =
      let rest = run_checks checks context in
      if str_eq (check context).check_id check_id
      then elim rest [ ok outcomes ↦ ok (check context ∷ outcomes) | err e ↦ err e ]
      else err check_id

  -- `run_all`, on the manifest's `qa.waivers[]` and `qa.status`
  unfoldable pub run_all :
      (Option String → String)
      → List (String × (Context → CheckOutcome))
      → Context
      → List Waiver
      → Option String
      → Result String (List CheckOutcome)
  run_all repr checks context waivers qa_status = elim (run_checks checks context) [
    | err e ↦ err e
    | ok outcomes ↦
        let first = apply_waivers waivers outcomes in
        ok (apply_waivers waivers (first ++ check_qa_approved repr qa_status first ∷ []))
  ]
