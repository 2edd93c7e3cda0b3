-- ===== src/Gate/Found.antt =====
-- What the loops of the gate's checks collect, and their messages: src/ap_gate/checks/. Python's print
-- of a value is a parameter; none is the TypeError or AttributeError of a manifest whose values have
-- the wrong types.
use Prim.Native.String.{◌++◌ as text_append}
use analysis_package.Base.{
  ℕ, suc, ◌+◌, String, Option, none, some, List, [], ◌∷◌, ◌++◌, if◌then◌else◌,
}
use analysis_package.Base.Json.{Json, text, Items, nil, cons, Fields, get_field, is_truthy}
use analysis_package.Base.Text.{contains}
use analysis_package.Base.Text.Number.{show_nat}
use analysis_package.Gate.{CheckOutcome, Outcome, outcome}

-- what a loop has found: `problems`, `paths` and `ok_count`
pub record Found : Type 0 where
  pub problems : List String
  pub paths : List String
  pub oks : ℕ

abbrev pub fine : Found
fine = record { problems = []; paths = []; oks = 0 }

abbrev pub one_ok : Found
one_ok = record { problems = []; paths = []; oks = 1 }

abbrev pub problem : String → Found
problem message = record { problems = message ∷ []; paths = []; oks = 0 }

abbrev pub problem_at : String → String → Found
problem_at message path = record { problems = message ∷ []; paths = path ∷ []; oks = 0 }

abbrev pub both : Found → Found → Found
both a b = record {
  problems = a.problems ++ b.problems;
  paths = a.paths ++ b.paths;
  oks = a.oks + b.oks;
}

unfoldable pub both_or_raise : Option Found → Option Found → Option Found
both_or_raise none rest = none
both_or_raise (some a) none = none
both_or_raise (some a) (some b) = some (both a b)

-- `for i, item in enumerate(items)`
unfoldable pub each : (ℕ → Json → Option Found) → ℕ → Items → Option Found
each check i nil = some fine
each check i (cons item items) = both_or_raise (check i item) (each check (suc i) items)

unfoldable pub joined : List String → String
joined [] = ""
joined (s ∷ parts) = text_append s (joined parts)

-- `"\n".join(f"  - {p}" for p in problems)`
unfoldable pub bullets : List String → String
bullets [] = ""
bullets (p ∷ []) = joined ("  - " ∷ p ∷ [])
bullets (p ∷ q ∷ problems) = joined ("  - " ∷ p ∷ "\n" ∷ bullets (q ∷ problems) ∷ [])

-- `if problems: return CheckOutcome.fail(...)`, and `CheckOutcome.ok(...)`
unfoldable pub verdict : String → String → String → String → Found → CheckOutcome
verdict check_id heading advice success found = elim found.problems [
  | [] ↦ outcome check_id Outcome.pass success
  | p ∷ problems ↦
      record (outcome check_id Outcome.fail
        (joined (heading ∷ bullets (p ∷ problems) ∷ advice ∷ []))) { paths = found.paths }
]

-- `f"{name}[{i}]"`
unfoldable pub indexed : String → ℕ → String
indexed name i = joined (name ∷ "[" ∷ show_nat i ∷ "]" ∷ [])

-- a declared path: a text without a null character, or else the error that `pkg / rel_path` raises
unfoldable pub with_path : Json → (String → Option Found) → Option Found
with_path (text rel_path) f = if contains 0 rel_path then none else f rel_path
with_path _ f = none

module _ (print : Json → String) where
  -- `item.get("name") or f"…[{i}]"`
  unfoldable pub label : String → ℕ → Fields → String
  label list i item =
      if is_truthy (get_field "name" item) then print (get_field "name" item) else indexed list i
