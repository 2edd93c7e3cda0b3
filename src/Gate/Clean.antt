-- ===== src/Gate/Clean.antt =====
-- A loop of a check that found no problem found none in any of its rounds: src/ap_gate/checks/.
use mathlib.Core.Option
use analysis_package.Base.{
  String, ◌≡◌, refl, ap, ◌∙◌, Option, none, some, List, [], ◌∷◌, ◌++◌, arith,
}
use analysis_package.Gate.{CheckOutcome, Outcome}
use analysis_package.Gate.Found.{Found, both, both_or_raise, verdict}

left_empty : (xs ys : List String) → xs ++ ys ≡ [] → xs ≡ []
left_empty [] ys h = refl
left_empty (x ∷ xs) ys h = absurd (ground arith)

right_empty : (xs ys : List String) → xs ++ ys ≡ [] → ys ≡ []
right_empty [] ys h = h
right_empty (x ∷ xs) ys h = absurd (ground arith)

-- two findings with no problem between them
pub both_clean :
    (first rest : Option Found) (f : Found)
    → both_or_raise first rest ≡ some f
    → f.problems ≡ []
    → (a b : Found) × (first ≡ some a) × (rest ≡ some b) × (a.problems ≡ []) × (b.problems ≡ [])
unfolding both_or_raise
both_clean none rest f h clean = absurd (ground arith)
both_clean (some a) none f h clean = absurd (ground arith)
both_clean (some a) (some b) f h clean =
    let empty : a.problems ++ b.problems ≡ [] =
      ap (λ (x : Found). x.problems) (Option.some-injective (both a b) f h) ∙ clean in
    (
      a,
      b,
      refl,
      refl,
      left_empty a.problems b.problems empty,
      right_empty a.problems b.problems empty,
    )

-- a verdict that passes found no problem
pub clean_of_pass :
    (check_id heading advice success : String) (f : Found)
    → (verdict check_id heading advice success f).result ≡ Outcome.pass
    → f.problems ≡ []
unfolding verdict
clean_of_pass check_id heading advice success f h = by_problems f.problems refl
  where
    by_problems : (problems : List String) → f.problems ≡ problems → f.problems ≡ []
    by_problems [] e = e
    by_problems (p ∷ problems) e = absurd (ground (arith, e, h))

-- what a mapped verdict on the outcome of a loop says
pub clean_of_map :
    (judge : Found → CheckOutcome) (r : Option Found) (o : CheckOutcome)
    → ((f : Found) → (judge f).result ≡ Outcome.pass → f.problems ≡ [])
    → Option.map judge r ≡ some o
    → o.result ≡ Outcome.pass
    → (f : Found) × (r ≡ some f) × (f.problems ≡ [])
clean_of_map judge none o clean h passed = absurd (ground arith)
clean_of_map judge (some f) o clean h passed = (
  f,
  refl,
  clean f (ap (λ (c : CheckOutcome). c.result) (Option.some-injective (judge f) o h) ∙ passed),
)
