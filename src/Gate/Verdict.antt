-- ===== src/Gate/Verdict.antt =====
-- What decides the gate's verdict.
use analysis_package.Base.{
  String, ◌≡◌, refl, Bool, true, not, ◌&&◌, ◌||◌, Option, List, [], ◌∷◌, ◌++◌, arith, is_some,
  if◌then◌else◌,
}
use analysis_package.Base.Exec.{ok}
use analysis_package.Store.Records.{Overall}
use analysis_package.Gate.{
  CheckOutcome, Waiver, blocks_overall_pass, waiver_for, apply_waiver, apply_waivers, any_of,
  overall, blocks_approval, check_qa_approved, run_checks, run_all,
}

-- a failure that blocks and that no waiver names
unfoldable pub blocks_unwaived : List Waiver → CheckOutcome → Bool
blocks_unwaived ws o = blocks_overall_pass o && not (is_some (waiver_for o.check_id ws))

module _ (ws : List Waiver) where
  blocks-apply_waiver :
      (o : CheckOutcome) → blocks_overall_pass (apply_waiver ws o) ≡ blocks_unwaived ws o
  unfolding blocks_overall_pass apply_waiver blocks_unwaived
  blocks-apply_waiver o = ground arith

  -- Waivers that were applied once change nothing when applied again.
  blocks-apply_twice :
      (o : CheckOutcome)
      → blocks_overall_pass (apply_waiver ws (apply_waiver ws o)) ≡ blocks_unwaived ws o
  unfolding blocks_overall_pass apply_waiver blocks_unwaived
  blocks-apply_twice o = ground arith

  any-apply_waivers :
      (l : List CheckOutcome)
      → any_of blocks_overall_pass (apply_waivers ws l) ≡ any_of (blocks_unwaived ws) l
  unfolding any_of apply_waivers
  any-apply_waivers [] = refl
  any-apply_waivers (o ∷ l) = ground (arith, blocks-apply_waiver o, any-apply_waivers l)

  any-apply_twice :
      (l : List CheckOutcome) (m : CheckOutcome)
      → any_of blocks_overall_pass (apply_waivers ws (apply_waivers ws l ++ m ∷ []))
        ≡ (any_of (blocks_unwaived ws) l || blocks_unwaived ws m)
  unfolding any_of apply_waivers
  any-apply_twice [] m = ground (arith, blocks-apply_waiver m)
  any-apply_twice (o ∷ l) m = ground (arith, blocks-apply_twice o, any-apply_twice l m)

  approval_blocked :
      (l : List CheckOutcome)
      → any_of blocks_approval l ≡ true
      → any_of blocks_overall_pass l ≡ true
  unfolding any_of blocks_approval
  approval_blocked [] h = h
  approval_blocked (o ∷ l) h = ground (arith, approval_blocked l)

  -- The check on an approved status blocks only where another outcome does.
  qa_check_blocks :
      (repr : Option String → String) (status : Option String) (l : List CheckOutcome)
      → blocks_unwaived ws (check_qa_approved repr status l) ≡ true
      → any_of blocks_overall_pass l ≡ true
  unfolding check_qa_approved blocks_unwaived blocks_overall_pass
  qa_check_blocks repr status l h = ground (arith, approval_blocked l)

-- Whatever the manifest's status says, the verdict of a completed run is decided by the simple
-- checks alone: it fails just where one of them failed, is required, and is named by no waiver.
pub verdict_of_simple_checks :
    {Context : Type 0} (repr : Option String → String)
    (checks : List (String × (Context → CheckOutcome))) (context : Context) (waivers : List Waiver)
    (qa_status : Option String) (simple : List CheckOutcome)
    → run_checks checks context ≡ ok simple
    → (outcomes : List CheckOutcome) × (run_all repr checks context waivers qa_status ≡ ok outcomes)
      × (overall outcomes
          ≡ (if any_of (blocks_unwaived waivers) simple then Overall.fail else Overall.pass))
unfolding run_all overall
verdict_of_simple_checks repr checks context waivers qa_status simple h =
    let first = apply_waivers waivers simple in
    let last = check_qa_approved repr qa_status first in
    (
      apply_waivers waivers (first ++ last ∷ []),
      ground arith,
      ground (
        arith,
        any-apply_twice waivers simple last,
        any-apply_waivers waivers simple,
        qa_check_blocks waivers repr qa_status first,
      ),
    )
