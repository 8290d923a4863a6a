-- ===== src/Tests/Repeats.antt =====
-- The noop guard on a path.
use dsh_better_edit.Prelude.{◌≡◌, none, units}
use dsh_better_edit.NoopGuard.{Tracker, clear_noop_loop, run_noop_policy}
use dsh_better_edit.NoopGuard.Repeats.{repeated, answer, run_noop_policy-answer}

abbrev empty : Tracker
empty = λ path. none

run_noop_policy-answer_example :
    (run_noop_policy
      (repeated 2 (clear_noop_loop empty (units "a")) (units "a") (units "x"))
      (units "a")
      (units "x")).outcome
    ≡ answer 2
run_noop_policy-answer_example = run_noop_policy-answer 2 empty (units "a") (units "x")
