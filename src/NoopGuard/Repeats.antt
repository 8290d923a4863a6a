-- ===== src/NoopGuard/Repeats.antt =====
-- How the guard answers the same edit again and again.
use dsh_better_edit.Prelude.{
  ℕ, zero, suc, ◌≡◌, refl, ap, ◌∙◌, false, some, Str, str_eq, str_eq_refl, arith,
}
use dsh_better_edit.NoopGuard.{
  Tracker, next_count, track_noop_payload, clear_noop_loop, Outcome, proceed, warn, reject,
  run_noop_policy_sync, run_noop_policy,
}

-- The tracker after the same edit of a path was tried `n` times and changed nothing.
unfoldable pub repeated : ℕ → Tracker → Str → Str → Tracker
repeated zero t path payload = t
repeated (suc n) t path payload = (run_noop_policy (repeated n t path payload) path payload).tracker

tracked-entry :
    (t : Tracker) (path payload : Str)
    → (run_noop_policy t path payload).tracker path
      ≡ some (record { payload = payload; count = next_count (t path) payload })
unfolding run_noop_policy track_noop_payload
tracked-entry t path payload = rw (str_eq_refl path) refl

next_count_again :
    (payload : Str) (n : ℕ)
    → next_count (some (record { payload = payload; count = n })) payload ≡ suc n
next_count_again payload n = rw (str_eq_refl payload) (omega arith)

clear-next_count :
    (t : Tracker) (path payload : Str) → next_count (clear_noop_loop t path path) payload ≡ 1
unfolding clear_noop_loop
clear-next_count t path payload = rw (str_eq_refl path) refl

-- What the next attempt counts after `n` attempts from a cleared tracker.
repeated-next_count :
    (n : ℕ) (t : Tracker) (path payload : Str)
    → next_count (repeated n (clear_noop_loop t path) path payload path) payload ≡ suc n
unfolding repeated
repeated-next_count zero t path payload = clear-next_count t path payload
repeated-next_count (suc n) t path payload =
    let before : Tracker = repeated n (clear_noop_loop t path) path payload in
    ap (λ e. next_count e payload) (tracked-entry before path payload)
    ∙ next_count_again payload (next_count (before path) payload)
    ∙ ap suc (repeated-next_count n t path payload)

-- The answer to the attempt that follows `n` attempts.
abbrev pub answer : ℕ → Outcome
answer zero = proceed 1
answer (suc zero) = warn 2
answer (suc (suc n)) = reject (suc (suc (suc n)))

run_noop_policy_sync-answer : (n : ℕ) → run_noop_policy_sync (suc n) ≡ answer n
unfolding run_noop_policy_sync
run_noop_policy_sync-answer zero = ground arith
run_noop_policy_sync-answer (suc zero) = ground arith
run_noop_policy_sync-answer (suc (suc n)) = ground arith

-- From a cleared tracker, the first attempt of an edit that changes nothing goes on, the second one is
-- warned about, and each further one is refused with its count.
pub run_noop_policy-answer :
    (n : ℕ) (t : Tracker) (path payload : Str)
    → (run_noop_policy (repeated n (clear_noop_loop t path) path payload) path payload).outcome
      ≡ answer n
unfolding run_noop_policy track_noop_payload
run_noop_policy-answer n t path payload =
    ap run_noop_policy_sync (repeated-next_count n t path payload) ∙ run_noop_policy_sync-answer n

other-path :
    (t : Tracker) (path other payload : Str)
    → str_eq other path ≡ false
    → (run_noop_policy t path payload).tracker other ≡ t other
unfolding run_noop_policy track_noop_payload
other-path t path other payload h = rw h refl

-- Attempts on one path change nothing for another path, however many there are.
pub repeated-other :
    (n : ℕ) (t : Tracker) (path other payload : Str)
    → str_eq other path ≡ false
    → repeated n t path payload other ≡ t other
unfolding repeated
repeated-other zero t path other payload h = refl
repeated-other (suc n) t path other payload h =
    other-path (repeated n t path payload) path other payload h
    ∙ repeated-other n t path other payload h
