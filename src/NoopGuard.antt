-- ===== src/NoopGuard.antt =====
-- src/noop-guard.ts: the count of equal edits that changed nothing, and what is done about them. The
-- tracker, a map from paths, is a function; a notice and a message are left out.
pub mod Repeats
use dsh_better_edit.Prelude.{
  ℕ, zero, suc, ◌+◌, Bool, true, false, Option, none, some, Str, ◌==◌, leb, if◌then◌else◌, str_eq,
}

pub record NoopLoopEntry : Type 0 where
  pub payload : Str
  pub count : ℕ

-- `noopLoopTracker`.
abbrev pub Tracker : Type 0
Tracker = Str → Option NoopLoopEntry

abbrev pub noop_loop_threshold : ℕ
noop_loop_threshold = 3

abbrev pub next_count : Option NoopLoopEntry → Str → ℕ
next_count none payload = 1
next_count (some e) payload = if str_eq e.payload payload then e.count + 1 else 1

pub record Tracked : Type 0 where
  pub tracker : Tracker
  pub count : ℕ

unfoldable pub track_noop_payload : Tracker → Str → Str → Tracked
track_noop_payload t path payload = record {
  tracker = λ p.
      if str_eq p path
      then some (record { payload = payload; count = next_count (t path) payload })
      else t p;
  count = next_count (t path) payload;
}

unfoldable pub clear_noop_loop : Tracker → Str → Tracker
clear_noop_loop t path = λ p. if str_eq p path then none else t p

-- `NoopPolicyOutcome`.
pub data Outcome : Type 0 where
  proceed warn reject : ℕ → Outcome

unfoldable pub run_noop_policy_sync : ℕ → Outcome
run_noop_policy_sync count =
    if leb noop_loop_threshold count
    then reject count
    else if count == 2
    then warn count
    else proceed count

pub record Ran : Type 0 where
  pub tracker : Tracker
  pub outcome : Outcome

-- `runNoopPolicy`, with the payload's key.
unfoldable pub run_noop_policy : Tracker → Str → Str → Ran
run_noop_policy t path payload =
    let tracked = track_noop_payload t path payload in
    record { tracker = tracked.tracker; outcome = run_noop_policy_sync tracked.count }
