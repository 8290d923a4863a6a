-- ===== src/Lib.antt =====
-- dsh-better-edit: an edit tool that addresses the lines of a file by short anchors, three letters or
-- digits that are allocated when a file is read. An edit names the first and the last anchor of a span
-- and the lines to put there; it is applied only when the span is still what the reader was served.
--
-- Parts and their modules:
--   * Text (src/utils.ts, src/edit-diff.ts): splitting a text into lines and the line endings, as
--     `split_lines`, `to_lf`, `restore_endings` and `detect_ending` for `splitLines`, `toLF`,
--     `restoreEndings` and `detectEnding`.
--   * HashAssign (src/hashline/hash-assign.ts): the anchors. `line_hashes_pure` models `lineHashesPure`,
--     HashAssign.Stable has `map_stable_hashes` for `mapStableHashes`, which carries anchors over from an
--     old content to a new one. The bitset of used anchors is a function from words to numbers, the hint
--     is passed along with it in a `Pool`, and a thrown exhaustion is the value `exhausted`.
--   * AnchorPipeline (src/hashline/anchor-pipeline.ts): `apply_edit` for `applyEdit`, by its steps. Refs
--     reads the payload, Prefixes judges copied display prefixes, Resolve finds the lines of the anchors,
--     Leases and Verify check the span against what was served, Span computes the new text, and Apply
--     composes them. An error that the code throws is a `Rejection` in a `Result`, without its English text.
--   * ServedGuard (src/hashline/served-guard.ts): the two kinds of warning on lines that look like anchors.
--   * SessionView (src/session-view.ts): the merge of served rows into the mirror of a session, and the
--     books on retired anchors.
--   * NoopGuard (src/noop-guard.ts): the count of equal edits that changed nothing.
--   * Engine (src/mutation/engine.ts): the bookkeeping of a batch of edits on one file, as
--     `splice_working_buffer_ids` for `spliceWorkingBufferIds`; the sequencer itself is not modelled.
--   * Mutation (src/mutation.ts, src/undo-edit.ts and the undo pair of src/hash-store.ts): the transaction
--     `persistUndoAndWrite`, with `saveUndo` and its restore, over an explicit store of files and rows,
--     whose stamps are the clock's at the call that writes them.
--   * Pairing (src/snapshot-store/pairing.ts): which line of an old snapshot each new line continues.
--   * Diff (src/edit-diff.ts): `gen_diff` for `genDiff`, the diff of an edit with its anchors.
--   * FileView (src/file-view.ts): `truncate_head` for `truncateHead`, with the platform's count of bytes as
--     an argument, and in FileView.Preview the page of a read, `build_normal_preview`.
--   * Drift (src/session-view.ts): `compute_drift` for `computeDrift`, the served lines that changed
--     outside an edit.
--   * SelfHeal (src/self-heal.ts): the watcher that restores displaced tools, as a state machine.
--   * Prelude: names of the standard library, tests on numbers, lists over native numbers, and strings
--     as lists of UTF-16 code units. Tests: runs at concrete inputs.
--
-- The pipeline takes the anchors that HashAssign allocated, the mirror of served anchors (a list of
-- slots, each an anchor or nothing) and, where a session has leases, their source, a record of three
-- functions. `xxh32`, from a package, is a parameter of every definition that hashes, and nothing is
-- assumed of it. JavaScript numbers are natural numbers: positions, lengths and code units, whose words
-- of 32 bits are computed as such in the bitset. A subtraction that the code keeps above 0 by a guard
-- stands under the same guard; the few that go below 0 are on integers. Whether a call of the file system
-- or of the database fails is asked of an oracle, and what a failed write leaves is a parameter.
--
-- Fuel: the probe for a free slot runs for as many rounds as the anchor space has slots, as the loop of
-- the code does; the binary search of `nearestNew` has one round more than candidates, and the second
-- loop of `changedRange` as many as lines.
-- The recursion of the pairing has two rounds more than old lines, its lower bound and the loops of its
-- index one more than their size, and the walk back through a table as many as both lengths.
-- These are enough for the results below.
--
-- Not modelled: the stores, which are SQL; the file system; the sequencer of a batch and what `execute` does
-- around the transaction; the lineage store; the surface of the tools, with its schemas
-- and its rendering; the English text of messages; caches of pure functions.
pub mod Prelude
pub mod Text
pub mod HashAssign
pub mod AnchorPipeline
pub mod ServedGuard
pub mod SessionView
pub mod NoopGuard
pub mod Mutation
pub mod Diff
pub mod FileView
pub mod Drift
pub mod Pairing
pub mod Engine
pub mod SelfHeal
pub mod Tests
