-- ===== src/AnchorPipeline.antt =====
-- src/hashline/anchor-pipeline.ts: the chain from an edit payload to the new file content. This file has
-- the data that the steps share; messages are their structured payloads, without the English text.
pub mod Refs
pub mod Prefixes
pub mod Resolve
pub mod Leases
pub mod Verify
pub mod Span
pub mod Apply
use dsh_better_edit.Prelude.{
  ℕ, zero, suc, ◌+◌, ◌-◌, Bool, true, false, ◌&&◌, ◌||◌, Option, none, some, List, [], ◌∷◌, ◌++◌,
  Str, ◌==◌, if◌then◌else◌, get_or, length, str_eq, ◌≡◌, refl,
}

-- A served row: a 0-based position and the anchor there.
pub record ServedRow : Type 0 where
  pub position : ℕ
  pub hash : Str

-- `Anchor`.
pub record Anchor : Type 0 where
  pub hash : Str

-- `HEdit`, its two bounds as two fields.
pub record HEdit : Type 0 where
  pub content_lines : List Str
  pub from : Anchor
  pub to : Anchor

-- `RAnchor`; `hashMatched` is always true.
pub record RAnchor : Type 0 where
  pub line : ℕ
  pub hash : Str

pub record RhEdit : Type 0 where
  pub content_lines : List Str
  pub from : RAnchor
  pub to : RAnchor

-- Why an anchor is malformed.
pub data Reason : Type 0 where
  empty_ref leading_digits separator_tail not_alphanumeric : Reason
  block_ref : ℕ → Str → Str → Reason
  first_of_block : Str → ℕ → Reason
  plus_marker minus_marker hash_prefix : Reason
  stripped_prefix : List ℕ → ℕ → ℕ → Reason
  stripped_diff : List ℕ → Reason

-- `RangeCause`, and no cause.
pub data Cause : Type 0 where
  no_cause staleness never_served retirement anchor_staleness served_span : Cause

pub data UnservedKind : Type 0 where
  boundary interior : UnservedKind

-- What a bad payload's message is about.
pub data BadPayload : Type 0 where
  unknown_fields : List Str → BadPayload
  from_not_string to_not_string no_replace_with replace_with_not_string no_anchors : BadPayload

-- The errors that the pipeline throws.
pub data Rejection : Type 0 where
  aborted : Rejection
  misaligned : Rejection
  bad_payload : BadPayload → Rejection
  malformed_anchor : Str → Reason → Rejection
  bad_anchor : List ℕ → Reason → HEdit → Rejection
  stale_anchor : List ServedRow → Rejection
  suspicious_text : ℕ → Str → ℕ → Rejection
  stale_range : Cause → ℕ → List ServedRow → Rejection
  unserved_range : UnservedKind → Option ℕ → List ServedRow → Rejection
  unknown_anchor : List Str → Rejection
  foreign_anchor : List Str → List Str → Rejection
  unverified_range : ℕ → List ServedRow → Rejection
  target_lost : ℕ → Rejection
  empty_range : Rejection
  space_exhausted : ℕ → ℕ → Rejection

pub data Warning : Type 0 where
  literal_bypass : Warning
  reversed_anchors : Str → Str → Warning
  unicode_literal : ℕ → Warning
  served_prefix_mismatch : ℕ → Str → ℕ → Warning

pub data Result {ℓ} (A : Type ℓ) : Type ℓ where
  ok : A → Result A
  err : Rejection → Result A

-- A step that throws ends the chain.
infixl 5 ◌>>=◌
abbrev pub ◌>>=◌ {ℓ κ} : {A : Type ℓ} {B : Type κ} → Result A → (A → Result B) → Result B
err reason >>= later = err reason
ok value >>= later = later value

-- A step without a value.
infixl 5 ◌>>◌
abbrev pub ◌>>◌ {κ} : {B : Type κ} → Result (Unit {0}) → Result B → Result B
step >> later = step >>= λ done. later

-- `abortIf(signal)`. The pipeline is synchronous, so a signal does not change under it.
abbrev pub abort_if : Bool → Result (Unit {0})
abort_if true = err aborted
abort_if false = ok tt

-- A chain that succeeds had a first step that succeeded.
pub >>=-eq-ok {ℓ κ} :
    {A : Type ℓ} {B : Type κ} (m : Result A) (f : A → Result B) (b : B)
    → (m >>= f) ≡ ok b
    → (a : A) × (m ≡ ok a) × (f a ≡ ok b)
>>=-eq-ok (ok a) f b h = (a, refl, h)
>>=-eq-ok (err e) f b h = cc

-- `lines[i]`, with the empty string past the end.
abbrev pub line_at : List Str → ℕ → Str
line_at lines i = get_or lines i []

pub >>-eq-ok {ℓ} :
    {B : Type ℓ} (m : Result (Unit {0})) (k : Result B) (b : B)
    → (m >> k) ≡ ok b
    → (m ≡ ok tt) × (k ≡ ok b)
>>-eq-ok (ok tt) k b h = (refl, h)
>>-eq-ok (err e) k b h = cc
