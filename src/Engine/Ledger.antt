-- ===== src/Engine/Ledger.antt =====
-- The ledger of reported identity faults stays within its cap.
use dsh_better_edit.Prelude.{
  suc, ◌≤◌, ◌≡◌, refl, Bool, true, false, List, [], ◌∷◌, Str, leb, if◌then◌else◌, length,
  length-append, has, Bool-cases, inl, inr, arith,
}
use dsh_better_edit.Engine.{identity_degrade_report_cap, without_oldest, report_identity_degrade}

trimmed :
    (ledger : List Str)
    → length ledger ≤ identity_degrade_report_cap
    → suc (
        length (
          if leb identity_degrade_report_cap (length ledger)
          then without_oldest ledger
          else ledger))
      ≤ identity_degrade_report_cap
trimmed [] h = omega arith
trimmed (p ∷ ps) h = by_test (leb identity_degrade_report_cap (suc (length ps))) (ground arith)
  where
    by_test :
        (b : Bool)
        → (b ≡ false → suc (suc (length ps)) ≤ identity_degrade_report_cap)
        → suc (length (if b then ps else p ∷ ps)) ≤ identity_degrade_report_cap
    by_test true f = h
    by_test false f = f refl

-- A ledger within its cap stays within it, whatever is reported.
pub report_identity_degrade-length :
    (ledger : List Str) (path : Str)
    → length ledger ≤ identity_degrade_report_cap
    → length (report_identity_degrade ledger path).ledger ≤ identity_degrade_report_cap
unfolding report_identity_degrade
report_identity_degrade-length ledger path h = elim (Bool-cases (has path ledger)) [
  | inl known ↦ rw known h
  | inr new ↦ rw new (
      omega (
        arith,
        trimmed ledger h,
        length-append
            (if leb identity_degrade_report_cap (length ledger)
              then without_oldest ledger
              else ledger)
            (path ∷ []),
      ))
]
