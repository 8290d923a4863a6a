-- ===== src/Pairing/Backbone/Kept.antt =====
-- The backbone is part of the candidate pins.
use dsh_better_edit.Prelude.{ℕ, ◌&&◌, Option, List, [], ◌∷◌, ◌==◌, Bool-cases, inl, inr, All, drop}
use dsh_better_edit.Pairing.Pins.{AnchorPin}
use dsh_better_edit.Pairing.Backbone.{
  Scored, score, is_optimal, optimal_at_rank, stable_of, find_stable_pin_backbone,
}

module _ {κ} (P : AnchorPin → Type κ) where
  scored-All :
      (pins : List AnchorPin) (ls ds sls sds : List ℕ)
      → All P pins
      → All (λ (s : Scored). P s.pin) (score pins ls ds sls sds)
  unfolding score
  scored-All [] ls ds sls sds h = tt
  scored-All (pin ∷ pins) ls ds sls sds (p, h) =
      (p, scored-All pins (drop 1 ls) (drop 1 ds) (drop 1 sls) (drop 1 sds) h)

  stable_of-All :
      (best : ℕ) (least : Option ℕ) (all ss : List Scored)
      → All (λ (s : Scored). P s.pin) ss
      → All P (stable_of best least all ss)
  unfolding stable_of
  stable_of-All best least all [] h = tt
  stable_of-All best least all (s ∷ ss) (p, h) =
      elim (Bool-cases (is_optimal best least s && (optimal_at_rank best least s.rank all == 1))) [
        | inl kept ↦ rw kept (p, stable_of-All best least all ss h)
        | inr dropped ↦ rw dropped (stable_of-All best least all ss h)
      ]

  -- What holds of each candidate holds of each pin of the backbone.
  pub find_stable_pin_backbone-All :
      (pins : List AnchorPin) → All P pins → All P (find_stable_pin_backbone pins)
  unfolding find_stable_pin_backbone
  find_stable_pin_backbone-All pins h = stable_of-All _ _ _ _ (scored-All pins _ _ _ _ h)
