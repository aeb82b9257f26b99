-- ===== src/Updater/Choice/Compatible.antt =====
-- `_best_compatible_container_tag` stays with the variant of the current tag and never goes back.
use fastdjango.Base.{ℕ, ◌≡◌, Option, some, Text, text_eq}
use fastdjango.Updater.Tags.{Rank, container_tag_rank}
use fastdjango.Updater.Choice.Ranked.{IsAtMost}

module _ (decimal : ℕ → Option ℕ) (current_tag : Text) where
  -- The current tag does not rank above this one, if both have ranks.
  abbrev pub IsNoStepBack : Text → Type 0
  IsNoStepBack tag =
      (rank : Rank) × (container_tag_rank decimal tag ≡ some rank)
      × IsAtMost decimal rank (container_tag_rank decimal current_tag)
