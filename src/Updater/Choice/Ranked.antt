-- ===== src/Updater/Choice/Ranked.antt =====
-- `_best_ranked_container_tag` returns the first of the best.
use mathlib.Core.Path.{subst}
use fastdjango.Base.{
  ℕ, ◌≡◌, ◌⊎◌, refl, sym, true, false, List, [], ◌∷◌, Option, none, some, Text, ◌==◌, nat_eq,
  text_eq, eq_iff, All, any, Bool-cases, Option-cases, inl, inr, arith, if◌then◌else◌,
}
use fastdjango.Versions.{tuple_less}
use fastdjango.Updater.Tags.{
  Rank, rank_less, container_tag_rank, better, best_ranked_from, best_ranked_container_tag,
}

at_least_trans :
    (xs ys zs : List ℕ)
    → tuple_less xs ys ≡ false
    → tuple_less ys zs ≡ false
    → tuple_less xs zs ≡ false
unfolding tuple_less
at_least_trans xs ys [] h k = refl
at_least_trans xs [] (z ∷ zs) h k = ground arith
at_least_trans [] (y ∷ ys) (z ∷ zs) h k = ground arith
at_least_trans (x ∷ xs) (y ∷ ys) (z ∷ zs) h k = ground (arith, at_least_trans xs ys zs)

antisymmetric : (xs ys : List ℕ) → tuple_less xs ys ≡ false → tuple_less ys xs ≡ false → xs ≡ ys
unfolding tuple_less
antisymmetric [] [] h k = refl
antisymmetric (x ∷ xs) [] h k = ground arith
antisymmetric [] (y ∷ ys) h k = ground arith
antisymmetric (x ∷ xs) (y ∷ ys) h k = ground (arith, antisymmetric xs ys, eq_iff x y)

asymmetric : (xs ys : List ℕ) → tuple_less xs ys ≡ true → tuple_less ys xs ≡ false
unfolding tuple_less
asymmetric xs [] h = ground arith
asymmetric [] (y ∷ ys) h = refl
asymmetric (x ∷ xs) (y ∷ ys) h = ground (arith, asymmetric xs ys)

pub rank_less-asymmetric : (x y : Rank) → rank_less x y ≡ true → rank_less y x ≡ false
unfolding rank_less
rank_less-asymmetric x y h =
    ground (arith, asymmetric x.key y.key, eq_iff x.key y.key, eq_iff y.key x.key)

rank_less-irreflexive : (x : Rank) → rank_less x x ≡ false
rank_less-irreflexive x = ground (arith, rank_less-asymmetric x x)

-- Ranks that are not below one another follow each other.
pub rank_at_least_trans :
    (x y z : Rank) → rank_less x y ≡ false → rank_less y z ≡ false → rank_less x z ≡ false
unfolding rank_less
rank_at_least_trans x y z h k = ground (
  arith,
  at_least_trans x.key y.key z.key,
  antisymmetric x.key y.key,
  antisymmetric y.key z.key,
  eq_iff x.key y.key,
  eq_iff y.key z.key,
  eq_iff x.key z.key,
)

module _ (decimal : ℕ → Option ℕ) where
  -- The rank of this tag, if it has one, is not above `best`.
  abbrev pub IsAtMost : Rank → Option Rank → Type 0
  IsAtMost best none = Unit
  IsAtMost best (some rank) = rank_less best rank ≡ false

  abbrev rank_of : Option (Text × Rank) → Option Rank
  rank_of none = none
  rank_of (some (tag, rank)) = some rank

  IsAtMost-trans :
      (a b : Rank) (o : Option Rank) → rank_less b a ≡ false → IsAtMost a o → IsAtMost b o
  IsAtMost-trans a b none h k = tt
  IsAtMost-trans a b (some rank) h k = rank_at_least_trans b a rank h k

  -- A tag and its rank come from the tags that the loop has seen, or from where it started.
  abbrev ComesFrom : Text × Rank → Option (Text × Rank) → List Text → Type 0
  ComesFrom found start tags =
      (start ≡ some found)
      ⊎ ((any (λ tag. tag == found.0) tags ≡ true)
          × (container_tag_rank decimal found.0 ≡ some found.1))

  -- One round of the loop: what comes out is not below what went in.
  better_lem :
      (tag : Text) (rank : Option Rank) (best : Option (Text × Rank)) (r : Rank)
      → IsAtMost r (rank_of (better decimal tag rank best))
      → IsAtMost r (rank_of best) × IsAtMost r rank
  unfolding better
  better_lem tag none best r h = (h, tt)
  better_lem tag (some rank) none r h = (tt, h)
  better_lem tag (some rank) (some (best_tag, best_rank)) r h =
      elim (Bool-cases (rank_less best_rank rank)) [
        | inl e ↦
            let k : rank_less r rank ≡ false =
              subst
                (λ b.
                  IsAtMost r (rank_of (if b then some (tag, rank) else some (best_tag, best_rank))))
                e h in
            (rank_at_least_trans r rank best_rank k (rank_less-asymmetric best_rank rank e), k)
        | inr e ↦
            let k : rank_less r best_rank ≡ false =
              subst
                (λ b.
                  IsAtMost r (rank_of (if b then some (tag, rank) else some (best_tag, best_rank))))
                e h in
            (k, rank_at_least_trans r best_rank rank k e)
      ]

  better-ComesFrom :
      (tag : Text) (rank : Option Rank) (best : Option (Text × Rank)) (found : Text × Rank)
      → container_tag_rank decimal tag ≡ rank
      → better decimal tag rank best ≡ some found
      → (best ≡ some found)
        ⊎ ((tag ≡ found.0) × (container_tag_rank decimal found.0 ≡ some found.1))
  unfolding better
  better-ComesFrom tag none best found e h = inl h
  better-ComesFrom tag (some rank) none (t, r) e h = inr (ground arith, ground arith)
  better-ComesFrom tag (some rank) (some (best_tag, best_rank)) (t, r) e h =
      elim (Bool-cases (rank_less best_rank rank)) [
        | inl l ↦ inr (ground arith, ground arith)
        | inr l ↦ inl (ground arith)
      ]

  source_of :
      (tag : Text) (tags : List Text) (best : Option (Text × Rank)) (found : Text × Rank)
      → ComesFrom found (better decimal tag (container_tag_rank decimal tag) best) tags
      → ComesFrom found best (tag ∷ tags)
  source_of tag tags best found (inr (later, rank)) = inr (ground arith, rank)
  source_of tag tags best found (inl now) =
      elim (better-ComesFrom tag (container_tag_rank decimal tag) best found refl now) [
        | inl e ↦ inl e
        | inr (same, rank) ↦ inr (ground (arith, eq_iff tag found.0), rank)
      ]

  best_ranked_from_lem :
      (tags : List Text) (best : Option (Text × Rank)) (found : Text × Rank)
      → best_ranked_from decimal best tags ≡ some found
      → ComesFrom found best tags
        × IsAtMost found.1 (rank_of best)
        × All (λ tag. IsAtMost found.1 (container_tag_rank decimal tag)) tags
  unfolding best_ranked_from
  best_ranked_from_lem [] best found h =
      (inl h, subst (λ o. IsAtMost found.1 (rank_of o)) (sym h) (rank_less-irreflexive found.1), tt)
  best_ranked_from_lem (tag ∷ tags) best found h =
      let (source, most, rest) =
        best_ranked_from_lem tags (better decimal tag (container_tag_rank decimal tag) best) found
          h in
      let (before, here) = better_lem tag (container_tag_rank decimal tag) best found.1 most in
      (source_of tag tags best found source, before, (here, rest))

  -- What the loop chose.
  pub best_ranked_container_tag-some :
      (tags : List Text) (t : Text)
      → best_ranked_container_tag decimal tags ≡ some t
      → (rank : Rank) × (any (λ tag. tag == t) tags ≡ true)
        × (container_tag_rank decimal t ≡ some rank)
        × All (λ tag. IsAtMost rank (container_tag_rank decimal tag)) tags
  unfolding best_ranked_container_tag
  best_ranked_container_tag-some tags t h =
      elim (Option-cases (best_ranked_from decimal none tags)) [
        | inl e ↦ ground arith
        | inr (found, e) ↦
            let same : found.0 ≡ t = ground arith in
            let (source, _, most) = best_ranked_from_lem tags none found e in
            elim source [
              | inl start ↦ ground arith
              | inr (here, rank) ↦ (
                found.1,
                subst (λ x. any (λ tag. tag == x) tags ≡ true) same here,
                subst (λ x. container_tag_rank decimal x ≡ some found.1) same rank,
                most,
              )
            ]
      ]

  better-none :
      (tag : Text) (rank : Option Rank) (best : Option (Text × Rank))
      → better decimal tag rank best ≡ none
      → (best ≡ none) × (rank ≡ none)
  unfolding better
  better-none tag none best h = (h, refl)
  better-none tag (some rank) none h = ground arith
  better-none tag (some rank) (some (best_tag, best_rank)) h = ground arith

  nothing_from :
      (tags : List Text) (best : Option (Text × Rank))
      → best_ranked_from decimal best tags ≡ none
      → (best ≡ none) × All (λ tag. container_tag_rank decimal tag ≡ none) tags
  unfolding best_ranked_from
  nothing_from [] best h = (h, tt)
  nothing_from (tag ∷ tags) best h =
      let (none_better, rest) =
        nothing_from tags (better decimal tag (container_tag_rank decimal tag) best) h in
      let (start, unranked) = better-none tag (container_tag_rank decimal tag) best none_better in
      (start, (unranked, rest))

  pub best_ranked_container_tag-none :
      (tags : List Text)
      → best_ranked_container_tag decimal tags ≡ none
      → All (λ tag. container_tag_rank decimal tag ≡ none) tags
  unfolding best_ranked_container_tag
  best_ranked_container_tag-none tags h =
      (nothing_from tags none (ground (arith, Option-cases (best_ranked_from decimal none tags)))).1
