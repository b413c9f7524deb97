-- ===== src/Sedimentree/Strata.antt =====
-- src/sedimentree.rs: the levels, which stratum supports which, and the strata that `minimize`
-- keeps.
pub mod Minimal
pub mod Kept
pub mod Minimize
use Prim.Native.Nat.{compare, Ordering}
use beelay.Prelude.{ℕ, ◌+◌, Bool, true, false, ◌&&◌, ◌||◌, List, [], ◌∷◌, ◌++◌, Option, none}
use beelay.Prelude.{some, ◌≡◌, any, if◌then◌else◌, ltb, leb, ◌==◌, min, ap, ◌↔◌, ==_iff, arith}
use beelay.Prelude.Array.{to_list}
use beelay.Prelude.Equality.{Eq, ◌=?◌, eq_of_=?, array_eq, option_eq, option_beq, contains}
use beelay.Blob.{BlobHash, BlobMeta}
use beelay.Commit.{CommitHash}
use beelay.Sedimentree.Types.{Stratum, StratumMeta}

instance abbrev pub commit_hash_eq : Eq CommitHash
commit_hash_eq = record {
  beq = λ a b. a.digest =? b.digest;
  beq_iff = λ a b. (
    λ h. ap (λ x. record { digest = x }) (eq_of_=? a.digest b.digest h),
    λ p. (array_eq.beq_iff a.digest b.digest).1 (ap (λ (d : CommitHash). d.digest) p),
  );
}

-- The derived `PartialEq` of `StratumMeta`.
unfoldable pub stratum_meta_beq : StratumMeta → StratumMeta → Bool
unfolding option_beq
stratum_meta_beq a b =
    option_beq a.start b.start
    && (a.end =? b.end
        && (a.blob.hash.digest =? b.blob.hash.digest && a.blob.size_bytes == b.blob.size_bytes))

-- The number of zeros at the end of the number.
pub record Level : Type 0 where
  pub zeros : ℕ

abbrev pub top_strata_level : Level
top_strata_level = record { zeros = 2 }

-- The derived `Ord::cmp`.
unfoldable pub level_cmp : Level → Level → Ordering
level_cmp a b = compare a.zeros b.zeros

-- `PartialOrd::partial_cmp`, which turns the order round.
unfoldable pub level_partial_cmp : Level → Level → Option Ordering
level_partial_cmp a b =
    if ltb a.zeros b.zeros
    then some Ordering.gt
    else if ltb b.zeros a.zeros
    then some Ordering.lt
    else some Ordering.eq

-- `a >= b`, by `partial_cmp`.
unfoldable pub level_ge : Level → Level → Bool
unfolding level_partial_cmp
level_ge a b = elim (level_partial_cmp a b) [
  | some Ordering.lt ↦ false
  | some o ↦ true
  | none ↦ false
]

unfoldable pub reverse : Ordering → Ordering
reverse Ordering.lt = Ordering.gt
reverse Ordering.eq = Ordering.eq
reverse Ordering.gt = Ordering.lt

-- `take_while(|&i| i == 0).count()`
unfoldable pub count_zeros : List ℕ → ℕ
count_zeros [] = 0
count_zeros (d ∷ ds) = if d == 0 then 1 + count_zeros ds else 0

unfoldable pub reversed : List ℕ → List ℕ
reversed [] = []
reversed (d ∷ ds) = reversed ds ++ d ∷ []

-- `to_radix_be bytes base` stands for the crate num: the digits, the highest first, of the number
-- that the bytes are with the highest first.
module _ (to_radix_be : List ℕ → ℕ → List ℕ) where
  unfoldable pub trailing_zeros_in_base : List ℕ → ℕ → ℕ
  unfolding count_zeros reversed
  trailing_zeros_in_base arr base = count_zeros (reversed (to_radix_be arr base))

  unfoldable pub level_of_hash : CommitHash → Level
  unfolding trailing_zeros_in_base
  level_of_hash hash = record { zeros = trailing_zeros_in_base (to_list hash.digest) 10 }

  unfoldable pub level_from_start : ℕ → Option CommitHash → Level
  unfolding trailing_zeros_in_base
  level_from_start end_level (some start) = record {
    zeros = min (trailing_zeros_in_base (to_list start.digest) 10) end_level;
  }
  level_from_start end_level none = record { zeros = end_level }

  unfoldable pub meta_level : StratumMeta → Level
  unfolding level_from_start trailing_zeros_in_base
  meta_level m = level_from_start (trailing_zeros_in_base (to_list m.end.digest) 10) m.start

  unfoldable pub level : Stratum → Level
  unfolding meta_level
  level s = meta_level s.meta

  -- The last two tests of `supports`.
  unfoldable pub supports_between : Stratum → CommitHash → Option CommitHash → Bool
  unfolding contains
  supports_between s other_end none = false
  supports_between s other_end (some other_start) =
      (contains s.checkpoints other_start && contains s.checkpoints other_end)
      || (contains s.checkpoints other_start && s.meta.end =? other_end)

  unfoldable pub supports : Stratum → StratumMeta → Bool
  unfolding stratum_meta_beq level_ge option_beq contains
  supports s other =
      if stratum_meta_beq s.meta other
      then true
      else if level_ge (level s) (meta_level other)
      then false
      else if option_beq s.meta.start other.start && contains s.checkpoints other.end
      then true
      else supports_between s other.end other.start

  unfoldable pub supports_block : Stratum → CommitHash → Bool
  unfolding contains
  supports_block s block_end = contains s.checkpoints block_end || s.meta.end =? block_end

  -- One step of the stable `sort_by` with `a.level().cmp(&b.level()).reverse()`: `s` stands before
  -- the strata that it stood before, except those that are less than it.
  unfoldable pub insert_by_level : Stratum → List Stratum → List Stratum
  unfolding reverse level_cmp
  insert_by_level s [] = s ∷ []
  insert_by_level s (x ∷ xs) = elim (reverse (level_cmp (level x) (level s))) [
    | Ordering.lt ↦ x ∷ insert_by_level s xs
    | o ↦ s ∷ x ∷ xs
  ]

  unfoldable pub sort_by_level : List Stratum → List Stratum
  unfolding insert_by_level
  sort_by_level [] = []
  sort_by_level (s ∷ ss) = insert_by_level s (sort_by_level ss)

  -- The loop of `minimize`: a stratum is pushed where none of those before it supports it.
  unfoldable pub push_unsupported : List Stratum → List Stratum → List Stratum
  unfolding any supports
  push_unsupported minimized [] = minimized
  push_unsupported minimized (s ∷ ss) =
      if any (λ existing. supports existing s.meta) minimized
      then push_unsupported minimized ss
      else push_unsupported (minimized ++ s ∷ []) ss

  -- The strata of `minimize`.
  unfoldable pub minimize_strata : List Stratum → List Stratum
  unfolding sort_by_level push_unsupported
  minimize_strata strata = push_unsupported [] (sort_by_level strata)
