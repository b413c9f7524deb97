-- ===== src/Sedimentree/Strata/Kept.antt =====
-- src/sedimentree.rs: the sort and the loop of `minimize`.
use beelay.Prelude.{sym, subst, inl, inr, refl, [], ◌++◌, ◌∙◌, ap, arith, false, le_or_lt, true}
use beelay.Prelude.{All, ◌<◌, ◌∷◌, ◌≡◌, ◌≤◌, ℕ, List}
use beelay.Prelude.Pairwise.{Pairwise, All-map}
use beelay.Sedimentree.Types.{Stratum}
use beelay.Sedimentree.Strata.{level_cmp, reverse, level, insert_by_level, sort_by_level}
use beelay.Sedimentree.Strata.{push_unsupported}
use beelay.Sedimentree.Strata.Minimal.{IsAbove, supported_by}

module _ (radix : List ℕ → ℕ → List ℕ) where
  insert-past :
      (s x : Stratum) (xs : List Stratum)
      → (level radix s).zeros < (level radix x).zeros
      → insert_by_level radix s (x ∷ xs) ≡ x ∷ insert_by_level radix s xs
  unfolding insert_by_level reverse level_cmp
  insert-past s x xs h = ground arith

  insert-here :
      (s x : Stratum) (xs : List Stratum)
      → (level radix x).zeros ≤ (level radix s).zeros
      → insert_by_level radix s (x ∷ xs) ≡ s ∷ x ∷ xs
  unfolding insert_by_level reverse level_cmp
  insert-here s x xs h = ground arith

  module _ {κ} (P : Stratum → Type κ) where
    All-insert :
        (s : Stratum) (xs : List Stratum) → P s → All P xs → All P (insert_by_level radix s xs)
    unfolding insert_by_level
    All-insert s [] p h = (p, tt)
    All-insert s (x ∷ xs) p (h, hs) = elim (le_or_lt (level radix x).zeros (level radix s).zeros) [
      | inl l ↦ subst (All P) (sym (insert-here s x xs l)) (p, (h, hs))
      | inr g ↦ subst (All P) (sym (insert-past s x xs g)) (h, All-insert s xs p hs)
    ]

    insert-All :
        (s : Stratum) (xs : List Stratum) → All P (insert_by_level radix s xs) → P s × All P xs
    unfolding insert_by_level
    insert-All s [] h = h
    insert-All s (x ∷ xs) h = elim (le_or_lt (level radix x).zeros (level radix s).zeros) [
      | inl l ↦ subst (All P) (insert-here s x xs l) h
      | inr g ↦
          let r = insert-All s xs (subst (All P) (insert-past s x xs g) h).1 in
          (r.0, ((subst (All P) (insert-past s x xs g) h).0, r.1))
    ]

    pub All-sort : (xs : List Stratum) → All P xs → All P (sort_by_level radix xs)
    unfolding sort_by_level
    All-sort [] h = tt
    All-sort (x ∷ xs) (h, hs) = All-insert x (sort_by_level radix xs) h (All-sort xs hs)

    pub sort-All : (xs : List Stratum) → All P (sort_by_level radix xs) → All P xs
    unfolding sort_by_level
    sort-All [] h = tt
    sort-All (x ∷ xs) h =
        let (p, ps) = insert-All x (sort_by_level radix xs) h in (p, sort-All xs ps)

  insert-Pairwise :
      (s : Stratum) (xs : List Stratum)
      → Pairwise (IsAbove radix) xs
      → Pairwise (IsAbove radix) (insert_by_level radix s xs)
  unfolding insert_by_level
  insert-Pairwise s [] h = (tt, tt)
  insert-Pairwise s (x ∷ xs) (h, hs) = elim (le_or_lt (level radix x).zeros (level radix s).zeros) [
    | inl l ↦ subst (Pairwise (IsAbove radix)) (sym (insert-here s x xs l)) (
      (l, All-map (IsAbove radix x) (IsAbove radix s) (λ y k. omega (arith, k, l)) xs h),
      (h, hs),
    )
    | inr g ↦
        subst (Pairwise (IsAbove radix)) (sym (insert-past s x xs g))
          (All-insert (IsAbove radix x) s xs (omega (arith, g)) h, insert-Pairwise s xs hs)
  ]

  pub sort-Pairwise : (xs : List Stratum) → Pairwise (IsAbove radix) (sort_by_level radix xs)
  unfolding sort_by_level
  sort-Pairwise [] = tt
  sort-Pairwise (x ∷ xs) = insert-Pairwise x (sort_by_level radix xs) (sort-Pairwise xs)

  pub sort-sorted : (xs : List Stratum) → Pairwise (IsAbove radix) xs → sort_by_level radix xs ≡ xs
  unfolding sort_by_level
  sort-sorted [] h = refl
  sort-sorted (x ∷ []) (h, hs) = refl
  sort-sorted (x ∷ (y ∷ ys)) ((l, h), hs) =
      ap (insert_by_level radix x) (sort-sorted (y ∷ ys) hs) ∙ insert-here x y ys l

  pub push-skip :
      (ms : List Stratum) (s : Stratum) (ss : List Stratum)
      → supported_by radix ms s.meta ≡ true
      → push_unsupported radix ms (s ∷ ss) ≡ push_unsupported radix ms ss
  unfolding push_unsupported
  push-skip ms s ss h = rw (push_unsupported, h) refl

  pub push-keep :
      (ms : List Stratum) (s : Stratum) (ss : List Stratum)
      → supported_by radix ms s.meta ≡ false
      → push_unsupported radix ms (s ∷ ss) ≡ push_unsupported radix (ms ++ s ∷ []) ss
  unfolding push_unsupported
  push-keep ms s ss h = rw (push_unsupported, h) refl
