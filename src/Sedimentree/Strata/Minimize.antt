-- ===== src/Sedimentree/Strata/Minimize.antt =====
-- src/sedimentree.rs: what the strata that `minimize` keeps are to the strata of the tree.
use beelay.Prelude.{refl, sym, ◌++◌, ◌∙◌, [], ap, false, true, ◌∷◌, All, ◌≡◌, ℕ, List, Bool-cases}
use beelay.Prelude.{inl, inr, append-nil, append_assoc, subst}
use beelay.Prelude.Pairwise.{Pairwise, Pairwise-snoc, All-snoc, any-All, All-any, any-append}
use beelay.Prelude.Pairwise.{any-snoc}
use beelay.Sedimentree.Types.{Stratum}
use beelay.Sedimentree.Strata.{supports, sort_by_level, push_unsupported, minimize_strata}
use beelay.Sedimentree.Strata.Minimal.{IsAbove, IsUnrelated, supported_by, supports_refl}
use beelay.Sedimentree.Strata.Minimal.{unsupported-IsUnrelated}
use beelay.Sedimentree.Strata.Kept.{All-sort, sort-All, sort-Pairwise, sort-sorted, push-skip}
use beelay.Sedimentree.Strata.Kept.{push-keep}

module _ (radix : List ℕ → ℕ → List ℕ) where
  -- Any relation that holds between a stratum and the lower ones that it does not support.
  module _ {κ} (R : Stratum → Stratum → Type κ)
      (push : (e s : Stratum) → IsAbove radix e s → supports radix e s.meta ≡ false → R e s) where
    pushed :
        (ms : List Stratum) (s : Stratum)
        → All (λ e. IsAbove radix e s) ms
        → All (λ e. supports radix e s.meta ≡ false) ms
        → All (λ e. R e s) ms
    pushed [] s h n = tt
    pushed (e ∷ ms) s (h, hs) (n, ns) = (push e s h n, pushed ms s hs ns)

    below-snoc :
        (ms : List Stratum) (s : Stratum) (ss : List Stratum)
        → All (λ x. All (λ e. IsAbove radix e x) ms) ss
        → All (IsAbove radix s) ss
        → All (λ x. All (λ e. IsAbove radix e x) (ms ++ s ∷ [])) ss
    below-snoc ms s [] h a = tt
    below-snoc ms s (x ∷ ss) (h, hs) (a, rest) =
        (All-snoc (λ e. IsAbove radix e x) ms s h a, below-snoc ms s ss hs rest)

    push-Pairwise :
        (ms ss : List Stratum)
        → Pairwise R ms
        → All (λ x. All (λ e. IsAbove radix e x) ms) ss
        → Pairwise (IsAbove radix) ss
        → Pairwise R (push_unsupported radix ms ss)
    unfolding push_unsupported
    push-Pairwise ms [] p b h = p
    push-Pairwise ms (s ∷ ss) p (b, bs) (h, hs) = elim (Bool-cases (supported_by radix ms s.meta)) [
      | inl y ↦ subst (Pairwise R) (sym (push-skip radix ms s ss y)) (push-Pairwise ms ss p bs hs)
      | inr n ↦ subst (Pairwise R) (sym (push-keep radix ms s ss n)) (
          push-Pairwise (ms ++ s ∷ []) ss
            (Pairwise-snoc R ms s p (pushed ms s b (All-any (λ m. supports radix m s.meta) ms n)))
            (below-snoc ms s ss bs h) hs)
    ]

    no_bounds : (ss : List Stratum) → All (λ x. All (λ e. IsAbove radix e x) []) ss
    no_bounds [] = tt
    no_bounds (s ∷ ss) = (tt, no_bounds ss)

    minimize-Pairwise : (ss : List Stratum) → Pairwise R (minimize_strata radix ss)
    unfolding minimize_strata
    minimize-Pairwise ss =
        push-Pairwise [] (sort_by_level radix ss) tt (no_bounds (sort_by_level radix ss))
          (sort-Pairwise radix ss)

  -- No two of the strata that are kept support one another, whatever the digits of the hashes are.
  pub minimize_strata-IsUnrelated :
      (ss : List Stratum) → Pairwise (IsUnrelated radix) (minimize_strata radix ss)
  minimize_strata-IsUnrelated =
      minimize-Pairwise (IsUnrelated radix) (unsupported-IsUnrelated radix)

  still_supported :
      (ms ss : List Stratum) (t : Stratum)
      → supported_by radix ms t.meta ≡ true
      → supported_by radix (push_unsupported radix ms ss) t.meta ≡ true
  unfolding push_unsupported
  still_supported ms [] t h = h
  still_supported ms (s ∷ ss) t h = elim (Bool-cases (supported_by radix ms s.meta)) [
    | inl y ↦
        subst (λ l. supported_by radix l t.meta ≡ true) (sym (push-skip radix ms s ss y))
          (still_supported ms ss t h)
    | inr n ↦
        subst (λ l. supported_by radix l t.meta ≡ true) (sym (push-keep radix ms s ss n))
          (still_supported (ms ++ s ∷ []) ss t
            (any-append (λ m. supports radix m t.meta) ms (s ∷ []) h))
  ]

  push-supports :
      (ms ss : List Stratum)
      → All (λ t. supported_by radix (push_unsupported radix ms ss) t.meta ≡ true) ss
  unfolding push_unsupported
  push-supports ms [] = tt
  push-supports ms (s ∷ ss) = elim (Bool-cases (supported_by radix ms s.meta)) [
    | inl y ↦
        subst (λ l. All (λ t. supported_by radix l t.meta ≡ true) (s ∷ ss))
          (sym (push-skip radix ms s ss y)) (still_supported ms ss s y, push-supports ms ss)
    | inr n ↦
        subst (λ l. All (λ t. supported_by radix l t.meta ≡ true) (s ∷ ss))
          (sym (push-keep radix ms s ss n))
          (
            still_supported (ms ++ s ∷ []) ss s
                (any-snoc (λ m. supports radix m s.meta) ms s (supports_refl radix s s.meta refl)),
            push-supports (ms ++ s ∷ []) ss,
          )
  ]

  -- Each stratum of the tree is supported by one that is kept.
  pub minimize_strata-supports :
      (ss : List Stratum)
      → All (λ t. supported_by radix (minimize_strata radix ss) t.meta ≡ true) ss
  unfolding minimize_strata
  minimize_strata-supports ss =
      sort-All radix (λ t. supported_by radix (minimize_strata radix ss) t.meta ≡ true) ss
        (push-supports [] (sort_by_level radix ss))

  module _ {κ} (P : Stratum → Type κ) where
    push-All : (ms ss : List Stratum) → All P ms → All P ss → All P (push_unsupported radix ms ss)
    unfolding push_unsupported
    push-All ms [] h a = h
    push-All ms (s ∷ ss) h (a, rest) = elim (Bool-cases (supported_by radix ms s.meta)) [
      | inl y ↦ subst (All P) (sym (push-skip radix ms s ss y)) (push-All ms ss h rest)
      | inr n ↦
          subst (All P) (sym (push-keep radix ms s ss n))
            (push-All (ms ++ s ∷ []) ss (All-snoc P ms s h a) rest)
    ]

    -- A predicate that holds of all strata of a tree holds of those that are kept.
    pub minimize_strata-All : (ss : List Stratum) → All P ss → All P (minimize_strata radix ss)
    unfolding minimize_strata
    minimize_strata-All ss h = push-All [] (sort_by_level radix ss) tt (All-sort radix P ss h)

  unsupported-snoc :
      (ms : List Stratum) (s : Stratum) (ss : List Stratum)
      → All (λ x. All (λ e. supports radix e x.meta ≡ false) ms) ss
      → All (IsUnrelated radix s) ss
      → All (λ x. All (λ e. supports radix e x.meta ≡ false) (ms ++ s ∷ [])) ss
  unsupported-snoc ms s [] h a = tt
  unsupported-snoc ms s (x ∷ ss) (h, hs) (a, rest) =
      (All-snoc (λ e. supports radix e x.meta ≡ false) ms s h a.0, unsupported-snoc ms s ss hs rest)

  push-append :
      (ms ss : List Stratum)
      → All (λ x. All (λ e. supports radix e x.meta ≡ false) ms) ss
      → Pairwise (IsUnrelated radix) ss
      → push_unsupported radix ms ss ≡ ms ++ ss
  unfolding push_unsupported
  push-append ms [] b h = sym (append-nil ms)
  push-append ms (s ∷ ss) (b, bs) (h, hs) =
      push-keep radix ms s ss (any-All (λ m. supports radix m s.meta) ms b)
      ∙ push-append (ms ++ s ∷ []) ss (unsupported-snoc ms s ss bs h) hs
      ∙ append_assoc ms (s ∷ []) ss

  none_before : (ss : List Stratum) → All (λ x. All (λ e. supports radix e x.meta ≡ false) []) ss
  none_before [] = tt
  none_before (s ∷ ss) = (tt, none_before ss)

  minimize-sorted :
      (ms : List Stratum)
      → Pairwise (IsAbove radix) ms
      → Pairwise (IsUnrelated radix) ms
      → minimize_strata radix ms ≡ ms
  unfolding minimize_strata
  minimize-sorted ms a u =
      ap (push_unsupported radix []) (sort-sorted radix ms a) ∙ push-append [] ms (none_before ms) u

  minimize_strata-sorted : (ss : List Stratum) → Pairwise (IsAbove radix) (minimize_strata radix ss)
  minimize_strata-sorted = minimize-Pairwise (IsAbove radix) (λ e s a n. a)

  -- Strata that were kept once are all kept again, in the same order.
  pub minimize_strata-minimize_strata :
      (ss : List Stratum)
      → minimize_strata radix (minimize_strata radix ss) ≡ minimize_strata radix ss
  minimize_strata-minimize_strata ss =
      let ms = minimize_strata radix ss in
      minimize-sorted ms (minimize_strata-sorted ss) (minimize_strata-IsUnrelated ss)
