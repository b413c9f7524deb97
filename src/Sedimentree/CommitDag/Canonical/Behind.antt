-- ===== src/Sedimentree/CommitDag/Canonical/Behind.antt =====
-- src/sedimentree/commit_dag.rs: what stands behind a hash for `canonical_sequence`, in the commits
-- and the strata.
use beelay.Prelude.{ℕ, ◌≡◌, ◌⊎◌, inl, inr, refl, sym, ap, ◌∙◌, List, [], ◌∷◌, ◌++◌}
use beelay.Prelude.{none, some, false, subst, get_elem?, Bool-cases, Option-cases}
use beelay.Prelude.Equality.{contains, IsIn, IsIn-cases, IsIn-here, IsIn-later}
use beelay.Prelude.Equality.{IsIn-append_cases, IsIn-append_left, IsIn-append_right}
use beelay.Commit.{CommitHash}
use beelay.Sedimentree.Types.{LooseCommit, Stratum}
use beelay.Sedimentree.Strata.{commit_hash_eq}
use beelay.Sedimentree.CommitDag.Places.{hashes_from}
use beelay.Sedimentree.CommitDag.Relations.{known}
use beelay.Sedimentree.CommitDag.Canonical.{behind}
use beelay.Sedimentree.CommitDag.Canonical.Chosen.{IsChosen}
use beelay.Sedimentree.CommitDag.Canonical.Complete.{known_take, known_skip}

module _ (radix : List ℕ → ℕ → List ℕ) (cs : List LooseCommit) (ss : List Stratum) where
  -- `k` is a parent of the commit `h` that is itself among the commits; or `h` is not among the
  -- commits, and `k` is a checkpoint or the start of the stratum chosen of those that end at `h`.
  pub data Behind : CommitHash → CommitHash → Type 0 where
    parent :
        (h k : CommitHash) (c : LooseCommit) (i : ℕ)
        → get_elem? cs i ≡ some c
        → c.hash ≡ h
        → IsIn c.parents k
        → IsIn (hashes_from cs) k
        → Behind h k
    checkpoint :
        (h k : CommitHash) (s : Stratum)
        → contains (hashes_from cs) h ≡ false
        → IsChosen radix h ss s
        → IsIn s.checkpoints k
        → Behind h k
    start :
        (h k : CommitHash) (s : Stratum)
        → contains (hashes_from cs) h ≡ false
        → IsChosen radix h ss s
        → s.meta.start ≡ some k
        → Behind h k

  -- `k` is `h`, or is found from it by going behind again and again.
  pub data Reaches : CommitHash → CommitHash → Type 0 where
    self : (h : CommitHash) → Reaches h h
    step : (h m k : CommitHash) → Behind h m → Reaches m k → Reaches h k

pub known-IsIn : (hs ps : List CommitHash) (h : CommitHash) → IsIn (known hs ps) h → IsIn ps h
unfolding known contains
known-IsIn hs [] h i = i
known-IsIn hs (p ∷ ps) h i = elim (Bool-cases (contains hs p)) [
  | inl y ↦ elim (IsIn-cases p h (known hs ps) (subst (λ l. IsIn l h) (known_take hs p ps y) i)) [
    | inl q ↦ IsIn-here p h ps q
    | inr r ↦ IsIn-later p h ps (known-IsIn hs ps h r)
  ]
  | inr n ↦ IsIn-later p h ps (known-IsIn hs ps h (subst (λ l. IsIn l h) (known_skip hs p ps n) i))
]

pub both-known :
    (hs ps : List CommitHash) (h : CommitHash) → IsIn ps h → IsIn hs h → IsIn (known hs ps) h
unfolding known contains
both-known hs [] h i j = i
both-known hs (p ∷ ps) h i j = elim (IsIn-cases p h ps i) [
  | inl q ↦
      subst (λ l. IsIn l h) (sym (known_take hs p ps (subst (IsIn hs) (sym q) j)))
        (IsIn-here p h (known hs ps) q)
  | inr r ↦ elim (Bool-cases (contains hs p)) [
    | inl y ↦
        subst (λ l. IsIn l h) (sym (known_take hs p ps y))
          (IsIn-later p h (known hs ps) (both-known hs ps h r j))
    | inr n ↦ subst (λ l. IsIn l h) (sym (known_skip hs p ps n)) (both-known hs ps h r j)
  ]
]

-- What the stratum pushes is its checkpoints and its start.
pub behind-IsIn :
    (s : Stratum) (k : CommitHash)
    → IsIn (behind s) k
    → IsIn s.checkpoints k ⊎ (s.meta.start ≡ some k)
unfolding behind contains
behind-IsIn s k i = elim (Option-cases s.meta.start) [
  | inl n ↦
      elim (IsIn-append_cases s.checkpoints [] k
        (subst (λ o. IsIn (s.checkpoints ++ elim o [ none ↦ [] | some b ↦ b ∷ [] ]) k) n i)) [
          | inl j ↦ inl j
          | inr j ↦ absurd (cc j)
        ]
  | inr (b, y) ↦
      elim (IsIn-append_cases s.checkpoints (b ∷ []) k
        (subst (λ o. IsIn (s.checkpoints ++ elim o [ none ↦ [] | some b ↦ b ∷ [] ]) k) y i)) [
          | inl j ↦ inl j
          | inr j ↦ elim (IsIn-cases b k [] j) [
            | inl q ↦ inr (y ∙ ap some q)
            | inr n ↦ absurd (cc n)
          ]
        ]
]

pub checkpoint-behind : (s : Stratum) (k : CommitHash) → IsIn s.checkpoints k → IsIn (behind s) k
unfolding behind
checkpoint-behind s k i =
    IsIn-append_left s.checkpoints (elim s.meta.start [ none ↦ [] | some b ↦ b ∷ [] ]) k i

pub start-behind : (s : Stratum) (k : CommitHash) → s.meta.start ≡ some k → IsIn (behind s) k
unfolding behind
start-behind s k p =
    IsIn-append_right s.checkpoints (elim s.meta.start [ none ↦ [] | some b ↦ b ∷ [] ]) k
      (subst (λ o. IsIn (elim o [ none ↦ [] | some b ↦ b ∷ [] ]) k) (sym p) (IsIn-here k k [] refl))
