-- ===== src/Sedimentree/CommitDag/Links.antt =====
-- src/sedimentree/commit_dag.rs: the edges that were added, one after the other, and the places that
-- `add_edge` gives them.
use beelay.Prelude.{ℕ, suc, ◌+◌, ◌*◌, ◌≤◌, ◌≡◌, refl, ap, ◌∙◌, arith, List, [], ◌∷◌, ◌++◌, some}
use beelay.Prelude.{length, get_elem?, All, false, inl, inr, Bool-cases, ◌==◌, ==_iff}
use beelay.Prelude.{if◌then◌else◌}
use beelay.Prelude.Pairwise.{Pairwise, All-map}
use beelay.Sedimentree.CommitDag.Chains.{IsBefore}

-- The places and sources of the edges into `t` and out of `s`: of the pair at `k` of the source and
-- the target, the edge for the child is at `2 * k`, and the one for the parent behind it.
unfoldable pub in_edges : ℕ → ℕ → List (ℕ × ℕ) → List (ℕ × ℕ)
in_edges t k [] = []
in_edges t k ((s, t') ∷ added) =
    if t' == t then (2 * k, s) ∷ in_edges t (k + 1) added else in_edges t (k + 1) added

unfoldable pub out_edges : ℕ → ℕ → List (ℕ × ℕ) → List (ℕ × ℕ)
out_edges s k [] = []
out_edges s k ((s', t) ∷ added) =
    if s' == s then (2 * k + 1, s') ∷ out_edges s (k + 1) added else out_edges s (k + 1) added

-- The place `p.0` belongs to an edge of the list into `t`, or out of `s`.
abbrev pub IsIn : ℕ → ℕ → List (ℕ × ℕ) → ℕ × ℕ → Type 0
IsIn t k added p = (j : ℕ) × (p.0 ≡ 2 * (k + j)) × (get_elem? added j ≡ some (p.1, t))

abbrev pub IsOut : ℕ → ℕ → List (ℕ × ℕ) → ℕ × ℕ → Type 0
IsOut s k added p =
    (j : ℕ) × (p.0 ≡ 2 * (k + j) + 1) × ((t : ℕ) × (get_elem? added j ≡ some (s, t)))

module _ (t : ℕ) where
  shift-IsIn :
      (k : ℕ) (e : ℕ × ℕ) (added : List (ℕ × ℕ)) (p : ℕ × ℕ)
      → IsIn t (k + 1) added p
      → IsIn t k (e ∷ added) p
  shift-IsIn k e added p (j, h, g) = (suc j, omega arith, g)

  pub in_edges-IsIn : (k : ℕ) (added : List (ℕ × ℕ)) → All (IsIn t k added) (in_edges t k added)
  unfolding in_edges
  in_edges-IsIn k [] = tt
  in_edges-IsIn k ((s, t') ∷ added) =
      let rest =
        All-map (IsIn t (k + 1) added) (IsIn t k ((s, t') ∷ added)) (shift-IsIn k (s, t') added)
          (in_edges t (k + 1) added) (in_edges-IsIn (k + 1) added) in
      elim (Bool-cases (t' == t)) [
        | inl y ↦ rw (y) ((0, omega arith, ap (λ x. some (s, x)) ((==_iff t' t).0 y)), rest)
        | inr n ↦ rw (n) rest
      ]

  pub in_edges-IsBefore : (k : ℕ) (added : List (ℕ × ℕ)) → Pairwise IsBefore (in_edges t k added)
  unfolding in_edges
  in_edges-IsBefore k [] = tt
  in_edges-IsBefore k ((s, t') ∷ added) = elim (Bool-cases (t' == t)) [
    | inl y ↦ rw (y) (
      All-map (IsIn t (k + 1) added) (IsBefore (2 * k, s)) (λ p (j, h, g). omega arith)
          (in_edges t (k + 1) added) (in_edges-IsIn (k + 1) added),
      in_edges-IsBefore (k + 1) added,
    )
    | inr n ↦ rw (n) (in_edges-IsBefore (k + 1) added)
  ]

  pub length-in_edges : (k : ℕ) (added : List (ℕ × ℕ)) → length (in_edges t k added) ≤ length added
  unfolding in_edges
  length-in_edges k [] = omega arith
  length-in_edges k ((s, t') ∷ added) = ground (arith, length-in_edges (k + 1) added)

  pub in_edges-snoc_same :
      (k : ℕ) (added : List (ℕ × ℕ)) (s : ℕ)
      → in_edges t k (added ++ (s, t) ∷ []) ≡ in_edges t k added ++ (2 * (k + length added), s) ∷ []
  unfolding in_edges
  in_edges-snoc_same k [] s = rw ((==_iff t t).1 refl) (ap (λ n. (n, s) ∷ []) (omega arith))
  in_edges-snoc_same k ((a, b) ∷ added) s =
      let place : 2 * (k + 1 + length added) ≡ 2 * (k + suc (length added)) = omega arith in
      let ih =
        in_edges-snoc_same (k + 1) added s
        ∙ ap (λ n. in_edges t (k + 1) added ++ (n, s) ∷ []) place in
      elim (Bool-cases (b == t)) [
        | inl y ↦ rw (y) (ap (λ es. (2 * k, a) ∷ es) ih)
        | inr n ↦ rw (n) ih
      ]

  pub in_edges-snoc_other :
      (k : ℕ) (added : List (ℕ × ℕ)) (s t' : ℕ)
      → (t' == t) ≡ false
      → in_edges t k (added ++ (s, t') ∷ []) ≡ in_edges t k added
  unfolding in_edges
  in_edges-snoc_other k [] s t' h = rw (h) refl
  in_edges-snoc_other k ((a, b) ∷ added) s t' h = elim (Bool-cases (b == t)) [
    | inl y ↦ rw (y) (ap (λ es. (2 * k, a) ∷ es) (in_edges-snoc_other (k + 1) added s t' h))
    | inr n ↦ rw (n) (in_edges-snoc_other (k + 1) added s t' h)
  ]

module _ (s : ℕ) where
  shift-IsOut :
      (k : ℕ) (e : ℕ × ℕ) (added : List (ℕ × ℕ)) (p : ℕ × ℕ)
      → IsOut s (k + 1) added p
      → IsOut s k (e ∷ added) p
  shift-IsOut k e added p (j, h, g) = (suc j, omega arith, g)

  pub out_edges-IsOut : (k : ℕ) (added : List (ℕ × ℕ)) → All (IsOut s k added) (out_edges s k added)
  unfolding out_edges
  out_edges-IsOut k [] = tt
  out_edges-IsOut k ((s', t) ∷ added) =
      let rest =
        All-map (IsOut s (k + 1) added) (IsOut s k ((s', t) ∷ added)) (shift-IsOut k (s', t) added)
          (out_edges s (k + 1) added) (out_edges-IsOut (k + 1) added) in
      elim (Bool-cases (s' == s)) [
        | inl y ↦ rw (y) ((0, omega arith, (t, ap (λ x. some (x, t)) ((==_iff s' s).0 y))), rest)
        | inr n ↦ rw (n) rest
      ]

  pub out_edges-IsBefore : (k : ℕ) (added : List (ℕ × ℕ)) → Pairwise IsBefore (out_edges s k added)
  unfolding out_edges
  out_edges-IsBefore k [] = tt
  out_edges-IsBefore k ((s', t) ∷ added) = elim (Bool-cases (s' == s)) [
    | inl y ↦ rw (y) (
      All-map (IsOut s (k + 1) added) (IsBefore (2 * k + 1, s')) (λ p (j, h, g). omega arith)
          (out_edges s (k + 1) added) (out_edges-IsOut (k + 1) added),
      out_edges-IsBefore (k + 1) added,
    )
    | inr n ↦ rw (n) (out_edges-IsBefore (k + 1) added)
  ]

  pub length-out_edges :
      (k : ℕ) (added : List (ℕ × ℕ)) → length (out_edges s k added) ≤ length added
  unfolding out_edges
  length-out_edges k [] = omega arith
  length-out_edges k ((s', t) ∷ added) = ground (arith, length-out_edges (k + 1) added)

  pub out_edges-snoc_same :
      (k : ℕ) (added : List (ℕ × ℕ)) (t : ℕ)
      → out_edges s k (added ++ (s, t) ∷ [])
        ≡ out_edges s k added ++ (2 * (k + length added) + 1, s) ∷ []
  unfolding out_edges
  out_edges-snoc_same k [] t = rw ((==_iff s s).1 refl) (ap (λ n. (n, s) ∷ []) (omega arith))
  out_edges-snoc_same k ((a, b) ∷ added) t =
      let place : 2 * (k + 1 + length added) + 1 ≡ 2 * (k + suc (length added)) + 1 = omega arith in
      let ih =
        out_edges-snoc_same (k + 1) added t
        ∙ ap (λ n. out_edges s (k + 1) added ++ (n, s) ∷ []) place in
      elim (Bool-cases (a == s)) [
        | inl y ↦ rw (y) (ap (λ es. (2 * k + 1, a) ∷ es) ih)
        | inr n ↦ rw (n) ih
      ]

  pub out_edges-snoc_other :
      (k : ℕ) (added : List (ℕ × ℕ)) (s' t : ℕ)
      → (s' == s) ≡ false
      → out_edges s k (added ++ (s', t) ∷ []) ≡ out_edges s k added
  unfolding out_edges
  out_edges-snoc_other k [] s' t h = rw (h) refl
  out_edges-snoc_other k ((a, b) ∷ added) s' t h = elim (Bool-cases (a == s)) [
    | inl y ↦ rw (y) (ap (λ es. (2 * k + 1, a) ∷ es) (out_edges-snoc_other (k + 1) added s' t h))
    | inr n ↦ rw (n) (out_edges-snoc_other (k + 1) added s' t h)
  ]
