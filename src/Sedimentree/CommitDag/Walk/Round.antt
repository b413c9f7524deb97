-- ===== src/Sedimentree/CommitDag/Walk/Round.antt =====
-- src/sedimentree/commit_dag.rs: one round of a walk, and the keys that it has not seen.
use beelay.Prelude.{ℕ, ◌+◌, ◌<◌, ◌≤◌, ◌≡◌, refl, sym, ap, arith, List, [], ◌∷◌, ◌++◌, Option}
use beelay.Prelude.{none, some, false, if◌then◌else◌, Bool-cases, inl, inr, ◌⊎◌, subst, length}
use beelay.Prelude.Equality.{Eq, contains, ◌=?◌, contains_here, contains_cons, eq_of_=?, ne_of_=?}
use beelay.Prelude.Equality.{IsIn, IsIn-cases, IsIn-here, IsIn-later, IsIn-append_cases}
use beelay.Prelude.Equality.{IsIn-append_left, IsIn-append_right}
use beelay.Sedimentree.CommitDag.Walk.{next_from, reversed}

module _ {ℓ} {K : Type ℓ} ⦃e : Eq K⦄ where
  -- The number of places of `ks` whose key is not in `visited`.
  unfoldable pub unseen : List K → List K → ℕ
  unfolding contains
  unseen visited [] = 0
  unseen visited (k ∷ ks) = (if contains visited k then 0 else 1) + unseen visited ks

  pub unseen-length : (visited ks : List K) → unseen visited ks ≤ length ks
  unfolding unseen
  unseen-length visited [] = omega arith
  unseen-length visited (k ∷ ks) = elim (Bool-cases (contains visited k)) [
    | inl y ↦ rw (y) (omega (arith, unseen-length visited ks))
    | inr n ↦ rw (n) (omega (arith, unseen-length visited ks))
  ]

  unseen_cons :
      (visited : List K) (k : K) (ks : List K) → unseen (k ∷ visited) ks ≤ unseen visited ks
  unfolding unseen
  unseen_cons visited k [] = omega arith
  unseen_cons visited k (x ∷ ks) = elim (Bool-cases (k =? x)) [
    | inl y ↦ rw (contains_here k x visited y) (omega (arith, unseen_cons visited k ks))
    | inr n ↦ rw (contains_cons k x visited n) (omega (arith, unseen_cons visited k ks))
  ]

  -- A key that was not visited counts no more when it is.
  pub unseen_less :
      (visited : List K) (k : K) (ks : List K)
      → contains visited k ≡ false
      → IsIn ks k
      → unseen (k ∷ visited) ks < unseen visited ks
  unfolding unseen contains
  unseen_less visited k [] f h = absurd (cc h)
  unseen_less visited k (x ∷ ks) f h = elim (Bool-cases (k =? x)) [
    | inl y ↦
        rw (contains_here k x visited y, sym (ap (contains visited) (eq_of_=? k x y)), f)
          (omega (arith, unseen_cons visited k ks))
    | inr n ↦ elim (IsIn-cases x k ks h) [
      | inl p ↦ absurd (ne_of_=? k x n (sym p))
      | inr r ↦ rw (contains_cons k x visited n) (omega (arith, unseen_less visited k ks f r))
    ]
  ]

  pub IsIn-reversed : (xs : List K) (a : K) → IsIn (reversed xs) a → IsIn xs a
  unfolding reversed contains
  IsIn-reversed [] a h = h
  IsIn-reversed (x ∷ xs) a h = elim (IsIn-append_cases (reversed xs) (x ∷ []) a h) [
    | inl i ↦ IsIn-later x a xs (IsIn-reversed xs a i)
    | inr i ↦ elim (IsIn-cases x a [] i) [ inl p ↦ IsIn-here x a xs p | inr n ↦ absurd (cc n) ]
  ]

  pub reversed-IsIn : (xs : List K) (a : K) → IsIn xs a → IsIn (reversed xs) a
  unfolding reversed contains
  reversed-IsIn [] a h = h
  reversed-IsIn (x ∷ xs) a h = elim (IsIn-cases x a xs h) [
    | inl p ↦ IsIn-append_right (reversed xs) (x ∷ []) a (IsIn-here x a [] p)
    | inr r ↦ IsIn-append_left (reversed xs) (x ∷ []) a (reversed-IsIn xs a r)
  ]

module _ {ℓ} {K : Type ℓ} ⦃e : Eq K⦄ (next_keys : K → Option (List K)) where
  -- `n` is `k`, or what `k` pushes leads to it.
  pub data Leads : K → K → Type ℓ where
    here : (k : K) → Leads k k
    through : (k m n : K) (ks : List K) → next_keys k ≡ some ks → IsIn ks m → Leads m n → Leads k n

  -- What one round finds: the end, or the key `k` with what it pushes.
  pub record Found (stack visited : List K) : Type ℓ where
    pub key : K
    pub pushed : List K
    pub rest : List K
    pub found :
        next_from next_keys stack visited
        ≡ some (some key, record { stack = reversed pushed ++ rest; visited = key ∷ visited })
    pub pushes : next_keys key ≡ some pushed
    pub fresh : contains visited key ≡ false
    pub was_in : IsIn stack key
    pub kept : (x : K) → IsIn rest x → IsIn stack x
    pub split : (x : K) → IsIn stack x → (IsIn visited x ⊎ (key ≡ x)) ⊎ IsIn rest x

  abbrev pub Ended : List K → List K → Type ℓ
  Ended stack visited =
      (next_from next_keys stack visited ≡ some (none, record { stack = []; visited = visited }))
      × ((x : K) → IsIn stack x → IsIn visited x)

  module _ (all : List K)
      (closed : (k : K)
        → IsIn all k
        → (ks : List K) × (next_keys k ≡ some ks) × ((x : K) → IsIn ks x → IsIn all x)) where
    pub round :
        (stack visited : List K)
        → ((x : K) → IsIn stack x → IsIn all x)
        → Ended stack visited ⊎ Found stack visited
    unfolding next_from contains
    round [] visited within = inl (refl, λ x h. absurd (cc h))
    round (k ∷ stack) visited within = elim (Bool-cases (contains visited k)) [
      | inl y ↦ elim (round stack visited (λ x h. within x (IsIn-later k x stack h))) [
        | inl (p, ends) ↦ inl (
          rw (y) p,
          λ x h. elim (IsIn-cases k x stack h) [
            | inl q ↦ subst (IsIn visited) q y
            | inr r ↦ ends x r
          ],
        )
        | inr w ↦ inr (record {
          key = w.key;
          pushed = w.pushed;
          rest = w.rest;
          found = rw (y) w.found;
          pushes = w.pushes;
          fresh = w.fresh;
          was_in = IsIn-later k w.key stack w.was_in;
          kept = λ x h. IsIn-later k x stack (w.kept x h);
          split = λ x h. elim (IsIn-cases k x stack h) [
            | inl q ↦ inl (inl (subst (IsIn visited) q y))
            | inr r ↦ w.split x r
          ];
        })
      ]
      | inr n ↦
          let (ks, p, c) = closed k (within k (IsIn-here k k stack refl)) in
          inr (record {
            key = k;
            pushed = ks;
            rest = stack;
            found = rw (n, p) refl;
            pushes = p;
            fresh = n;
            was_in = IsIn-here k k stack refl;
            kept = λ x h. IsIn-later k x stack h;
            split = λ x h. elim (IsIn-cases k x stack h) [ inl q ↦ inl (inr q) | inr r ↦ inr r ];
          })
    ]
