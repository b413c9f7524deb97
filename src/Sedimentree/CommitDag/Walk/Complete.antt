-- ===== src/Sedimentree/CommitDag/Walk/Complete.antt =====
-- src/sedimentree/commit_dag.rs: a walk ends, and visits each of the keys that its stack leads to
-- once.
use mathlib.Core.Option.{some_inj}
use beelay.Prelude.{ℕ, zero, suc, ◌<◌, ◌≡◌, ◌≢◌, refl, sym, ap, ◌∙◌, arith, List, [], ◌∷◌, ◌++◌}
use beelay.Prelude.{Option, some, false, inl, inr, ◌⊎◌, subst, length, ◌↔◌}
use beelay.Prelude.Equality.{Eq, contains, IsIn, IsIn-cases, IsIn-here, IsIn-later}
use beelay.Prelude.Equality.{IsIn-append_cases, IsIn-append_left, IsIn-append_right}
use beelay.Prelude.Equality.{contains_uncons, IsIn-All}
use beelay.Prelude.Pairwise.{Pairwise}
use beelay.Sedimentree.CommitDag.Walk.{collect, reversed}
use beelay.Sedimentree.CommitDag.Walk.Round.{Found, Leads, round, unseen, unseen-length}
use beelay.Sedimentree.CommitDag.Walk.Round.{unseen_less, IsIn-reversed, reversed-IsIn}

module _ {ℓ} {K : Type ℓ} ⦃e : Eq K⦄ (next_keys : K → Option (List K)) where
  module _ (all : List K)
      (closed : (k : K)
        → IsIn all k
        → (ks : List K) × (next_keys k ≡ some ks) × ((x : K) → IsIn ks x → IsIn all x)) where
    -- What the whole walk gives from a stack and the keys that were visited.
    record Walks (stack visited : List K) (fuel : ℕ) : Type ℓ where
      keys : List K
      done : collect next_keys fuel stack visited ≡ some keys
      once : Pairwise (λ x y. x ≢ y) keys
      fresh_keys : (x : K) → IsIn keys x → contains visited x ≡ false
      covers : (x : K) → IsIn stack x → IsIn visited x ⊎ IsIn keys x
      onward :
          (k x : K) (ks : List K)
          → IsIn keys k
          → next_keys k ≡ some ks
          → IsIn ks x
          → IsIn visited x ⊎ IsIn keys x
      led : (x : K) → IsIn keys x → (s : K) × IsIn stack s × Leads next_keys s x

    -- The rest of a walk behind the round that found `w.key`.
    module _ (stack visited : List K) (fuel : ℕ) (w : Found next_keys stack visited)
        (v : Walks (reversed w.pushed ++ w.rest) (w.key ∷ visited) fuel) where
      seen_or_key :
          (x : K)
          → IsIn (w.key ∷ visited) x ⊎ IsIn v.keys x
          → IsIn visited x ⊎ IsIn (w.key ∷ v.keys) x
      seen_or_key x (inl i) = elim (IsIn-cases w.key x visited i) [
        | inl q ↦ inr (IsIn-here w.key x v.keys q)
        | inr r ↦ inl r
      ]
      seen_or_key x (inr i) = inr (IsIn-later w.key x v.keys i)

      led_by :
          (x s : K)
          → IsIn (reversed w.pushed ++ w.rest) s
          → Leads next_keys s x
          → (r : K) × IsIn stack r × Leads next_keys r x
      led_by x s i l = elim (IsIn-append_cases (reversed w.pushed) w.rest s i) [
        | inl p ↦ (
          w.key,
          w.was_in,
          Leads.through w.key s x w.pushed w.pushes (IsIn-reversed w.pushed s p) l,
        )
        | inr r ↦ (s, w.kept s r, l)
      ]

      and_so_on : Walks stack visited (suc fuel)
      unfolding collect
      and_so_on = record {
        keys = w.key ∷ v.keys;
        done = rw (collect, w.found, v.done) refl;
        once = (
          IsIn-All (λ x. w.key ≢ x) v.keys
              (λ x i q. cc (IsIn-here w.key x visited q, v.fresh_keys x i)),
          v.once,
        );
        fresh_keys = λ x i. elim (IsIn-cases w.key x v.keys i) [
          | inl q ↦ sym (ap (contains visited) q) ∙ w.fresh
          | inr r ↦ contains_uncons w.key x visited (v.fresh_keys x r)
        ];
        covers = λ x i. elim (w.split x i) [
          | inl (inl y) ↦ inl y
          | inl (inr q) ↦ inr (IsIn-here w.key x v.keys q)
          | inr r ↦ seen_or_key x (v.covers x (IsIn-append_right (reversed w.pushed) w.rest x r))
        ];
        onward = λ k x ks i p j. elim (IsIn-cases w.key k v.keys i) [
          | inl q ↦
              let same = some_inj.0 (sym p ∙ sym (ap next_keys q) ∙ w.pushes) in
              seen_or_key x (
                v.covers x (
                  IsIn-append_left (reversed w.pushed) w.rest x
                    (reversed-IsIn w.pushed x (subst (λ l. IsIn l x) same j))))
          | inr r ↦ seen_or_key x (v.onward k x ks r p j)
        ];
        led = λ x i. elim (IsIn-cases w.key x v.keys i) [
          | inl q ↦ (w.key, w.was_in, subst (Leads next_keys w.key) q (Leads.here w.key))
          | inr r ↦ let (s, j, l) = v.led x r in led_by x s j l
        ];
      }

    walks :
        (fuel : ℕ) (stack visited : List K)
        → ((x : K) → IsIn stack x → IsIn all x)
        → unseen visited all < fuel
        → Walks stack visited fuel
    unfolding collect contains
    walks zero stack visited within f = absurd (omega arith)
    walks (suc fuel) stack visited within f =
        elim (round next_keys all closed stack visited within) [
          | inl (p, ends) ↦ record {
            keys = [];
            done = rw (collect, p) refl;
            once = tt;
            fresh_keys = λ x i. absurd (cc i);
            covers = λ x i. inl (ends x i);
            onward = λ k x ks i p j. absurd (cc i);
            led = λ x i. absurd (cc i);
          }
          | inr w ↦
              let less = unseen_less visited w.key all w.fresh (within w.key w.was_in) in
              let (ks, p, c) = closed w.key (within w.key w.was_in) in
              let same = some_inj.0 (sym w.pushes ∙ p) in
              and_so_on stack visited fuel w (
                walks fuel (reversed w.pushed ++ w.rest) (w.key ∷ visited)
                  (λ x i. elim (IsIn-append_cases (reversed w.pushed) w.rest x i) [
                    | inl j ↦ c x (subst (λ l. IsIn l x) same (IsIn-reversed w.pushed x j))
                    | inr j ↦ within x (w.kept x j)
                  ])
                  (omega arith))
        ]

    follow :
        (fuel : ℕ) (stack : List K) (w : Walks stack [] fuel) (k x : K)
        → IsIn w.keys k
        → Leads next_keys k x
        → IsIn w.keys x
    unfolding contains
    follow fuel stack w k _ i (Leads.here _) = i
    follow fuel stack w k x i (Leads.through _ m _ ks p j l) = elim (w.onward k m ks i p j) [
      | inl n ↦ absurd (cc n)
      | inr r ↦ follow fuel stack w m x r l
    ]

    -- With a round of fuel for each key and one for the end, the walk gives the keys that its start
    -- leads to, each once.
    pub collect-Leads :
        (start : K)
        → IsIn all start
        → (ks : List K) × (collect next_keys (suc (length all)) (start ∷ []) [] ≡ some ks)
          × Pairwise (λ x y. x ≢ y) ks
          × ((x : K) → IsIn ks x ↔ Leads next_keys start x)
    unfolding contains
    collect-Leads start i =
        let w =
          walks (suc (length all)) (start ∷ []) []
            (λ x j. elim (IsIn-cases start x [] j) [
              | inl p ↦ subst (IsIn all) p i
              | inr n ↦ absurd (cc n)
            ])
            (omega (arith, unseen-length [] all)) in
        (
          w.keys,
          w.done,
          w.once,
          λ x. (
            λ j.
                let (s, at, l) = w.led x j in
                elim (IsIn-cases start s [] at) [
                  | inl p ↦ subst (λ k. Leads next_keys k x) (sym p) l
                  | inr n ↦ absurd (cc n)
                ],
            λ l. elim (w.covers start (IsIn-here start start [] refl)) [
              | inl n ↦ absurd (cc n)
              | inr j ↦ follow (suc (length all)) (start ∷ []) w start x j l
            ],
          ),
        )
