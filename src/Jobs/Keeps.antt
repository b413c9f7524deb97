-- ===== src/Jobs/Keeps.antt =====
-- src/effects.rs: the trackers that the operations lead to.
use beelay.Prelude.{ℕ, zero, suc, Bool, List, [], ◌∷◌, Option, none, some, length, ◌≡◌, get_elem?}
use beelay.Prelude.{refl, ap, sym, ◌∙◌, arith, inl, inr, Option-cases, length-append, subst}
use beelay.Prelude.{Bool-cases, true, false}
use beelay.Prelude.Equality.{Eq, ◌=?◌, eq_of_=?, ne_of_=?}
use beelay.Prelude.Assoc.{lookup, insert, remove, lookup-insert, lookup-insert_other}
use beelay.Prelude.Assoc.{lookup-insert_cases, lookup-remove_other, lookup-remove-some}
use beelay.Jobs.{JobTracker, replace, new, add_initiator, add_task, or_default, run, pop_new_jobs}
use beelay.Jobs.{complete_job, poll, fill, take_initiators}
use beelay.Jobs.Waking.{IsJobTracker, run-running, run-new, added}

module _ {Descriptor Task : Type 0} ⦃ed : Eq Descriptor⦄ ⦃et : Eq Task⦄ where
  initiators-kept :
      (t : Task) (d e : Descriptor) (m : List (Descriptor × List Task))
      → (ts : List Task) × (lookup m e ≡ some ts)
      → (ts : List Task) × (lookup (add_initiator t d m) e ≡ some ts)
  unfolding add_initiator
  initiators-kept t d e m w =
      let v = add_task t (or_default (lookup m d)) in
      elim (Bool-cases (d =? e)) [
        | inl y ↦ (
          v,
          subst (λ x. lookup (insert d v m) x ≡ some v) (eq_of_=? d e y) (lookup-insert d v m),
        )
        | inr n ↦ (w.0, lookup-insert_other d e v m (ne_of_=? d e n) ∙ w.1)
      ]

module _ {A : Type 0} where
  length-replace : (xs : List A) (i : ℕ) (a : A) → length (replace i a xs) ≡ length xs
  unfolding replace
  length-replace [] i a = refl
  length-replace (x ∷ xs) zero a = refl
  length-replace (x ∷ xs) (suc i) a = ap suc (length-replace xs i a)

module _ {Descriptor Payload Task Answer : Type 0} ⦃ed : Eq Descriptor⦄ ⦃et : Eq Task⦄ where
  -- The trackers that the operations lead to.
  pub data Reachable : JobTracker Descriptor Payload Task Answer → Type 0 where
    start : Reachable new
    after_run :
        (t : Task) (d : Descriptor) (p : Payload) (j : JobTracker Descriptor Payload Task Answer)
        → Reachable j
        → Reachable (run t d p j).0
    after_pop :
        (j : JobTracker Descriptor Payload Task Answer) → Reachable j → Reachable (pop_new_jobs j).0
    after_complete :
        (debug : Bool) (d : Descriptor) (a : Answer)
        (j j' : JobTracker Descriptor Payload Task Answer) (ts : List Task)
        → Reachable j
        → complete_job debug d a j ≡ some (j', ts)
        → Reachable j'
    after_poll :
        (cell : ℕ) (j : JobTracker Descriptor Payload Task Answer)
        → Reachable j
        → Reachable (poll cell j).0

  new-IsJobTracker :
      IsJobTracker
        (new {Descriptor = Descriptor} {Payload = Payload} {Task = Task} {Answer = Answer})
  unfolding new lookup
  new-IsJobTracker = record {
    in_bounds = λ d c h. absurd (cc h);
    has_initiators = λ d c h. absurd (cc h);
  }

  run-IsJobTracker :
      (t : Task) (d : Descriptor) (p : Payload) (j : JobTracker Descriptor Payload Task Answer)
      → IsJobTracker j
      → IsJobTracker (run t d p j).0
  run-IsJobTracker t d p j i = elim (Option-cases (lookup j.running d)) [
    | inl n ↦
        subst (λ r. IsJobTracker r.0) (sym (run-new t d p j n))
          (record {
            in_bounds = λ e c h. elim (lookup-insert_cases d e (length j.cells) c j.running h) [
              | inl (q, r) ↦ omega (arith, length-append j.cells (none ∷ []))
              | inr (q, r) ↦ omega (arith, i.in_bounds e c r, length-append j.cells (none ∷ []))
            ];
            has_initiators = λ e c h.
                elim (lookup-insert_cases d e (length j.cells) c j.running h) [
                  | inl (q, r) ↦
                      let (ts, l, k) = added t d j.initiators_by_job in
                      (
                        ts,
                        subst (λ x. lookup (add_initiator t d j.initiators_by_job) x ≡ some ts) q l,
                      )
                  | inr (q, r) ↦ initiators-kept t d e j.initiators_by_job (i.has_initiators e c r)
                ];
          })
    | inr (c, y) ↦
        subst (λ r. IsJobTracker r.0) (sym (run-running t d p j c y))
          (record {
            in_bounds = i.in_bounds;
            has_initiators =
                λ e c h. initiators-kept t d e j.initiators_by_job (i.has_initiators e c h);
          })
  ]

  fill-IsJobTracker-none :
      (d : Descriptor) (j : JobTracker Descriptor Payload Task Answer)
      → IsJobTracker j
      → lookup j.running d ≡ none
      → IsJobTracker (record j { initiators_by_job = remove d j.initiators_by_job })
  fill-IsJobTracker-none d j i n = record {
    in_bounds = i.in_bounds;
    has_initiators = λ e c h.
        let (ts, l) = i.has_initiators e c h in
        (
          ts,
          lookup-remove_other d e j.initiators_by_job
                (λ q. cc (h, subst (λ x. lookup j.running x ≡ none) q n))
              ∙ l,
        );
  }

  fill-IsJobTracker-some :
      (d : Descriptor) (cell : ℕ) (a : Answer) (j : JobTracker Descriptor Payload Task Answer)
      → IsJobTracker j
      → IsJobTracker (record j {
        running = remove d j.running;
        initiators_by_job = remove d j.initiators_by_job;
        cells = replace cell (some a) j.cells;
      })
  fill-IsJobTracker-some d cell a j i = record {
    in_bounds = λ e c h.
        let (q, r) = lookup-remove-some d e c j.running h in
        omega (arith, i.in_bounds e c r, length-replace j.cells cell (some a));
    has_initiators = λ e c h.
        let (q, r) = lookup-remove-some d e c j.running h in
        let (ts, l) = i.has_initiators e c r in
        (ts, lookup-remove_other d e j.initiators_by_job q ∙ l);
  }

  tracker_of :
      JobTracker Descriptor Payload Task Answer
      → Option (JobTracker Descriptor Payload Task Answer × List Task)
      → JobTracker Descriptor Payload Task Answer
  tracker_of j none = j
  tracker_of j (some r) = r.0

  missing-IsJobTracker :
      (debug : Bool) (d : Descriptor) (a : Answer) (j : JobTracker Descriptor Payload Task Answer)
      → IsJobTracker j
      → lookup j.running d ≡ none
      → IsJobTracker (tracker_of j (complete_job debug d a j))
  unfolding complete_job fill tracker_of
  missing-IsJobTracker true d a j i n = rw (complete_job, n) i
  missing-IsJobTracker false d a j i n = elim (Option-cases (lookup j.initiators_by_job d)) [
    | inl m ↦ rw (complete_job, n, take_initiators, m) i
    | inr (ts, m) ↦ rw (complete_job, n, take_initiators, m) (fill-IsJobTracker-none d j i n)
  ]

  complete_job-IsJobTracker :
      (debug : Bool) (d : Descriptor) (a : Answer) (j : JobTracker Descriptor Payload Task Answer)
      → IsJobTracker j
      → IsJobTracker (tracker_of j (complete_job debug d a j))
  unfolding complete_job fill tracker_of
  complete_job-IsJobTracker debug d a j i = elim (Option-cases (lookup j.running d)) [
    | inl n ↦ missing-IsJobTracker debug d a j i n
    | inr (c, y) ↦
        let (ts, m) = i.has_initiators d c y in
        rw (complete_job, y, take_initiators, m) (fill-IsJobTracker-some d c a j i)
  ]

  poll-IsJobTracker :
      (cell : ℕ) (j : JobTracker Descriptor Payload Task Answer)
      → IsJobTracker j
      → IsJobTracker (poll cell j).0
  unfolding poll
  poll-IsJobTracker cell j i = elim (Option-cases (get_elem? j.cells cell)) [
    | inl n ↦ rw (poll, n) i
    | inr (none, y) ↦ rw (poll, y) i
    | inr (some a, y) ↦
        rw (poll, y)
          (record {
            in_bounds = λ e c h. omega (arith, i.in_bounds e c h, length-replace j.cells cell none);
            has_initiators = i.has_initiators;
          })
  ]

  -- In every tracker that the operations lead to, each running job has a cell and initiators.
  pub Reachable-IsJobTracker :
      (j : JobTracker Descriptor Payload Task Answer) → Reachable j → IsJobTracker j
  unfolding pop_new_jobs tracker_of
  Reachable-IsJobTracker j start = new-IsJobTracker
  Reachable-IsJobTracker j (after_run t d p k r) =
      run-IsJobTracker t d p k (Reachable-IsJobTracker k r)
  Reachable-IsJobTracker j (after_pop k r) =
      let i = Reachable-IsJobTracker k r in
      record { in_bounds = i.in_bounds; has_initiators = i.has_initiators }
  Reachable-IsJobTracker j (after_complete debug d a k j' ts r e) =
      subst (λ o. IsJobTracker (tracker_of k o)) e
        (complete_job-IsJobTracker debug d a k (Reachable-IsJobTracker k r))
  Reachable-IsJobTracker j (after_poll cell k r) =
      poll-IsJobTracker cell k (Reachable-IsJobTracker k r)
