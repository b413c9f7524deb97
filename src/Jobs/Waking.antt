-- ===== src/Jobs/Waking.antt =====
-- src/effects.rs: what a job's initiators are promised.
use beelay.Prelude.{sym, subst, inl, inr, refl, suc, zero, arith, [], get_elem?, Bool-cases}
use beelay.Prelude.{length, ◌∷◌, ap, none, some, true, ◌++◌, ◌<◌, Bool, List, ℕ, ◌≡◌}
use beelay.Prelude.{Option-cases, length-append}
use beelay.Prelude.{All, ◌∙◌}
use mathlib.Core.Option.{some_inj}
use beelay.Prelude.Equality.{Eq, contains, =?-refl, IsIn-append_left, IsIn-All}
use beelay.Prelude.Assoc.{lookup, insert, remove, lookup-insert}
use beelay.Jobs.{JobTracker, replace, add_task, or_default, add_initiator, run, pop_new_jobs}
use beelay.Jobs.{fill, take_initiators, complete_job, poll}

module _ {ℓ} {A : Type ℓ} where
  get_elem?-replace :
      (xs : List A) (i : ℕ) (a : A) → i < length xs → get_elem? (replace i a xs) i ≡ some a
  unfolding replace
  get_elem?-replace [] i a h = absurd (omega arith)
  get_elem?-replace (x ∷ xs) zero a h = refl
  get_elem?-replace (x ∷ xs) (suc i) a h = get_elem?-replace xs i a (omega arith)

  length-replace : (xs : List A) (i : ℕ) (a : A) → length (replace i a xs) ≡ length xs
  unfolding replace
  length-replace [] i a = refl
  length-replace (x ∷ xs) zero a = refl
  length-replace (x ∷ xs) (suc i) a = ap suc (length-replace xs i a)

module _ {T : Type 0} ⦃et : Eq T⦄ where
  contains-append : (ts : List T) (t : T) → contains (ts ++ t ∷ []) t ≡ true
  unfolding contains
  contains-append [] t = rw (=?-refl t) refl
  contains-append (x ∷ ts) t = ground (arith, contains-append ts t)

  contains-add_task : (t : T) (ts : List T) → contains (add_task t ts) t ≡ true
  unfolding add_task
  contains-add_task t ts = elim (Bool-cases (contains ts t)) [
    | inl y ↦ rw (y) y
    | inr n ↦ rw (n) (contains-append ts t)
  ]

  add_task-kept : (t u : T) (ts : List T) → contains ts u ≡ true → contains (add_task t ts) u ≡ true
  unfolding add_task
  add_task-kept t u ts i = elim (Bool-cases (contains ts t)) [
    | inl y ↦ rw (y) i
    | inr n ↦ rw (n) (IsIn-append_left ts (t ∷ []) u i)
  ]

  All-add_task : (t : T) (ts : List T) → All (λ u. contains (add_task t ts) u ≡ true) ts
  All-add_task t ts =
      IsIn-All (λ u. contains (add_task t ts) u ≡ true) ts (λ u i. add_task-kept t u ts i)

module _ {Descriptor Task : Type 0} ⦃ed : Eq Descriptor⦄ ⦃et : Eq Task⦄ where
  lookup-add_initiator :
      (t : Task) (d : Descriptor) (m : List (Descriptor × List Task))
      → lookup (add_initiator t d m) d ≡ some (add_task t (or_default (lookup m d)))
  unfolding add_initiator
  lookup-add_initiator t d m = lookup-insert d (add_task t (or_default (lookup m d))) m

  pub added :
      (t : Task) (d : Descriptor) (m : List (Descriptor × List Task))
      → (ts : List Task) × (lookup (add_initiator t d m) d ≡ some ts) × (contains ts t ≡ true)
  unfolding add_initiator
  added t d m = (
    add_task t (or_default (lookup m d)),
    lookup-insert d (add_task t (or_default (lookup m d))) m,
    contains-add_task t (or_default (lookup m d)),
  )

module _ {Descriptor Payload Task Answer : Type 0} ⦃ed : Eq Descriptor⦄ ⦃et : Eq Task⦄ where
  -- Each running job has a cell and initiators.
  pub record IsJobTracker (j : JobTracker Descriptor Payload Task Answer) : Type 0 where
    pub in_bounds : (d : Descriptor) (c : ℕ) → lookup j.running d ≡ some c → c < length j.cells
    pub has_initiators :
        (d : Descriptor) (c : ℕ)
        → lookup j.running d ≡ some c
        → (ts : List Task) × (lookup j.initiators_by_job d ≡ some ts)

  -- What `run` leaves of the job `d`, whether it was running or not.
  record Started (t : Task) (d : Descriptor) (j : JobTracker Descriptor Payload Task Answer)
      (cell : ℕ) : Type 0 where
    pub place : lookup j.running d ≡ some cell
    pub bound : cell < length j.cells
    pub waiting :
        (ts : List Task) × (lookup j.initiators_by_job d ≡ some ts) × (contains ts t ≡ true)

  pub run-running :
      (t : Task) (d : Descriptor) (p : Payload) (j : JobTracker Descriptor Payload Task Answer)
      (c : ℕ)
      → lookup j.running d ≡ some c
      → run t d p j ≡ (record j { initiators_by_job = add_initiator t d j.initiators_by_job }, c)
  unfolding run
  run-running t d p j c h = rw (h, run) refl

  pub run-new :
      (t : Task) (d : Descriptor) (p : Payload) (j : JobTracker Descriptor Payload Task Answer)
      → lookup j.running d ≡ none
      → run t d p j ≡ (
        record {
          fresh = j.fresh ++ (d, p) ∷ [];
          running = insert d (length j.cells) j.running;
          initiators_by_job = add_initiator t d j.initiators_by_job;
          cells = j.cells ++ none ∷ [];
        },
        length j.cells,
      )
  unfolding run
  run-new t d p j h = rw (h, run) refl

  -- The task joins those that asked before.
  run-initiators :
      (t : Task) (d : Descriptor) (p : Payload) (j : JobTracker Descriptor Payload Task Answer)
      → lookup (run t d p j).0.initiators_by_job d
        ≡ some (add_task t (or_default (lookup j.initiators_by_job d)))
  run-initiators t d p j =
      let r = lookup-add_initiator t d j.initiators_by_job in
      elim (Option-cases (lookup j.running d)) [
        | inl n ↦ ap (λ x. lookup x.0.initiators_by_job d) (run-new t d p j n) ∙ r
        | inr (c, y) ↦ ap (λ x. lookup x.0.initiators_by_job d) (run-running t d p j c y) ∙ r
      ]

  run-Started :
      (t : Task) (d : Descriptor) (p : Payload) (j : JobTracker Descriptor Payload Task Answer)
      → IsJobTracker j
      → Started t d (run t d p j).0 (run t d p j).1
  run-Started t d p j ok_j = elim (Option-cases (lookup j.running d)) [
    | inl n ↦
        subst (λ r. Started t d r.0 r.1) (sym (run-new t d p j n))
          (record {
            place = lookup-insert d (length j.cells) j.running;
            bound = omega (arith, length-append j.cells (none ∷ []));
            waiting = added t d j.initiators_by_job;
          })
    | inr (c, y) ↦
        subst (λ r. Started t d r.0 r.1) (sym (run-running t d p j c y))
          (record {
            place = y;
            bound = ok_j.in_bounds d c y;
            waiting = added t d j.initiators_by_job;
          })
  ]

  poll_taken :
      (cell : ℕ) (a : Answer) (j : JobTracker Descriptor Payload Task Answer)
      → cell < length j.cells
      → get_elem? j.cells cell ≡ some (some a)
      → ((poll cell j).1 ≡ some a) × ((poll cell (poll cell j).0).1 ≡ none)
  unfolding poll
  poll_taken cell a j b p =
      let e : poll cell j ≡ (record j { cells = replace cell none j.cells }, some a) =
        rw (poll, p) refl in
      (
        ap (λ r. r.1) e,
        ap (λ r. (poll cell r.0).1) e ∙ rw (poll, get_elem?-replace j.cells cell none b) refl,
      )

  complete-Started :
      (debug : Bool) (t : Task) (d : Descriptor) (a : Answer)
      (j : JobTracker Descriptor Payload Task Answer) (cell : ℕ)
      → Started t d j cell
      → (j' : JobTracker Descriptor Payload Task Answer) × (ts : List Task) × (complete_job debug d
            a j
          ≡ some (j', ts))
        × (lookup j.initiators_by_job d ≡ some ts)
        × ((poll cell j').1 ≡ some a)
        × ((poll cell (poll cell j').0).1 ≡ none)
  unfolding complete_job fill take_initiators
  complete-Started debug t d a j cell s =
      let (ts, w, c) = s.waiting in
      let j' = record j {
        running = remove d j.running;
        initiators_by_job = remove d j.initiators_by_job;
        cells = replace cell (some a) j.cells;
      } in
      let (first, second) =
        poll_taken cell a j' (omega (arith, length-replace j.cells cell (some a), s.bound))
          (get_elem?-replace j.cells cell (some a) s.bound) in
      (j', ts, rw (complete_job, s.place, take_initiators, w) refl, w, first, second)

  -- In a tracker where each running job has a cell and initiators: when a job completes that a task
  -- has asked for, whether it was running already or not and with the new jobs handed out in
  -- between, that task is woken and so is every task that asked before it. The first poll of the cell
  -- that the task was given finds the answer and takes it out, and the next poll finds nothing.
  pub complete_job-run :
      (debug : Bool) (t : Task) (d : Descriptor) (p : Payload) (a : Answer)
      (j : JobTracker Descriptor Payload Task Answer)
      → IsJobTracker j
      → (j' : JobTracker Descriptor Payload Task Answer) × (ts : List Task) × (complete_job debug d
            a
            (pop_new_jobs (run t d p j).0).0
          ≡ some (j', ts))
        × (contains ts t ≡ true)
        × All (λ u. contains ts u ≡ true) (or_default (lookup j.initiators_by_job d))
        × ((poll (run t d p j).1 j').1 ≡ some a)
        × ((poll (run t d p j).1 (poll (run t d p j).1 j').0).1 ≡ none)
  unfolding pop_new_jobs
  complete_job-run debug t d p a j ok_j =
      let s = run-Started t d p j ok_j in
      let (j', ts, e, w, first, second) =
        complete-Started debug t d a (pop_new_jobs (run t d p j).0).0 (run t d p j).1
          (record { place = s.place; bound = s.bound; waiting = s.waiting }) in
      let those = some_inj.0 (sym w ∙ run-initiators t d p j) in
      (
        j',
        ts,
        e,
        subst (λ l. contains l t ≡ true) (sym those)
            (contains-add_task t (or_default (lookup j.initiators_by_job d))),
        subst (λ l. All (λ u. contains l u ≡ true) (or_default (lookup j.initiators_by_job d)))
            (sym those) (All-add_task t (or_default (lookup j.initiators_by_job d))),
        first,
        second,
      )

  -- In a tracker where each running job has a cell and initiators: a second request for a job queues nothing and gets the same cell.
  pub run-run :
      (t u : Task) (d : Descriptor) (p q : Payload) (j : JobTracker Descriptor Payload Task Answer)
      → IsJobTracker j
      → ((run u d q (run t d p j).0).0.fresh ≡ (run t d p j).0.fresh)
        × ((run u d q (run t d p j).0).1 ≡ (run t d p j).1)
  run-run t u d p q j ok_j =
      let e = run-running u d q (run t d p j).0 (run t d p j).1 (run-Started t d p j ok_j).place in
      (ap (λ r. r.0.fresh) e, ap (λ r. r.1) e)
