-- ===== src/Jobs.antt =====
-- src/effects.rs: `JobTracker`, which starts a job once, whoever asks for it, and wakes everyone who
-- asked when it completes; with the future that waits for its result. The shared cell of a job
-- (`Rc<RefCell<Option<Result>>>`) is a place in `cells`.
pub mod Waking
pub mod Keeps
use beelay.Prelude.{ℕ, zero, suc, Bool, true, false, List, [], ◌∷◌, ◌++◌, Option, none, some}
use beelay.Prelude.{length, get_elem?, if◌then◌else◌}
use beelay.Prelude.Equality.{Eq, ◌=?◌, contains}
use beelay.Prelude.Assoc.{lookup, insert, remove}

pub record JobTracker (Descriptor Payload Task Answer : Type 0) : Type 0 where
  pub fresh : List (Descriptor × Payload)
  pub running : List (Descriptor × ℕ)
  pub initiators_by_job : List (Descriptor × List Task)
  pub cells : List (Option Answer)

-- `RefCell::replace`
unfoldable pub replace {ℓ} : {A : Type ℓ} → ℕ → A → List A → List A
replace i a [] = []
replace zero a (x ∷ xs) = a ∷ xs
replace (suc i) a (x ∷ xs) = x ∷ replace i a xs

module _ {Task : Type 0} where
  unfoldable pub or_default : Option (List Task) → List Task
  or_default none = []
  or_default (some ts) = ts

module _ {Task : Type 0} ⦃et : Eq Task⦄ where
  -- `HashSet::insert`
  unfoldable pub add_task : Task → List Task → List Task
  unfolding contains
  add_task t ts = if contains ts t then ts else ts ++ t ∷ []

module _ {Descriptor Task : Type 0} ⦃ed : Eq Descriptor⦄ ⦃et : Eq Task⦄ where
  -- `initiators_by_job.entry(descriptor).or_default().insert(initiator)`
  unfoldable pub add_initiator :
      Task → Descriptor → List (Descriptor × List Task) → List (Descriptor × List Task)
  unfolding add_task or_default lookup insert
  add_initiator t d m = insert d (add_task t (or_default (lookup m d))) m

module _ {Descriptor Payload Task Answer : Type 0} where
  unfoldable pub new : JobTracker Descriptor Payload Task Answer
  new = record { fresh = []; running = []; initiators_by_job = []; cells = [] }

module _ {Descriptor Payload Task Answer : Type 0} ⦃ed : Eq Descriptor⦄ ⦃et : Eq Task⦄ where
  -- The tracker, and the place of the cell that the caller gets.
  unfoldable pub run :
      Task
      → Descriptor
      → Payload
      → JobTracker Descriptor Payload Task Answer
      → JobTracker Descriptor Payload Task Answer × ℕ
  unfolding add_initiator lookup insert
  run initiator d payload j = elim (lookup j.running d) [
    | some cell ↦
        (record j { initiators_by_job = add_initiator initiator d j.initiators_by_job }, cell)
    | none ↦ (
      record {
        fresh = j.fresh ++ (d, payload) ∷ [];
        running = insert d (length j.cells) j.running;
        initiators_by_job = add_initiator initiator d j.initiators_by_job;
        cells = j.cells ++ none ∷ [];
      },
      length j.cells,
    )
  ]

  unfoldable pub pop_new_jobs :
      JobTracker Descriptor Payload Task Answer
      → JobTracker Descriptor Payload Task Answer × List (Descriptor × Payload)
  pop_new_jobs j = (record j { fresh = [] }, j.fresh)

  -- The cell of a running job gets the answer. `none` is the panic of a debug build.
  unfoldable pub fill :
      Bool
      → Descriptor
      → Answer
      → JobTracker Descriptor Payload Task Answer
      → Option (JobTracker Descriptor Payload Task Answer)
  unfolding lookup remove replace
  fill debug d a j = elim (lookup j.running d) [
    | some cell ↦
        some (record j { running = remove d j.running; cells = replace cell (some a) j.cells })
    | none ↦ if debug then none else some j
  ]

  unfoldable pub take_initiators :
      Bool
      → Descriptor
      → JobTracker Descriptor Payload Task Answer
      → Option (JobTracker Descriptor Payload Task Answer × List Task)
  unfolding lookup remove
  take_initiators debug d j = elim (lookup j.initiators_by_job d) [
    | some ts ↦ some (record j { initiators_by_job = remove d j.initiators_by_job }, ts)
    | none ↦ if debug then none else some (j, [])
  ]

  unfoldable pub complete_job :
      Bool
      → Descriptor
      → Answer
      → JobTracker Descriptor Payload Task Answer
      → Option (JobTracker Descriptor Payload Task Answer × List Task)
  unfolding fill take_initiators
  complete_job debug d a j = elim (fill debug d a j) [
    | some j' ↦ take_initiators debug d j'
    | none ↦ none
  ]

  -- `TaskFuture::poll` on the cell: the answer is taken out, `none` is `Poll::Pending`.
  unfoldable pub poll :
      ℕ
      → JobTracker Descriptor Payload Task Answer
      → JobTracker Descriptor Payload Task Answer × Option Answer
  unfolding replace
  poll cell j = elim (get_elem? j.cells cell) [
    | some (some a) ↦ (record j { cells = replace cell none j.cells }, some a)
    | some none ↦ (j, none)
    | none ↦ (j, none)
  ]
