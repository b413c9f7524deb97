-- ===== src/Effects/Pending.antt =====
-- src/effects.rs: the puts that are pending are those whose job runs.
use mathlib.Core.Option.{some_inj}
use beelay.Prelude.{ℕ, Bool, true, false, List, Option, none, some, ◌≡◌, refl, ap, sym, ◌∙◌, inl}
use beelay.Prelude.{inr, Option-cases, subst, length}
use beelay.Prelude.Equality.{Eq, nat_eq}
use beelay.Prelude.Assoc.{lookup, insert, remove}
use beelay.Prelude.SameKeys.{HaveSameKeys, insert-HaveSameKeys, insert-HaveSameKeys_left}
use beelay.Prelude.SameKeys.{remove-HaveSameKeys, remove-HaveSameKeys_left}
use beelay.Jobs
use beelay.Ids.{RequestId, PeerId, DocumentId}
use beelay.StorageKey.{StorageKey}
use beelay.StorageKey.Equality.{key_eq}
use beelay.Messages.Types.{Request}
use beelay.Jobs.{JobTracker, run, complete_job, fill, take_initiators, pop_new_jobs}
use beelay.Jobs.Waking.{run-running, run-new}
use beelay.Effects.{Io, new_io, IoResult, IoResultPayload, IncomingResponse, pop_new_tasks}
use beelay.Effects.{pop_new_requests, pop_new_notifications, complete, io_complete}
use beelay.Effects.{response_received, start_load, start_delete, start_ask, start_put}
use beelay.Effects.{start_request, start_load_range, DocEvent, emit_doc_event}

module _ {Descriptor Payload Task Answer : Type 0} ⦃ed : Eq Descriptor⦄ ⦃et : Eq Task⦄ where
  -- The jobs that run, `m` where there is a panic.
  abbrev running_of :
      Option (JobTracker Descriptor Payload Task Answer × List Task)
      → List (Descriptor × ℕ)
      → List (Descriptor × ℕ)
  running_of none m = m
  running_of (some r) m = r.0.running

  running_of-take_initiators :
      (debug : Bool) (d : Descriptor) (j : JobTracker Descriptor Payload Task Answer)
      → running_of (take_initiators debug d j) j.running ≡ j.running
  unfolding take_initiators
  running_of-take_initiators true d j = elim (Option-cases (lookup j.initiators_by_job d)) [
    | inl n ↦ rw (take_initiators, n) refl
    | inr (us, y) ↦ rw (take_initiators, y) refl
  ]
  running_of-take_initiators false d j = elim (Option-cases (lookup j.initiators_by_job d)) [
    | inl n ↦ rw (take_initiators, n) refl
    | inr (us, y) ↦ rw (take_initiators, y) refl
  ]

  running_of-complete_job-some :
      (debug : Bool) (d : Descriptor) (a : Answer) (c : ℕ)
      (j : JobTracker Descriptor Payload Task Answer)
      → lookup j.running d ≡ some c
      → running_of (complete_job debug d a j) (remove d j.running) ≡ remove d j.running
  unfolding complete_job fill
  running_of-complete_job-some debug d a c j y =
      rw (complete_job, fill, y)
        (running_of-take_initiators debug d
          (record j { running = remove d j.running; cells = Jobs.replace c (some a) j.cells }))

  running_of-complete_job-none :
      (debug : Bool) (d : Descriptor) (a : Answer) (j : JobTracker Descriptor Payload Task Answer)
      → lookup j.running d ≡ none
      → running_of (complete_job debug d a j) j.running ≡ j.running
  unfolding complete_job fill
  running_of-complete_job-none true d a j n = rw (complete_job, fill, n) refl
  running_of-complete_job-none false d a j n =
      rw (complete_job, fill, n) (running_of-take_initiators false d j)

module _ {Task : Type 0} ⦃et : Eq Task⦄ ⦃er : Eq RequestId⦄ where
  -- The ios that the operations lead to.
  pub data Reachable : Io Task → Type 0 where
    start : Reachable new_io
    after_load :
        (t : Task) (id : ℕ) (k : StorageKey) (io : Io Task)
        → Reachable io
        → Reachable (start_load t id k io).0
    after_load_range :
        (t : Task) (id : ℕ) (k : StorageKey) (io : Io Task)
        → Reachable io
        → Reachable (start_load_range t id k io).0
    after_put :
        (t : Task) (id : ℕ) (k : StorageKey) (v : List ℕ) (io : Io Task)
        → Reachable io
        → Reachable (start_put t id k v io).0
    after_delete :
        (t : Task) (id : ℕ) (k : StorageKey) (io : Io Task)
        → Reachable io
        → Reachable (start_delete t id k io).0
    after_ask :
        (t : Task) (id : ℕ) (d : DocumentId) (io : Io Task)
        → Reachable io
        → Reachable (start_ask t id d io).0
    after_request :
        (t : Task) (id : RequestId) (p : PeerId) (r : Request) (io : Io Task)
        → Reachable io
        → Reachable (start_request t id p r io).0
    after_emit : (e : DocEvent) (io : Io Task) → Reachable io → Reachable (emit_doc_event e io)
    after_pop_tasks : (io : Io Task) → Reachable io → Reachable (pop_new_tasks io).0
    after_pop_requests : (io : Io Task) → Reachable io → Reachable (pop_new_requests io).0
    after_pop_notifications : (io : Io Task) → Reachable io → Reachable (pop_new_notifications io).0
    after_complete :
        (debug : Bool) (r : IoResult) (io io' : Io Task) (ts : List Task)
        → Reachable io
        → io_complete debug r io ≡ some (io', ts)
        → Reachable io'
    after_response :
        (debug : Bool) (r : IncomingResponse) (io io' : Io Task) (ts : List Task)
        → Reachable io
        → response_received debug r io ≡ some (io', ts)
        → Reachable io'

  -- The puts that are pending are those whose job runs.
  abbrev pub IsPutting : Io Task → Type 0
  IsPutting io = HaveSameKeys io.pending_puts io.put.running

  start_put-IsPutting :
      (t : Task) (id : ℕ) (k : StorageKey) (v : List ℕ) (io : Io Task)
      → IsPutting io
      → IsPutting (start_put t id k v io).0
  unfolding start_put
  start_put-IsPutting t id k v io h = elim (Option-cases (lookup io.put.running id)) [
    | inl n ↦
        subst (λ r. HaveSameKeys (insert id (k, v) io.pending_puts) r.0.running)
          (sym (run-new t id (k, v) io.put n))
          (insert-HaveSameKeys id (k, v) (length io.put.cells) io.pending_puts io.put.running h)
    | inr (c, y) ↦
        subst (λ r. HaveSameKeys (insert id (k, v) io.pending_puts) r.0.running)
          (sym (run-running t id (k, v) io.put c y))
          (insert-HaveSameKeys_left id (k, v) c io.pending_puts io.put.running y h)
  ]

  -- A result that leaves the puts.
  done-IsPutting :
      {A : Type 0} (o : Option (A × List Task)) (f : A → Io Task) (io' : Io Task) (ts : List Task)
      → ((a : A) → IsPutting (f a))
      → ◌≡◌ {A = Option (Io Task × List Task)}
          (elim o [ none ↦ none | some (a, us) ↦ some (f a, us) ])
          (some (io', ts))
      → IsPutting io'
  done-IsPutting none f io' ts h q = absurd (cc q)
  done-IsPutting (some (a, us)) f io' ts h q = subst IsPutting (ap (λ r. r.0) (some_inj.0 q)) (h a)

  put-IsPutting :
      (debug : Bool) (id : ℕ) (io : Io Task) (j : JobTracker ℕ (StorageKey × List ℕ) Task Unit)
      (ts : List Task)
      → IsPutting io
      → complete_job debug id tt io.put ≡ some (j, ts)
      → HaveSameKeys (remove id io.pending_puts) j.running
  put-IsPutting debug id io j ts h q = elim (Option-cases (lookup io.put.running id)) [
    | inl n ↦
        subst (HaveSameKeys (remove id io.pending_puts))
          (sym (
            sym (ap (λ o. running_of o io.put.running) q)
            ∙ running_of-complete_job-none debug id tt io.put n))
          (remove-HaveSameKeys_left id io.pending_puts io.put.running n h)
    | inr (c, y) ↦
        subst (HaveSameKeys (remove id io.pending_puts))
          (sym (
            sym (ap (λ o. running_of o (remove id io.put.running)) q)
            ∙ running_of-complete_job-some debug id tt c io.put y))
          (remove-HaveSameKeys id io.pending_puts io.put.running h)
  ]

  put_panics :
      (debug : Bool) (id : ℕ) (io : Io Task)
      → complete_job debug id tt io.put ≡ none
      → complete debug id IoResultPayload.put_done io ≡ none
  unfolding complete
  put_panics debug id io n = rw (complete, n) refl

  put_done_is :
      (debug : Bool) (id : ℕ) (io : Io Task) (j : JobTracker ℕ (StorageKey × List ℕ) Task Unit)
      (us : List Task)
      → complete_job debug id tt io.put ≡ some (j, us)
      → complete debug id IoResultPayload.put_done io
        ≡ some (record io { put = j; pending_puts = remove id io.pending_puts }, us)
  unfolding complete
  put_done_is debug id io j us y = rw (complete, y) refl

  complete-IsPutting :
      (debug : Bool) (id : ℕ) (p : IoResultPayload) (io io' : Io Task) (ts : List Task)
      → IsPutting io
      → complete debug id p io ≡ some (io', ts)
      → IsPutting io'
  unfolding complete
  complete-IsPutting debug id (IoResultPayload.loaded x) io io' ts h q =
      done-IsPutting (complete_job debug id x io.load) (λ j. record io { load = j }) io' ts (λ j. h)
        q
  complete-IsPutting debug id (IoResultPayload.range_loaded x) io io' ts h q =
      done-IsPutting (complete_job debug id x io.load_range) (λ j. record io { load_range = j }) io'
        ts (λ j. h) q
  complete-IsPutting debug id IoResultPayload.deleted io io' ts h q =
      done-IsPutting (complete_job debug id tt io.delete) (λ j. record io { delete = j }) io' ts
        (λ j. h) q
  complete-IsPutting debug id (IoResultPayload.asked x) io io' ts h q =
      done-IsPutting (complete_job debug id x io.asks) (λ j. record io { asks = j }) io' ts (λ j. h)
        q
  complete-IsPutting debug id IoResultPayload.put_done io io' ts h q =
      elim (Option-cases (complete_job debug id tt io.put)) [
        | inl n ↦ absurd (cc (q, put_panics debug id io n))
        | inr ((j, us), y) ↦
            subst IsPutting (ap (λ r. r.0) (some_inj.0 (sym (put_done_is debug id io j us y) ∙ q)))
              (put-IsPutting debug id io j us h y)
      ]

  -- In every io that the operations lead to, the puts that are pending are those whose job runs.
  pub Reachable-IsPutting : (io : Io Task) → Reachable io → IsPutting io
  unfolding new_io start_load start_load_range start_delete start_ask start_request pop_new_tasks
      pop_new_requests pop_new_notifications pop_new_jobs emit_doc_event io_complete
      response_received
  Reachable-IsPutting _ Reachable.start = λ j. (λ p. refl, λ p. refl)
  Reachable-IsPutting _ (Reachable.after_load t id k io r) = Reachable-IsPutting io r
  Reachable-IsPutting _ (Reachable.after_load_range t id k io r) = Reachable-IsPutting io r
  Reachable-IsPutting _ (Reachable.after_put t id k v io r) =
      start_put-IsPutting t id k v io (Reachable-IsPutting io r)
  Reachable-IsPutting _ (Reachable.after_delete t id k io r) = Reachable-IsPutting io r
  Reachable-IsPutting _ (Reachable.after_ask t id d io r) = Reachable-IsPutting io r
  Reachable-IsPutting _ (Reachable.after_request t id p q io r) = Reachable-IsPutting io r
  Reachable-IsPutting _ (Reachable.after_emit e io r) = Reachable-IsPutting io r
  Reachable-IsPutting _ (Reachable.after_pop_tasks io r) = Reachable-IsPutting io r
  Reachable-IsPutting _ (Reachable.after_pop_requests io r) = Reachable-IsPutting io r
  Reachable-IsPutting _ (Reachable.after_pop_notifications io r) = Reachable-IsPutting io r
  Reachable-IsPutting _ (Reachable.after_complete debug x io io' ts r q) =
      complete-IsPutting debug x.id x.payload io io' ts (Reachable-IsPutting io r) q
  Reachable-IsPutting _ (Reachable.after_response debug x io io' ts r q) =
      done-IsPutting (complete_job debug x.id x io.requests) (λ j. record io { requests = j }) io'
        ts (λ j. Reachable-IsPutting io r) q
