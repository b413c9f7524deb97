-- ===== src/Effects.antt =====
-- src/effects.rs and src/io.rs: `Io`, the trackers of all kinds of tasks and the puts that are
-- pending, and what `TaskEffects` does with it. An `IoTaskId` is its number.
pub mod Puts
pub mod Pending
pub mod Rpc
use beelay.Prelude.{ℕ, Bool, List, [], ◌∷◌, ◌++◌, Option, none, some, if◌then◌else◌, map, ◌+◌}
use beelay.Prelude.Equality.{Eq, nat_eq}
use beelay.Prelude.Assoc.{lookup, insert, remove}
use beelay.Jobs
use beelay.Ids.{DocumentId, PeerId, RequestId}
use beelay.StorageKey.{StorageKey, is_prefix_of}
use beelay.StorageKey.Equality.{key_eq}
use beelay.Messages.Types.{Request, Response}
use beelay.Commit.{CommitOrBundle}
use beelay.Jobs.{JobTracker, run, pop_new_jobs, complete_job}

pub data IoAction : Type 0 where
  load load_range : StorageKey → IoAction
  put : StorageKey → List ℕ → IoAction
  delete : StorageKey → IoAction
  ask : DocumentId → IoAction

pub record IoTask : Type 0 where
  pub id : ℕ
  pub action : IoAction

pub data IoResultPayload : Type 0 where
  loaded : Option (List ℕ) → IoResultPayload
  range_loaded : List (StorageKey × List ℕ) → IoResultPayload
  put_done deleted : IoResultPayload
  asked : List PeerId → IoResultPayload

pub record IoResult : Type 0 where
  pub id : ℕ
  pub payload : IoResultPayload

-- `DocEvent` of src/lib.rs; `item` is the field `data`.
pub record DocEvent : Type 0 where
  pub peer : PeerId
  pub doc : DocumentId
  pub item : CommitOrBundle

pub record OutgoingRequest : Type 0 where
  pub target : PeerId
  pub request : Request

pub record IncomingResponse : Type 0 where
  pub id : RequestId
  pub response : Response

-- `task` is a top level task. The wakers, which the code does not use, are left out.
pub record Io (Task : Type 0) : Type 0 where
  pub load_range : JobTracker ℕ StorageKey Task (List (StorageKey × List ℕ))
  pub load : JobTracker ℕ StorageKey Task (Option (List ℕ))
  pub put : JobTracker ℕ (StorageKey × List ℕ) Task Unit
  pub delete : JobTracker ℕ StorageKey Task Unit
  pub requests : JobTracker RequestId OutgoingRequest Task IncomingResponse
  pub asks : JobTracker ℕ DocumentId Task (List PeerId)
  pub emitted_doc_events : List DocEvent
  pub pending_puts : List (ℕ × (StorageKey × List ℕ))

-- The puts under the prefix, of one key the last.
unfoldable pub cached_puts :
    StorageKey
    → List (ℕ × (StorageKey × List ℕ))
    → List (StorageKey × List ℕ)
    → List (StorageKey × List ℕ)
unfolding is_prefix_of insert
cached_puts prefix [] cached = cached
cached_puts prefix ((id, (key, value)) ∷ puts) cached =
    cached_puts prefix puts (if is_prefix_of prefix key then insert key value cached else cached)

module _ {Task : Type 0} where
  unfoldable pub new_io : Io Task
  unfolding Jobs.new
  new_io = record {
    load_range = Jobs.new;
    load = Jobs.new;
    put = Jobs.new;
    delete = Jobs.new;
    requests = Jobs.new;
    asks = Jobs.new;
    emitted_doc_events = [];
    pending_puts = [];
  }

  -- The jobs of each kind, in the order of the kinds.
  unfoldable pub new_tasks : Io Task → List IoTask
  new_tasks io =
      map (λ (id, key). record { id = id; action = IoAction.load key }) io.load.fresh
      ++ (map (λ (id, prefix). record { id = id; action = IoAction.load_range prefix })
            io.load_range.fresh
          ++ (map (λ (id, key). record { id = id; action = IoAction.delete key }) io.delete.fresh
              ++ (map (λ (id, (key, bytes)). record { id = id; action = IoAction.put key bytes })
                    io.put.fresh
                  ++ map (λ (id, doc). record { id = id; action = IoAction.ask doc })
                      io.asks.fresh)))

  unfoldable pub emit_doc_event : DocEvent → Io Task → Io Task
  emit_doc_event evt io = record io { emitted_doc_events = io.emitted_doc_events ++ evt ∷ [] }

  unfoldable pub pop_new_notifications : Io Task → Io Task × List DocEvent
  pop_new_notifications io = (record io { emitted_doc_events = [] }, io.emitted_doc_events)

module _ {Task : Type 0} ⦃et : Eq Task⦄ ⦃er : Eq RequestId⦄ where
  unfoldable pub pop_new_tasks : Io Task → Io Task × List IoTask
  unfolding new_tasks pop_new_jobs
  pop_new_tasks io = (
    record io {
      load = (pop_new_jobs io.load).0;
      load_range = (pop_new_jobs io.load_range).0;
      delete = (pop_new_jobs io.delete).0;
      put = (pop_new_jobs io.put).0;
      asks = (pop_new_jobs io.asks).0;
    },
    new_tasks io,
  )

  unfoldable pub pop_new_requests : Io Task → Io Task × List (RequestId × OutgoingRequest)
  unfolding pop_new_jobs
  pop_new_requests io =
      let (requests, jobs) = pop_new_jobs io.requests in (record io { requests = requests }, jobs)

  -- A result goes to the tracker of its kind; `none` is the panic of a debug build.
  unfoldable pub complete : Bool → ℕ → IoResultPayload → Io Task → Option (Io Task × List Task)
  unfolding complete_job remove
  complete debug id (loaded payload) io = elim (complete_job debug id payload io.load) [
    | none ↦ none
    | some (j, ts) ↦ some (record io { load = j }, ts)
  ]
  complete debug id (range_loaded payload) io = elim (complete_job debug id payload io.load_range) [
    | none ↦ none
    | some (j, ts) ↦ some (record io { load_range = j }, ts)
  ]
  complete debug id put_done io = elim (complete_job debug id tt io.put) [
    | none ↦ none
    | some (j, ts) ↦ some (record io { put = j; pending_puts = remove id io.pending_puts }, ts)
  ]
  complete debug id deleted io = elim (complete_job debug id tt io.delete) [
    | none ↦ none
    | some (j, ts) ↦ some (record io { delete = j }, ts)
  ]
  complete debug id (asked peers) io = elim (complete_job debug id peers io.asks) [
    | none ↦ none
    | some (j, ts) ↦ some (record io { asks = j }, ts)
  ]

  unfoldable pub io_complete : Bool → IoResult → Io Task → Option (Io Task × List Task)
  unfolding complete
  io_complete debug result io = complete debug result.id result.payload io

  unfoldable pub response_received :
      Bool → IncomingResponse → Io Task → Option (Io Task × List Task)
  unfolding complete_job
  response_received debug response io = elim (complete_job debug response.id response io.requests) [
    | none ↦ none
    | some (j, ts) ↦ some (record io { requests = j }, ts)
  ]

  -- What a task starts: the io, and the place of the cell that it waits on.
  unfoldable pub start_load : Task → ℕ → StorageKey → Io Task → Io Task × ℕ
  unfolding run
  start_load task task_id key io =
      let (j, cell) = run task task_id key io.load in (record io { load = j }, cell)

  unfoldable pub start_delete : Task → ℕ → StorageKey → Io Task → Io Task × ℕ
  unfolding run
  start_delete task task_id key io =
      let (j, cell) = run task task_id key io.delete in (record io { delete = j }, cell)

  unfoldable pub start_ask : Task → ℕ → DocumentId → Io Task → Io Task × ℕ
  unfolding run
  start_ask task task_id doc io =
      let (j, cell) = run task task_id doc io.asks in (record io { asks = j }, cell)

  unfoldable pub start_put : Task → ℕ → StorageKey → List ℕ → Io Task → Io Task × ℕ
  unfolding run insert
  start_put task task_id key value io =
      let (j, cell) = run task task_id (key, value) io.put in
      (record io { put = j; pending_puts = insert task_id (key, value) io.pending_puts }, cell)

  unfoldable pub start_request : Task → RequestId → PeerId → Request → Io Task → Io Task × ℕ
  unfolding run
  start_request task request_id target request io =
      let out : OutgoingRequest = record { target = target; request = request } in
      let (j, cell) = run task request_id out io.requests in (record io { requests = j }, cell)

  -- The io, the cell, and the puts that are pending when the range is asked for.
  unfoldable pub start_load_range :
      Task → ℕ → StorageKey → Io Task → Io Task × (ℕ × List (StorageKey × List ℕ))
  unfolding run cached_puts
  start_load_range task task_id prefix io =
      let (j, cell) = run task task_id prefix io.load_range in
      (record io { load_range = j }, (cell, cached_puts prefix io.pending_puts []))

-- `stored.into_iter().chain(cached).collect()`: a key that is cached has the cached value.
unfoldable pub with_cached :
    List (StorageKey × List ℕ) → List (StorageKey × List ℕ) → List (StorageKey × List ℕ)
unfolding insert
with_cached stored [] = stored
with_cached stored ((key, value) ∷ cached) = insert key value (with_cached stored cached)
