-- ===== src/Tests/State.antt =====
-- The theorems on the peers' state, at concrete inputs.
use beelay.Prelude.{◌++◌, map, ok, [], some, take, All, List, arith, ℕ, ◌∷◌, ◌≡◌, true, ◌↔◌, ◌≤◌}
use beelay.Prelude.{◌⊎◌, inl, inr, ◌≢◌, none, refl, ap, sym, ◌∙◌, err}
use beelay.Prelude.Assoc.{lookup}
use beelay.Prelude.Equality.{nat_eq, contains, IsIn, IsIn-cases, ne_of_=?}
use beelay.Prelude.Pairwise.{Pairwise}
use beelay.Sedimentree.Types.{Stratum, Sedimentree, SedimentreeSummary, LooseCommit, StratumMeta}
use beelay.Sedimentree.Strata.{minimize_strata}
use beelay.Sedimentree.Strata.Minimal.{IsUnrelated, supported_by}
use beelay.Sedimentree.Diff.{RemoteDiff, diff_remote, to_save}
use beelay.Sedimentree.Diff.Agree.{diff_remote-agrees, to_save-saves, strata_of, commits_of}
use beelay.Sedimentree.Equality.{loose_commit_eq, stratum_meta_eq, stratum_eq}
use beelay.Tests.{loose_commit, hash_100, client_id, server_id, doc, deep, shallow, to_radix_be}
use beelay.Tests.{upload_item, blob_meta}
use beelay.Ids.{PeerId, content, document_id_eq, peer_id_eq}
use beelay.Messages.Types.{Notification}
use beelay.Sedimentree.Strata.Minimize.{minimize_strata-supports, minimize_strata-IsUnrelated}
use beelay.Sedimentree.Strata.Minimize.{minimize_strata-minimize_strata}
use beelay.Subscriptions.{Log, DocEvent, Subscription, Subscriptions, new_events, log_offset}
use beelay.Subscriptions.Owed.{Owed}
use beelay.Subscriptions.Delivery.{delivered, advance, IsWithin, new_events-Owed}
use beelay.Subscriptions.Later.{grown, new_events-new_events}
use beelay.Jobs.{or_default, JobTracker, new, run, pop_new_jobs, complete_job, poll}
use beelay.Jobs.Waking.{IsJobTracker, complete_job-run, run-run}
use beelay.Jobs.Keeps.{Reachable, start, after_run, after_pop, Reachable-IsJobTracker}
use beelay.StorageKey.{
  StorageKey, sedimentrees, is_prefix_of, try_from, components, contained_slashes,
}
use beelay.StorageKey.Laws.{is_prefix_of_iff, is_prefix_of_comm}
use beelay.StorageKey.Reading.{HasSlash, reread, try_from-components}

minimize_strata-supports_example :
    All
      (λ t.
        supported_by to_radix_be (minimize_strata to_radix_be (shallow ∷ deep ∷ [])) t.meta ≡ true)
      (shallow ∷ deep ∷ [])
minimize_strata-supports_example = minimize_strata-supports to_radix_be (shallow ∷ deep ∷ [])

minimize_strata-IsUnrelated_example :
    Pairwise (IsUnrelated to_radix_be) (minimize_strata to_radix_be (shallow ∷ deep ∷ []))
minimize_strata-IsUnrelated_example = minimize_strata-IsUnrelated to_radix_be (shallow ∷ deep ∷ [])

minimize_strata-minimize_strata_example :
    minimize_strata to_radix_be (minimize_strata to_radix_be (shallow ∷ deep ∷ []))
    ≡ minimize_strata to_radix_be (shallow ∷ deep ∷ [])
minimize_strata-minimize_strata_example =
    minimize_strata-minimize_strata to_radix_be (shallow ∷ deep ∷ [])

-- One side has 1000 behind 100 and the deep stratum, the other 100 and the shallow one.
abbrev ours : Sedimentree
ours = record { strata = deep ∷ []; commits = loose_commit ∷ [] }

abbrev theirs : SedimentreeSummary
theirs = record {
  strata = shallow.meta ∷ [];
  commits = record loose_commit { hash = hash_100 } ∷ [];
}

ours_one :
    (s u : Stratum)
    → IsIn ours.strata s
    → IsIn ours.strata u
    → s.meta.start ≡ u.meta.start
    → s.meta.end ≡ u.meta.end
    → s.meta ≡ u.meta
unfolding contains
ours_one s u i j p q = elim (IsIn-cases deep s [] i) [
  | inr n ↦ absurd (cc n)
  | inl e ↦ elim (IsIn-cases deep u [] j) [
    | inr n ↦ absurd (cc n)
    | inl f ↦ ap (λ (x : Stratum). x.meta) (sym e ∙ f)
  ]
]

diff_remote-agrees_example :
    (d : RemoteDiff) × (diff_remote to_radix_be ours theirs ≡ some d)
    × All (IsIn ours.strata) d.local_strata
    × ((c : LooseCommit)
        → contains (ours.commits ++ d.remote_commits) c
          ≡ contains (theirs.commits ++ d.local_commits) c)
    × ((m : StratumMeta)
        → contains (map (λ s. s.meta) ours.strata ++ d.remote_strata) m
          ≡ contains (theirs.strata ++ map (λ s. s.meta) d.local_strata) m)
diff_remote-agrees_example = diff_remote-agrees to_radix_be ours theirs ours_one

-- The deep stratum with another blob, and a summary without strata.
abbrev deep_copy : Stratum
deep_copy = record {
  meta = record deep.meta { blob = record blob_meta { size_bytes = 301 } };
  checkpoints = [];
}

abbrev no_strata : SedimentreeSummary
no_strata = record { strata = []; commits = [] }

to_save-saves_example :
    ((s : Stratum)
      → contains (deep ∷ shallow ∷ []) s ≡ true
      → contains
          (deep ∷ [] ++ (to_save (some ours) (record ours { strata = deep ∷ shallow ∷ [] })).0)
          s
        ≡ true)
    × ((c : LooseCommit)
        → contains (loose_commit ∷ []) c ≡ true
        → contains
            (loose_commit ∷ []
              ++ (to_save (some ours) (record ours { strata = deep ∷ shallow ∷ [] })).1)
            c
          ≡ true)
unfolding strata_of commits_of
to_save-saves_example = to_save-saves (some ours) (record ours { strata = deep ∷ shallow ∷ [] })

abbrev event : DocEvent
event = record { doc = doc; from_peer = server_id; contents = upload_item; category = content }

abbrev log : Log
log = record { events = event ∷ event ∷ [] }

abbrev sub : Subscription
sub = record { offset = 1; peer = client_id; docs = doc ∷ [] }

abbrev other_sub : Subscription
other_sub = record { offset = 0; peer = record { name = 99 ∷ [] }; docs = doc ∷ [] }

abbrev subscriptions : Subscriptions
subscriptions = record { our_peer_id = server_id; subscriptions = sub ∷ other_sub ∷ [] }

subs-IsWithin : All (IsWithin log) (sub ∷ other_sub ∷ [])
unfolding log_offset
subs-IsWithin = (omega arith, (omega arith, tt))

subs-distinct : Pairwise (λ a b. a.peer ≢ b.peer) (sub ∷ other_sub ∷ [])
unfolding beelay.Prelude.Equality.nats_beq
subs-distinct = ((ne_of_=? client_id other_sub.peer refl, tt), (tt, tt))

new_events-Owed_example :
    (r : List (PeerId × List Notification)) × (new_events log subscriptions
      ≡ some (record subscriptions { subscriptions = map (advance log) (sub ∷ other_sub ∷ []) }, r))
    × ((p : PeerId) → Owed server_id log p (sub ∷ other_sub ∷ []) (delivered r p))
new_events-Owed_example = new_events-Owed log subscriptions subs-IsWithin

new_events-new_events_example :
    (s' s'' : Subscriptions) × (now later once : List (PeerId × List Notification)) × (new_events
        log subscriptions
      ≡ some (s', now))
    × (new_events (grown log (event ∷ [])) s' ≡ some (s'', later))
    × (new_events (grown log (event ∷ [])) subscriptions ≡ some (s'', once))
    × ((p : PeerId) → delivered now p ++ delivered later p ≡ delivered once p)
new_events-new_events_example =
    new_events-new_events log (event ∷ []) subscriptions subs-IsWithin subs-distinct

-- A tracker of jobs 1, 2, .. that load a key and answer with a number, after two requests.
abbrev Tracker : Type 0
Tracker = JobTracker ℕ StorageKey ℕ ℕ

abbrev key : StorageKey
key = record { namespace = sedimentrees; remaining = (97 ∷ []) ∷ (98 ∷ []) ∷ [] }

abbrev tracker : Tracker
tracker = (run 20 1 key (run 10 1 key new).0).0

tracker-Reachable : Reachable tracker
tracker-Reachable = after_run 20 1 key _ (after_run 10 1 key _ start)

tracker-IsJobTracker : IsJobTracker tracker
tracker-IsJobTracker = Reachable-IsJobTracker tracker tracker-Reachable

Reachable-IsJobTracker_example : IsJobTracker (pop_new_jobs tracker).0
Reachable-IsJobTracker_example =
    Reachable-IsJobTracker (pop_new_jobs tracker).0 (after_pop tracker tracker-Reachable)

complete_job-run_example :
    (j : Tracker) × (ts : List ℕ) × (complete_job true 1 5 (pop_new_jobs (run 30 1 key tracker).0).0
      ≡ some (j, ts))
    × (contains ts 30 ≡ true)
    × All (λ u. contains ts u ≡ true) (or_default (lookup tracker.initiators_by_job 1))
    × ((poll (run 30 1 key tracker).1 j).1 ≡ some 5)
    × ((poll (run 30 1 key tracker).1 (poll (run 30 1 key tracker).1 j).0).1 ≡ none)
complete_job-run_example = complete_job-run true 30 1 key 5 tracker tracker-IsJobTracker

run-run_example :
    ((run 40 2 key (run 30 2 key tracker).0).0.fresh ≡ (run 30 2 key tracker).0.fresh)
    × ((run 40 2 key (run 30 2 key tracker).0).1 ≡ (run 30 2 key tracker).1)
run-run_example = run-run 30 40 2 key key tracker tracker-IsJobTracker

abbrev longer : StorageKey
longer = record { namespace = sedimentrees; remaining = (97 ∷ []) ∷ (98 ∷ []) ∷ (99 ∷ []) ∷ [] }

is_prefix_of_iff_example :
    (is_prefix_of key longer ≡ true)
    ↔ ((key.namespace ≡ longer.namespace) × (take 2 longer.remaining ≡ key.remaining))
is_prefix_of_iff_example = is_prefix_of_iff key longer (omega arith)

is_prefix_of_comm_example : is_prefix_of key longer ≡ is_prefix_of longer key
is_prefix_of_comm_example = is_prefix_of_comm key longer

try_from-components_example :
    (HasSlash key × (try_from (components key) ≡ some (err contained_slashes)))
    ⊎ ((¬ HasSlash key) × (key.remaining ≡ []) × (try_from (components key) ≡ none))
    ⊎ ((¬ HasSlash key)
        × (second : List ℕ) × (rest : List (List ℕ)) × (key.remaining ≡ second ∷ rest)
        × (try_from (components key)
            ≡ some (ok (record { namespace = reread sedimentrees; remaining = rest }))))
try_from-components_example = try_from-components key
