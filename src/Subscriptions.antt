-- ===== src/Subscriptions.antt =====
-- src/subscriptions.rs: the log of the commits and the subscriptions that follow it; with the
-- snapshot of src/snapshots.rs that a subscription starts from.
pub mod Owed
pub mod Delivery
pub mod Later
use beelay.Prelude.{ℕ, Bool, ◌&&◌, not, List, [], ◌∷◌, ◌++◌, map, Option, none, some, length}
use beelay.Prelude.{drop, if◌then◌else◌, ltb}
use beelay.Prelude.Equality.{◌=?◌, contains, array_eq, nats_eq}
use beelay.Prelude.Assoc.{lookup, insert}
use beelay.Ids.{DocumentId, PeerId, SnapshotId, CommitCategory, content, index, document_id_eq}
use beelay.Ids.{peer_id_eq}
use beelay.Riblt.Symbols.{MinimalTreeHash}
use beelay.Messages.Types.{Notification, UploadItem}

pub record Snapshot : Type 0 where
  pub root_doc : DocumentId
  pub id : SnapshotId
  pub we_have_doc : Bool
  pub hashes : List (DocumentId × MinimalTreeHash)
  pub local_log_offset : ℕ
  pub remote_snapshots : List (PeerId × SnapshotId)

unfoldable pub our_docs : Snapshot → List DocumentId
our_docs s = map (λ e. e.0) s.hashes

unfoldable pub add_remote : PeerId → SnapshotId → Snapshot → Snapshot
unfolding insert
add_remote peer snapshot s = record s { remote_snapshots = insert peer snapshot s.remote_snapshots }

pub record DocEvent : Type 0 where
  pub doc : DocumentId
  pub from_peer : PeerId
  pub contents : UploadItem
  pub category : CommitCategory

pub record Log : Type 0 where
  pub events : List DocEvent

unfoldable pub log_new : Log
log_new = record { events = [] }

unfoldable pub log_offset : Log → ℕ
log_offset log = length log.events

unfoldable pub remote_notification : Notification → Log → Log
remote_notification n log = record {
  events =
      log.events
      ++ record { doc = n.doc; from_peer = n.from_peer; contents = n.item; category = content }
        ∷ [];
}

unfoldable pub new_commit : DocumentId → PeerId → UploadItem → CommitCategory → Log → Log
new_commit doc from_peer item category log = record {
  events =
      log.events
      ++ record { doc = doc; from_peer = from_peer; contents = item; category = category } ∷ [];
}

pub record Subscription : Type 0 where
  pub offset : ℕ
  pub peer : PeerId
  pub docs : List DocumentId

unfoldable pub add_doc : DocumentId → List DocumentId → List DocumentId
unfolding contains
add_doc d docs = if contains docs d then docs else docs ++ d ∷ []

unfoldable pub subscription_new : PeerId → Snapshot → Subscription
unfolding add_doc our_docs
subscription_new for_peer starting_from = record {
  offset = starting_from.local_log_offset;
  peer = for_peer;
  docs = add_doc starting_from.root_doc (our_docs starting_from);
}

pub record Subscriptions : Type 0 where
  pub our_peer_id : PeerId
  pub subscriptions : List Subscription

unfoldable pub subscriptions_new : PeerId → Subscriptions
subscriptions_new our_peer_id = record { our_peer_id = our_peer_id; subscriptions = [] }

unfoldable pub add : Subscription → Subscriptions → Subscriptions
add sub s = record s { subscriptions = s.subscriptions ++ sub ∷ [] }

abbrev pub is_content : CommitCategory → Bool
is_content content = Bool.true
is_content index = Bool.false

-- The test in the inner loop of `new_events`.
unfoldable pub wanted : Subscription → DocEvent → Bool
unfolding contains
wanted sub event =
    contains sub.docs event.doc && (not (event.from_peer =? sub.peer) && is_content event.category)

unfoldable pub notification_of : PeerId → DocEvent → Notification
notification_of our_peer_id event = record {
  from_peer = our_peer_id;
  doc = event.doc;
  item = event.contents;
}

-- What the inner loop pushes for one subscription.
unfoldable pub wanted_events : PeerId → Subscription → List DocEvent → List Notification
unfolding wanted notification_of
wanted_events our_peer_id sub [] = []
wanted_events our_peer_id sub (event ∷ events) =
    if wanted sub event
    then notification_of our_peer_id event ∷ wanted_events our_peer_id sub events
    else wanted_events our_peer_id sub events

-- `result.entry(peer).or_default()`, with the events pushed behind.
unfoldable pub entry_or_default : Option (List Notification) → List Notification
entry_or_default none = []
entry_or_default (some ns) = ns

unfoldable pub push_events :
    PeerId
    → List Notification
    → List (PeerId × List Notification)
    → List (PeerId × List Notification)
unfolding insert lookup entry_or_default
push_events peer ns result = insert peer (entry_or_default (lookup result peer) ++ ns) result

-- The outer loop. `none` is the panic of `log.0[sub.offset..]`.
unfoldable pub events_loop :
    PeerId
    → Log
    → List Subscription
    → List (PeerId × List Notification)
    → Option (List Subscription × List (PeerId × List Notification))
unfolding push_events wanted_events log_offset
events_loop our_peer_id log [] result = some ([], result)
events_loop our_peer_id log (sub ∷ subs) result =
    let pushed =
      push_events sub.peer (wanted_events our_peer_id sub (drop sub.offset log.events)) result in
    let rest = events_loop our_peer_id log subs pushed in
    if ltb (log_offset log) sub.offset then none else elim rest [
      | some (subs', result') ↦ some (record sub { offset = log_offset log } ∷ subs', result')
      | none ↦ none
    ]

unfoldable pub new_events :
    Log → Subscriptions → Option (Subscriptions × List (PeerId × List Notification))
unfolding events_loop
new_events log s = elim (events_loop s.our_peer_id log s.subscriptions []) [
  | some (subs, result) ↦ some (record s { subscriptions = subs }, result)
  | none ↦ none
]
