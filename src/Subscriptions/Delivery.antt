-- ===== src/Subscriptions/Delivery.antt =====
-- src/subscriptions.rs: what `new_events` delivers to each subscriber, and how far each subscription
-- is moved.
use beelay.Prelude.{refl, [], some, ◌++◌, ◌∷◌, ◌≡◌, List, ◌≤◌, ap, sym, ◌∙◌}
use beelay.Prelude.{drop, if◌then◌else◌, ltb-eq_false, All, append_assoc, append-nil}
use beelay.Prelude.{Bool-cases, inl, inr, map, subst}
use beelay.Prelude.Equality.{◌=?◌, eq_of_=?, ne_of_=?}
use beelay.Prelude.Assoc.{lookup, lookup-insert, lookup-insert_other}
use beelay.Ids.{PeerId, peer_id_eq, document_id_eq}
use beelay.Messages.Types.{Notification}
use beelay.Subscriptions.{Log, log_offset, Subscription, Subscriptions}
use beelay.Subscriptions.{wanted_events, entry_or_default, push_events}
use beelay.Subscriptions.{events_loop, new_events}
use beelay.Subscriptions.Owed.{Owed, owed, owed-Owed}

abbrev pub delivered : List (PeerId × List Notification) → PeerId → List Notification
delivered result p = entry_or_default (lookup result p)

abbrev pub advance : Log → Subscription → Subscription
advance log sub = record sub { offset = log_offset log }

-- No subscription has read further than the log goes.
abbrev pub IsWithin : Log → Subscription → Type 0
IsWithin log sub = sub.offset ≤ log_offset log

delivered-push_events :
    (q : PeerId) (ns : List Notification) (result : List (PeerId × List Notification)) (p : PeerId)
    → delivered (push_events q ns result) p
      ≡ (if q =? p then delivered result p ++ ns else delivered result p)
unfolding push_events
delivered-push_events q ns result p = elim (Bool-cases (q =? p)) [
  | inl y ↦ rw (y) (
      subst (λ x. delivered (push_events q ns result) x ≡ delivered result x ++ ns) (eq_of_=? q p y)
        (ap entry_or_default (lookup-insert q (delivered result q ++ ns) result)))
  | inr n ↦ rw (n) (
      ap entry_or_default
        (lookup-insert_other q p (delivered result q ++ ns) result (ne_of_=? q p n)))
]

owed_cons :
    (ours : PeerId) (log : Log) (sub : Subscription) (subs : List Subscription)
    (result : List (PeerId × List Notification)) (p : PeerId)
    → delivered
          (push_events sub.peer (wanted_events ours sub (drop sub.offset log.events)) result)
          p
        ++ owed ours log p subs
      ≡ delivered result p ++ owed ours log p (sub ∷ subs)
unfolding owed
owed_cons ours log sub subs result p =
    let new = wanted_events ours sub (drop sub.offset log.events) in
    elim (Bool-cases (sub.peer =? p)) [
      | inl y ↦
          ap (λ x. x ++ owed ours log p subs) (delivered-push_events sub.peer new result p)
          ∙ rw (y) (append_assoc (delivered result p) new (owed ours log p subs))
      | inr n ↦
          ap (λ x. x ++ owed ours log p subs) (delivered-push_events sub.peer new result p)
          ∙ rw (n) refl
    ]

pub loop-owed :
    (ours : PeerId) (log : Log) (subs : List Subscription)
    (result : List (PeerId × List Notification))
    → All (IsWithin log) subs
    → (r : List (PeerId × List Notification)) × (events_loop ours log subs result
        ≡ some (map (advance log) subs, r))
      × ((p : PeerId) → delivered r p ≡ delivered result p ++ owed ours log p subs)
unfolding events_loop owed
loop-owed ours log [] result h = (result, refl, λ p. sym (append-nil (delivered result p)))
loop-owed ours log (sub ∷ subs) result (h, hs) =
    let pushed =
      push_events sub.peer (wanted_events ours sub (drop sub.offset log.events)) result in
    let (r, e, f) = loop-owed ours log subs pushed hs in
    (
      r,
      rw (ltb-eq_false (log_offset log) sub.offset h, e) refl,
      λ p. f p ∙ owed_cons ours log sub subs result p,
    )

-- Where no subscription has read further than the log goes, `new_events` does not panic, it moves
-- each subscription to the end of the log, and each peer gets, in the order of the subscriptions and
-- of the log, for each of its subscriptions the events behind the offset that are of a document of
-- the subscription, do not come from the peer, and are content, and nothing else.
pub new_events-Owed :
    (log : Log) (s : Subscriptions)
    → All (IsWithin log) s.subscriptions
    → (r : List (PeerId × List Notification)) × (new_events log s
        ≡ some (record s { subscriptions = map (advance log) s.subscriptions }, r))
      × ((p : PeerId) → Owed s.our_peer_id log p s.subscriptions (delivered r p))
unfolding new_events
new_events-Owed log s h =
    let (r, e, f) = loop-owed s.our_peer_id log s.subscriptions [] h in
    (
      r,
      rw (new_events, e) refl,
      λ p.
          subst (Owed s.our_peer_id log p s.subscriptions) (sym (f p))
            (owed-Owed s.our_peer_id log p s.subscriptions),
    )
