-- ===== src/Subscriptions/Owed.antt =====
-- src/subscriptions.rs: which events a subscriber is owed.
use beelay.Prelude.{refl, [], ◌++◌, ◌∷◌, ◌≡◌, List, sym}
use beelay.Prelude.{drop, if◌then◌else◌}
use beelay.Prelude.{Bool-cases, inl, inr, subst}
use beelay.Prelude.{◌≢◌, ◌⊎◌, true, false}
use beelay.Prelude.Equality.{◌=?◌, eq_of_=?, ne_of_=?, =?-eq_false, contains, IsIn}
use beelay.Ids.{PeerId, peer_id_eq, document_id_eq, CommitCategory, content, index}
use beelay.Messages.Types.{Notification}
use beelay.Subscriptions.{DocEvent, Log, Subscription, wanted}
use beelay.Subscriptions.{wanted_events, notification_of}

-- The notifications that a subscription asks for, of some events: those of a document of the
-- subscription, that do not come from the subscriber, and that are content, in their order.
pub data AskedFor (ours : PeerId) (sub : Subscription)
    : List DocEvent → List Notification → Type 0 where
  end : AskedFor ours sub [] []
  other_doc :
      (event : DocEvent) (events : List DocEvent) (ns : List Notification)
      → contains sub.docs event.doc ≡ false
      → AskedFor ours sub events ns
      → AskedFor ours sub (event ∷ events) ns
  own :
      (event : DocEvent) (events : List DocEvent) (ns : List Notification)
      → event.from_peer ≡ sub.peer
      → AskedFor ours sub events ns
      → AskedFor ours sub (event ∷ events) ns
  indexed :
      (event : DocEvent) (events : List DocEvent) (ns : List Notification)
      → event.category ≡ index
      → AskedFor ours sub events ns
      → AskedFor ours sub (event ∷ events) ns
  asked :
      (event : DocEvent) (events : List DocEvent) (n : Notification) (ns : List Notification)
      → IsIn sub.docs event.doc
      → event.from_peer ≢ sub.peer
      → event.category ≡ content
      → n ≡ record { from_peer = ours; doc = event.doc; item = event.contents }
      → AskedFor ours sub events ns
      → AskedFor ours sub (event ∷ events) (n ∷ ns)

-- What a peer is owed by subscriptions: for each of its own, in their order, what that asks for of
-- the events behind its offset.
pub data Owed (ours : PeerId) (log : Log) (p : PeerId)
    : List Subscription → List Notification → Type 0 where
  none_left : Owed ours log p [] []
  of_other :
      (sub : Subscription) (subs : List Subscription) (ns : List Notification)
      → sub.peer ≢ p
      → Owed ours log p subs ns
      → Owed ours log p (sub ∷ subs) ns
  of_peer :
      (sub : Subscription) (subs : List Subscription) (ms ns all : List Notification)
      → sub.peer ≡ p
      → AskedFor ours sub (drop sub.offset log.events) ms
      → Owed ours log p subs ns
      → all ≡ ms ++ ns
      → Owed ours log p (sub ∷ subs) all

-- The same as a function.
unfoldable pub owed : PeerId → Log → PeerId → List Subscription → List Notification
owed ours log p [] = []
owed ours log p (sub ∷ subs) =
    if sub.peer =? p
    then wanted_events ours sub (drop sub.offset log.events) ++ owed ours log p subs
    else owed ours log p subs

taken :
    (ours : PeerId) (sub : Subscription) (x : DocEvent) (events : List DocEvent)
    → wanted sub x ≡ true
    → wanted_events ours sub (x ∷ events) ≡ notification_of ours x ∷ wanted_events ours sub events
unfolding wanted_events
taken ours sub x events y = rw (y) refl

skipped :
    (ours : PeerId) (sub : Subscription) (x : DocEvent) (events : List DocEvent)
    → wanted sub x ≡ false
    → wanted_events ours sub (x ∷ events) ≡ wanted_events ours sub events
unfolding wanted_events
skipped ours sub x events n = rw (n) refl

-- Why an event is wanted or not.
data Reason (sub : Subscription) (x : DocEvent) : Type 0 where
  not_doc : contains sub.docs x.doc ≡ false → wanted sub x ≡ false → Reason sub x
  not_other : x.from_peer ≡ sub.peer → wanted sub x ≡ false → Reason sub x
  not_content : x.category ≡ index → wanted sub x ≡ false → Reason sub x
  all_three :
      IsIn sub.docs x.doc
      → x.from_peer ≢ sub.peer
      → x.category ≡ content
      → wanted sub x ≡ true
      → Reason sub x

category_cases : (c : CommitCategory) → (c ≡ content) ⊎ (c ≡ index)
category_cases content = inl refl
category_cases index = inr refl

reason : (sub : Subscription) (x : DocEvent) → Reason sub x
unfolding wanted
reason sub x = elim (Bool-cases (contains sub.docs x.doc)) [
  | inr n ↦ Reason.not_doc n (rw (n) refl)
  | inl d ↦ elim (Bool-cases (x.from_peer =? sub.peer)) [
    | inl y ↦ Reason.not_other (eq_of_=? x.from_peer sub.peer y) (rw (d, y) refl)
    | inr n ↦ elim (category_cases x.category) [
      | inl c ↦ Reason.all_three d (ne_of_=? x.from_peer sub.peer n) c (rw (d, n, c) refl)
      | inr i ↦ Reason.not_content i (rw (d, n, i) refl)
    ]
  ]
]

wanted_events-AskedFor :
    (ours : PeerId) (sub : Subscription) (events : List DocEvent)
    → AskedFor ours sub events (wanted_events ours sub events)
unfolding wanted_events notification_of
wanted_events-AskedFor ours sub [] = AskedFor.end
wanted_events-AskedFor ours sub (x ∷ events) =
    let rest = wanted_events-AskedFor ours sub events in
    let ns = wanted_events ours sub events in
    elim (reason sub x) [
      | Reason.not_doc d w ↦
          subst (AskedFor ours sub (x ∷ events)) (sym (skipped ours sub x events w))
            (AskedFor.other_doc x events ns d rest)
      | Reason.not_other o w ↦
          subst (AskedFor ours sub (x ∷ events)) (sym (skipped ours sub x events w))
            (AskedFor.own x events ns o rest)
      | Reason.not_content c w ↦
          subst (AskedFor ours sub (x ∷ events)) (sym (skipped ours sub x events w))
            (AskedFor.indexed x events ns c rest)
      | Reason.all_three d o c w ↦
          subst (AskedFor ours sub (x ∷ events)) (sym (taken ours sub x events w))
            (AskedFor.asked x events (notification_of ours x) ns d o c refl rest)
    ]

pub owed_mine :
    (ours : PeerId) (log : Log) (p : PeerId) (sub : Subscription) (subs : List Subscription)
    → sub.peer ≡ p
    → owed ours log p (sub ∷ subs)
      ≡ wanted_events ours sub (drop sub.offset log.events) ++ owed ours log p subs
unfolding owed
owed_mine ours log p sub subs e = rw ((peer_id_eq.beq_iff sub.peer p).1 e) refl

pub owed_other :
    (ours : PeerId) (log : Log) (p : PeerId) (sub : Subscription) (subs : List Subscription)
    → sub.peer ≢ p
    → owed ours log p (sub ∷ subs) ≡ owed ours log p subs
unfolding owed
owed_other ours log p sub subs d = rw (=?-eq_false sub.peer p d) refl

pub owed-Owed :
    (ours : PeerId) (log : Log) (p : PeerId) (subs : List Subscription)
    → Owed ours log p subs (owed ours log p subs)
unfolding owed
owed-Owed ours log p [] = Owed.none_left
owed-Owed ours log p (sub ∷ subs) =
    let rest = owed-Owed ours log p subs in
    elim (Bool-cases (sub.peer =? p)) [
      | inl y ↦
          let e = eq_of_=? sub.peer p y in
          Owed.of_peer sub subs (wanted_events ours sub (drop sub.offset log.events))
            (owed ours log p subs) (owed ours log p (sub ∷ subs)) e
            (wanted_events-AskedFor ours sub (drop sub.offset log.events)) rest
            (owed_mine ours log p sub subs e)
      | inr n ↦
          let d = ne_of_=? sub.peer p n in
          subst (Owed ours log p (sub ∷ subs)) (sym (owed_other ours log p sub subs d))
            (Owed.of_other sub subs (owed ours log p subs) d rest)
    ]
