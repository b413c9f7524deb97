-- ===== src/Subscriptions/Later.antt =====
-- src/subscriptions.rs: what one call of `new_events` delivers and what two do.
use beelay.Prelude.{refl, suc, zero, [], some, ◌++◌, ◌∷◌, ◌≡◌, List, ℕ, ◌≤◌, ap, sym, ◌∙◌, length}
use beelay.Prelude.{drop, if◌then◌else◌, arith, All, append-nil}
use beelay.Prelude.{Bool-cases, inl, inr, map, subst, drop-append}
use beelay.Prelude.{◌≢◌}
use beelay.Prelude.Equality.{◌=?◌, eq_of_=?, ne_of_=?}
use beelay.Ids.{PeerId, peer_id_eq, document_id_eq}
use beelay.Messages.Types.{Notification}
use beelay.Subscriptions.{DocEvent, Log, log_offset, Subscription, Subscriptions, wanted}
use beelay.Subscriptions.{wanted_events, notification_of}
use beelay.Subscriptions.{new_events}
use beelay.Subscriptions.Owed.{owed, owed_mine, owed_other}
use beelay.Prelude.{length-append}
use beelay.Prelude.Pairwise.{Pairwise}
use beelay.Subscriptions.Delivery.{delivered, advance, IsWithin, loop-owed}

drop-append_le :
    (n : ℕ) (xs ys : List DocEvent) → n ≤ length xs → drop n (xs ++ ys) ≡ drop n xs ++ ys
drop-append_le zero xs ys h = refl
drop-append_le (suc n) [] ys h = absurd (omega arith)
drop-append_le (suc n) (x ∷ xs) ys h = drop-append_le n xs ys (omega arith)

wanted_events-append :
    (ours : PeerId) (sub : Subscription) (xs ys : List DocEvent)
    → wanted_events ours sub (xs ++ ys) ≡ wanted_events ours sub xs ++ wanted_events ours sub ys
unfolding wanted_events
wanted_events-append ours sub [] ys = refl
wanted_events-append ours sub (x ∷ xs) ys = elim (Bool-cases (wanted sub x)) [
  | inl y ↦ rw (y) (ap (λ l. notification_of ours x ∷ l) (wanted_events-append ours sub xs ys))
  | inr n ↦ rw (n) (wanted_events-append ours sub xs ys)
]

wanted_events-advance :
    (ours : PeerId) (log : Log) (sub : Subscription) (xs : List DocEvent)
    → wanted_events ours (advance log sub) xs ≡ wanted_events ours sub xs
unfolding wanted_events wanted
wanted_events-advance ours log sub [] = refl
wanted_events-advance ours log sub (x ∷ xs) =
    ap (λ l. if wanted sub x then notification_of ours x ∷ l else l)
      (wanted_events-advance ours log sub xs)

-- The events of a log, and more behind them.
abbrev pub grown : Log → List DocEvent → Log
grown log more = record { events = log.events ++ more }

owed_nothing :
    (ours : PeerId) (log : Log) (p : PeerId) (subs : List Subscription)
    → All (λ sub. p ≢ sub.peer) subs
    → owed ours log p subs ≡ []
unfolding owed
owed_nothing ours log p [] h = refl
owed_nothing ours log p (sub ∷ subs) (d, h) =
    owed_other ours log p sub subs (λ e. d (sym e)) ∙ owed_nothing ours log p subs h

All-advance :
    (P : PeerId → Type 0) (log : Log) (subs : List Subscription)
    → All (λ sub. P sub.peer) subs
    → All (λ sub. P sub.peer) (map (advance log) subs)
All-advance P log [] h = tt
All-advance P log (sub ∷ subs) (d, h) = (d, All-advance P log subs h)

wanted_later :
    (ours : PeerId) (log : Log) (more : List DocEvent) (sub : Subscription)
    → IsWithin log sub
    → wanted_events ours sub (drop sub.offset log.events)
        ++ wanted_events ours (advance log sub) (drop (log_offset log) (log.events ++ more))
      ≡ wanted_events ours sub (drop sub.offset (log.events ++ more))
unfolding log_offset
wanted_later ours log more sub h =
    rw
      (
        drop-append_le sub.offset log.events more h,
        drop-append log.events more,
        wanted_events-append ours sub (drop sub.offset log.events) more,
        wanted_events-advance ours log sub more,
      )
      refl

owed-advance :
    (ours : PeerId) (log : Log) (more : List DocEvent) (p : PeerId) (subs : List Subscription)
    → All (IsWithin log) subs
    → Pairwise (λ a b. a.peer ≢ b.peer) subs
    → owed ours log p subs ++ owed ours (grown log more) p (map (advance log) subs)
      ≡ owed ours (grown log more) p subs
unfolding owed
owed-advance ours log more p [] h d = refl
owed-advance ours log more p (sub ∷ subs) (h, hs) (d, ds) = elim (Bool-cases (sub.peer =? p)) [
  | inl y ↦
      let e = eq_of_=? sub.peer p y in
      let others = subst (λ q. All (λ (x : Subscription). q ≢ x.peer) subs) e d in
      let log' = grown log more in
      let first = wanted_events ours sub (drop sub.offset log.events) in
      let second =
        wanted_events ours (advance log sub) (drop (log_offset log) (log.events ++ more)) in
      let whole = wanted_events ours sub (drop sub.offset (log.events ++ more)) in
      ap (λ l. l ++ owed ours log' p (map (advance log) (sub ∷ subs)))
        (owed_mine ours log p sub subs e
          ∙ ap (λ l. first ++ l) (owed_nothing ours log p subs others)
          ∙ append-nil first)
      ∙ ap (λ l. first ++ l)
          (owed_mine ours log' p (advance log sub) (map (advance log) subs) e
            ∙ ap (λ l. second ++ l)
                (owed_nothing ours log' p (map (advance log) subs)
                  (All-advance (λ q. p ≢ q) log subs others))
            ∙ append-nil second)
      ∙ wanted_later ours log more sub h
      ∙ sym (
          owed_mine ours log' p sub subs e
          ∙ ap (λ l. whole ++ l) (owed_nothing ours log' p subs others)
          ∙ append-nil whole)
  | inr n ↦
      let e = ne_of_=? sub.peer p n in
      let log' = grown log more in
      ap (λ l. l ++ owed ours log' p (map (advance log) (sub ∷ subs)))
        (owed_other ours log p sub subs e)
      ∙ ap (λ l. owed ours log p subs ++ l)
          (owed_other ours log' p (advance log sub) (map (advance log) subs) e)
      ∙ owed-advance ours log more p subs hs ds
      ∙ sym (owed_other ours log' p sub subs e)
]

advance-advance :
    (log log' : Log) (subs : List Subscription)
    → map (advance log') (map (advance log) subs) ≡ map (advance log') subs
advance-advance log log' [] = refl
advance-advance log log' (sub ∷ subs) =
    ap (λ l. advance log' sub ∷ l) (advance-advance log log' subs)

IsWithin-grown :
    (log : Log) (more : List DocEvent) (subs : List Subscription)
    → All (IsWithin log) subs
    → All (IsWithin (grown log more)) subs
unfolding log_offset
IsWithin-grown log more [] h = tt
IsWithin-grown log more (sub ∷ subs) (h, hs) =
    (omega (arith, length-append log.events more), IsWithin-grown log more subs hs)

IsWithin-advance :
    (log : Log) (subs : List Subscription) → All (IsWithin log) (map (advance log) subs)
unfolding log_offset
IsWithin-advance log [] = tt
IsWithin-advance log (sub ∷ subs) = (omega arith, IsWithin-advance log subs)

-- Nothing is lost and nothing comes twice: where no two subscriptions are of one peer and none has
-- read further than the log goes, `new_events` on the log and again on the log with more events
-- gives each peer in two parts what one call on the longer log would have given it, and leaves the
-- same subscriptions.
pub new_events-new_events :
    (log : Log) (more : List DocEvent) (s : Subscriptions)
    → All (IsWithin log) s.subscriptions
    → Pairwise (λ a b. a.peer ≢ b.peer) s.subscriptions
    → (s' s'' : Subscriptions) × (now later once : List (PeerId × List Notification)) × (new_events
          log s
        ≡ some (s', now))
      × (new_events (grown log more) s' ≡ some (s'', later))
      × (new_events (grown log more) s ≡ some (s'', once))
      × ((p : PeerId) → delivered now p ++ delivered later p ≡ delivered once p)
unfolding new_events
new_events-new_events log more s h d =
    let ours = s.our_peer_id in
    let subs = s.subscriptions in
    let log' = grown log more in
    let (now, e, f) = loop-owed ours log subs [] h in
    let (later, e', f') =
      loop-owed ours log' (map (advance log) subs) []
        (IsWithin-grown log more (map (advance log) subs) (IsWithin-advance log subs)) in
    let (once, e'', f'') = loop-owed ours log' subs [] (IsWithin-grown log more subs h) in
    (
      record s { subscriptions = map (advance log) subs },
      record s { subscriptions = map (advance log') subs },
      now,
      later,
      once,
      rw (new_events, e) refl,
      rw (new_events, e')
          (ap (λ l. some (record s { subscriptions = l }, later)) (advance-advance log log' subs)),
      rw (new_events, e'') refl,
      λ p.
          ap (λ l. l ++ delivered later p) (f p)
          ∙ ap (λ l. owed ours log p subs ++ l) (f' p)
          ∙ owed-advance ours log more p subs h d
          ∙ sym (f'' p),
    )
