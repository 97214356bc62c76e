-- ===== src/Notify/Notifier/Queue.antt =====
-- The channel of the notifier: its bound, its order, and what is dropped.
use pocket_settlement_monito.Prelude.{
  ℕ, zero, suc, ◌-◌, ◌≤◌, ◌≡◌, refl, sym, ap, ◌∙◌, true, inl, inr, List, [], ◌∷◌, ◌++◌, map, take,
  drop, length, length-append, ltb, arith, Bool-cases,
}
use mathlib.Core.List.{append-nil, append_assoc}
use pocket_settlement_monito.Metrics.{Registry, discord_notification_errors, when_live}
use pocket_settlement_monito.Notify.Notifier.{
  channel_buffer_size, Notification, Notifier, enqueue, enqueue_all,
}

abbrev pub errors_of : List Notification → Registry
errors_of msgs = map (λ m. discord_notification_errors m.notif_type) msgs

abbrev pub room : Notifier → ℕ
room n = channel_buffer_size - length n.channel

-- The first `k` messages join the channel, and the others are counted.
abbrev pub accept : ℕ → List Notification → Notifier → Notifier
accept k msgs n = record n {
  channel = n.channel ++ take k msgs;
  metrics = n.metrics ++ errors_of (drop k msgs);
}

accept-nil : (k : ℕ) (n : Notifier) → n ≡ accept k [] n
accept-nil zero n = rw (append-nil n.channel, append-nil n.metrics)
accept-nil (suc k) n = rw (append-nil n.channel, append-nil n.metrics)

room-enqueued :
    (msg : Notification) (n : Notifier)
    → ltb (length n.channel) channel_buffer_size ≡ true
    → room n ≡ suc (room (record n { channel = n.channel ++ msg ∷ [] }))
room-enqueued msg n fits = ground (arith, length-append n.channel (msg ∷ []))

-- Of messages that are sent one after the other, as many join the channel as there is room for, in their
-- order, and each other one is dropped and counted as an error of its type.
pub enqueue_all_lem :
    (msgs : List Notification) (n : Notifier) → enqueue_all msgs n ≡ accept (room n) msgs n
unfolding enqueue_all enqueue when_live
enqueue_all_lem [] n = accept-nil (room n) n
enqueue_all_lem (msg ∷ msgs) n = elim (Bool-cases (ltb (length n.channel) channel_buffer_size)) [
  | inl fits ↦
      let n' : Notifier = record n { channel = n.channel ++ msg ∷ [] } in
      rw (fits, enqueue_all_lem msgs, room-enqueued msg n fits)
        (ap (λ ch. record (accept (room n') msgs n') { channel = ch })
          (append_assoc n.channel (msg ∷ []) (take (room n') msgs)))
  | inr full ↦
      let none_left : room n ≡ 0 = ground arith in
      rw (full, enqueue_all_lem msgs, none_left)
        (ap (λ m. record (accept 0 [] n) { metrics = m })
          (append_assoc n.metrics (discord_notification_errors msg.notif_type ∷ [])
            (errors_of msgs)))
]

-- What waits in the channel, and the metrics: all that a send changes.
abbrev pub Outbox : Type 0
Outbox = List Notification × Registry

abbrev pub outbox : Notifier → Outbox
outbox n = (n.channel, n.metrics)

-- Messages offered to a channel: those for which there is room join it, the others are counted.
unfoldable pub offer : List Notification → Outbox → Outbox
offer msgs (channel, metrics) =
    let free = channel_buffer_size - length channel in
    (channel ++ take free msgs, metrics ++ errors_of (drop free msgs))

pub outbox-enqueue_all :
    (msgs : List Notification) (n : Notifier) → outbox (enqueue_all msgs n) ≡ offer msgs (outbox n)
unfolding offer
outbox-enqueue_all msgs n = ap outbox (enqueue_all_lem msgs n)

enqueue_all-append :
    (xs ys : List Notification) (n : Notifier)
    → enqueue_all (xs ++ ys) n ≡ enqueue_all ys (enqueue_all xs n)
unfolding enqueue_all
enqueue_all-append [] ys n = refl
enqueue_all-append (x ∷ xs) ys n = enqueue_all-append xs ys (enqueue x n)

pub offer-append :
    (xs ys : List Notification) (n : Notifier)
    → offer (xs ++ ys) (outbox n) ≡ offer ys (offer xs (outbox n))
offer-append xs ys n =
    sym (outbox-enqueue_all (xs ++ ys) n)
    ∙ ap outbox (enqueue_all-append xs ys n)
    ∙ outbox-enqueue_all ys (enqueue_all xs n)
    ∙ ap (offer ys) (outbox-enqueue_all xs n)

pub offer-append_twice :
    (xs ys zs : List Notification) (n : Notifier)
    → offer (xs ++ (ys ++ zs)) (outbox n) ≡ offer zs (offer ys (offer xs (outbox n)))
offer-append_twice xs ys zs n =
    offer-append xs (ys ++ zs) n
    ∙ ap (offer (ys ++ zs)) (sym (outbox-enqueue_all xs n))
    ∙ offer-append ys zs (enqueue_all xs n)
    ∙ ap (λ o. offer zs (offer ys o)) (outbox-enqueue_all xs n)

pub offer-nil : (n : Notifier) → offer [] (outbox n) ≡ outbox n
unfolding enqueue_all
offer-nil n = sym (outbox-enqueue_all [] n)

pub outbox-enqueue :
    (msg : Notification) (n : Notifier) → outbox (enqueue msg n) ≡ offer (msg ∷ []) (outbox n)
unfolding enqueue_all
outbox-enqueue msg n = outbox-enqueue_all (msg ∷ []) n

-- A send changes nothing else.
pub enqueue_frame :
    {F : Type 0} (field : Notifier → F)
    → ((ch : List Notification) (n : Notifier) → field (record n { channel = ch }) ≡ field n)
    → ((m : Registry) (n : Notifier) → field (record n { metrics = m }) ≡ field n)
    → (msg : Notification) (n : Notifier) → field (enqueue msg n) ≡ field n
unfolding enqueue
enqueue_frame field hc hm msg n = elim (Bool-cases (ltb (length n.channel) channel_buffer_size)) [
  | inl fits ↦ rw fits (hc _ n)
  | inr full ↦ rw full (hm _ n)
]

abbrev pub IsBounded : Notifier → Type 0
IsBounded n = length n.channel ≤ channel_buffer_size

pub enqueue-IsBounded :
    (msg : Notification) (n : Notifier) → IsBounded n → IsBounded (enqueue msg n)
unfolding enqueue
enqueue-IsBounded msg n h = elim (Bool-cases (ltb (length n.channel) channel_buffer_size)) [
  | inl fits ↦ rw fits (ground (arith, length-append n.channel (msg ∷ [])))
  | inr full ↦ rw full h
]

pub enqueue_all-IsBounded :
    (msgs : List Notification) (n : Notifier) → IsBounded n → IsBounded (enqueue_all msgs n)
unfolding enqueue_all
enqueue_all-IsBounded [] n h = h
enqueue_all-IsBounded (msg ∷ msgs) n h =
    enqueue_all-IsBounded msgs (enqueue msg n) (enqueue-IsBounded msg n h)
