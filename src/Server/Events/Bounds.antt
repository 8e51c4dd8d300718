-- ===== src/Server/Events/Bounds.antt =====
-- The channels of the event hub in any run.
use dropboy.Base.{
  ℕ, nat_eq, ◌==◌, List, [], ◌∷◌, length, ◌≡◌, refl, arith, ◌≤◌, length-append, keep, map, Bool,
  inl, inr, Bool-cases,
}
use dropboy.Server.Events.{
  Event, Subscriber, EventHub, new_event_hub, offer, publish, subscribe, unsubscribe, deliver,
  forward, rest_of, take_one, receive,
}

-- What can happen to the hub, in any order.
pub data Turn : EventHub → EventHub → Type 0 where
  publishes : {h : EventHub} (e : Event) → Turn h (publish e h)
  subscribes : {h : EventHub} (id : ℕ) → Turn h (subscribe id h)
  unsubscribes : {h : EventHub} (id : ℕ) → Turn h (unsubscribe id h)
  delivers : {h : EventHub} → Turn h (deliver h)
  receives : {h : EventHub} (id : ℕ) → Turn h (receive id h)

pub data Reach : EventHub → Type 0 where
  starts : Reach new_event_hub
  turns : {h k : EventHub} → Reach h → Turn h k → Reach k

abbrev pub AreShort : List Subscriber → Type 0
AreShort [] = Unit {0}
AreShort (c ∷ cs) = (length c.queue ≤ 16) × AreShort cs

-- No channel holds more than its capacity.
abbrev pub IsBounded : EventHub → Type 0
IsBounded h = (length h.inbox ≤ 64) × AreShort h.clients

pub length-offer :
    (capacity : ℕ) (queue : List Event) (e : Event)
    → length queue ≤ capacity
    → length (offer capacity queue e) ≤ capacity
unfolding offer
length-offer capacity queue e h = ground (arith, length-append queue (e ∷ []))

AreShort-keep : (p : Subscriber → Bool) (cs : List Subscriber) → AreShort cs → AreShort (keep p cs)
AreShort-keep p [] h = tt
AreShort-keep p (c ∷ cs) (short, h) = elim (Bool-cases (p c)) [
  | inl kept ↦ rw kept (short, AreShort-keep p cs h)
  | inr gone ↦ rw gone (AreShort-keep p cs h)
]

pub AreShort-map :
    (f : Subscriber → Subscriber) (cs : List Subscriber)
    → ((c : Subscriber) → length c.queue ≤ 16 → length (f c).queue ≤ 16)
    → AreShort cs
    → AreShort (map f cs)
AreShort-map f [] k h = tt
AreShort-map f (c ∷ cs) k (short, h) = (k c short, AreShort-map f cs k h)

take_one-short : (id : ℕ) (c : Subscriber) → length c.queue ≤ 16 → length (take_one id c).queue ≤ 16
take_one-short id c h = elim (Bool-cases (c.id == id)) [
  | inl mine ↦ rw mine (shorter c.queue h)
  | inr other ↦ rw other h
]
  where
    shorter : (q : List Event) → length q ≤ 16 → length (rest_of q) ≤ 16
    shorter [] h = h
    shorter (e ∷ q) h = omega arith

deliver-IsBounded : (h : EventHub) → IsBounded h → IsBounded (deliver h)
unfolding deliver
deliver-IsBounded h (inbox, clients) = go h.inbox refl
  where
    go : (q : List Event) → h.inbox ≡ q → IsBounded (deliver h)
    go [] e = rw e (ground arith, clients)
    go (v ∷ rest) e =
        let short : length (v ∷ rest) ≤ 64 = rw e at inbox in
        rw e (
          omega (arith, short),
          AreShort-map (forward v) h.clients (λ c k. length-offer 16 c.queue v k) clients,
        )

Turn-IsBounded : {h k : EventHub} → Turn h k → IsBounded h → IsBounded k
unfolding publish subscribe unsubscribe receive
Turn-IsBounded {h} (publishes e) (inbox, clients) = (length-offer 64 h.inbox e inbox, clients)
Turn-IsBounded (subscribes id) (inbox, clients) = (inbox, (ground arith, clients))
Turn-IsBounded {h} (unsubscribes id) (inbox, clients) = (inbox, AreShort-keep _ h.clients clients)
Turn-IsBounded {h} delivers b = deliver-IsBounded h b
Turn-IsBounded {h} (receives id) (inbox, clients) =
    (inbox, AreShort-map (take_one id) h.clients (take_one-short id) clients)

-- In any run of publishing, subscribing, unsubscribing, delivering and receiving, the inbox holds at
-- most 64 events and the channel of each subscriber at most 16.
pub Reach-IsBounded : (h : EventHub) → Reach h → IsBounded h
Reach-IsBounded h starts = (ground arith, tt)
Reach-IsBounded h (turns r t) = Turn-IsBounded t (Reach-IsBounded _ r)
