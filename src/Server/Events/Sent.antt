-- ===== src/Server/Events/Sent.antt =====
-- What the subscribers of the event hub get of the events that are published.
use mathlib.Core.List.{append-nil, append_assoc}
use dropboy.Base.{
  ℕ, zero, suc, nat_eq, List, [], ◌∷◌, ◌++◌, length, ltb, ◌≡◌, refl, ap, ◌∙◌, arith, ◌≤◌, map,
  Bool-cases, inl, inr,
}
use dropboy.Server.Events.{Event, Subscriber, EventHub, offer, publish, deliver, forward}
use dropboy.Server.Events.Bounds.{AreShort, AreShort-map, length-offer, Reach, Reach-IsBounded}

-- The first elements of a list, at most so many.
unfoldable pub take {ℓ} : {A : Type ℓ} → ℕ → List A → List A
take zero l = []
take (suc n) [] = []
take (suc n) (x ∷ l) = x ∷ take n l

take-take_append {ℓ} :
    {A : Type ℓ} (n : ℕ) (a b : List A) → take n (take n a ++ b) ≡ take n (a ++ b)
unfolding take
take-take_append zero a b = refl
take-take_append (suc n) [] b = refl
take-take_append (suc n) (x ∷ a) b = ap (λ l. x ∷ l) (take-take_append n a b)

take-eq_self {ℓ} : {A : Type ℓ} (n : ℕ) (l : List A) → length l ≤ n → take n l ≡ l
unfolding take
take-eq_self zero [] h = refl
take-eq_self zero (x ∷ l) h = ground arith
take-eq_self (suc n) [] h = refl
take-eq_self (suc n) (x ∷ l) h = ap (λ t. x ∷ t) (take-eq_self n l (omega arith))

take-nil : (n : ℕ) → take {A = Event} n [] ≡ []
unfolding take
take-nil zero = refl
take-nil (suc n) = refl

take-append_nil : (n : ℕ) (q : List Event) → length q ≤ n → take n (q ++ []) ≡ q
take-append_nil n q h = rw (append-nil q) (take-eq_self n q h)

-- Sending to a channel with an empty default keeps what fits.
offer-take :
    (n : ℕ) (q : List Event) (e : Event) → length q ≤ n → offer n q e ≡ take n (q ++ e ∷ [])
unfolding offer take
offer-take zero [] e h = refl
offer-take zero (x ∷ q) e h = ground arith
offer-take (suc n) [] e h = rw (take-nil n) (ground arith)
offer-take (suc n) (x ∷ q) e h =
    let same = offer-take n q e (omega arith) in
    elim (Bool-cases (ltb (length q) n)) [
      | inl room ↦ ground (arith, same)
      | inr full ↦ ground (arith, same)
    ]

abbrev pub publish_all : List Event → EventHub → EventHub
publish_all [] h = h
publish_all (e ∷ es) h = publish_all es (publish e h)

-- So many turns of run.
abbrev pub deliver_all : ℕ → EventHub → EventHub
deliver_all zero h = h
deliver_all (suc n) h = deliver_all n (deliver h)

-- A subscriber after these events: its channel has the first 16 of what was in it and of them.
abbrev pub filled : List Event → Subscriber → Subscriber
filled es c = record c { queue = take 16 (c.queue ++ es) }

publish_all-inbox :
    (es : List Event) (h : EventHub)
    → length h.inbox ≤ 64
    → publish_all es h ≡ record h { inbox = take 64 (h.inbox ++ es) }
unfolding publish
publish_all-inbox [] h short = rw (take-append_nil 64 h.inbox short) refl
publish_all-inbox (e ∷ es) h short =
    publish_all-inbox es (publish e h) (length-offer 64 h.inbox e short)
    ∙ ap (λ (q : List Event). record h { inbox = q })
        (rw (offer-take 64 h.inbox e short) (take-take_append 64 (h.inbox ++ e ∷ []) es)
          ∙ ap (take 64) (append_assoc h.inbox (e ∷ []) es))

filled-forward :
    (e : Event) (es : List Event) (c : Subscriber)
    → length c.queue ≤ 16
    → filled es (forward e c) ≡ filled (e ∷ es) c
filled-forward e es c short =
    ap (λ (q : List Event). record c { queue = q })
      (rw (offer-take 16 c.queue e short) (take-take_append 16 (c.queue ++ e ∷ []) es)
        ∙ ap (take 16) (append_assoc c.queue (e ∷ []) es))

map-filled_nil : (cs : List Subscriber) → AreShort cs → cs ≡ map (filled []) cs
map-filled_nil [] short = refl
map-filled_nil (c ∷ cs) (one, short) =
    rw (take-append_nil 16 c.queue one)
      (ap (λ (l : List Subscriber). c ∷ l) (map-filled_nil cs short))

map-filled_cons :
    (e : Event) (es : List Event) (cs : List Subscriber)
    → AreShort cs
    → map (filled es) (map (forward e) cs) ≡ map (filled (e ∷ es)) cs
map-filled_cons e es [] short = refl
map-filled_cons e es (c ∷ cs) (one, short) =
    rw (filled-forward e es c one)
      (ap (λ (l : List Subscriber). filled (e ∷ es) c ∷ l) (map-filled_cons e es cs short))

deliver_all-filled :
    (q : List Event) (cs : List Subscriber)
    → AreShort cs
    → deliver_all (length q) (record { clients = cs; inbox = q })
      ≡ record { clients = map (filled q) cs; inbox = [] }
unfolding deliver
deliver_all-filled [] cs short =
    ap (λ (l : List Subscriber). record { clients = l; inbox = [] }) (map-filled_nil cs short)
deliver_all-filled (e ∷ q) cs short =
    deliver_all-filled q (map (forward e) cs)
      (AreShort-map (forward e) cs (λ c k. length-offer 16 c.queue e k) short)
    ∙ ap (λ (l : List Subscriber). record { clients = l; inbox = [] })
        (map-filled_cons e q cs short)

-- From any hub that a run leads to: when events are published and run then takes all that waits, the
-- inbox is empty and the channel of each subscriber has, in their order, the first 16 of what was
-- in it before and what run took; run took the first 64 of what was waiting before and the new
-- events. So a full channel costs its own subscriber events and no other.
pub publish_all-deliver_all :
    (h : EventHub) (es : List Event)
    → Reach h
    → deliver_all (length (publish_all es h).inbox) (publish_all es h)
      ≡ record { clients = map (filled (take 64 (h.inbox ++ es))) h.clients; inbox = [] }
publish_all-deliver_all h es reach =
    let (inbox, clients) = Reach-IsBounded h reach in
    rw (publish_all-inbox es h inbox)
      (deliver_all-filled (take 64 (h.inbox ++ es)) h.clients clients)
