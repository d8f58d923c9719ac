-- ===== src/Events/Delivery.antt =====
-- What a subscriber finds in its channel.
use mathlib.Core.Path.{ap₂}
use waffynx.Events.Bound.{Fits, offer-Fits}
use waffynx.Events.{WafEvent, capacity, Subscriber, Broker, offer, publish}
use waffynx.Common.{
  ltb, Bool-cases, length, take, All, ℕ, zero, suc, ◌≤◌, ◌≡◌, refl, sym, ap, ◌∙◌, inl, inr, List,
  [], ◌∷◌, ◌++◌, map, append-nil, append_assoc, arith,
}

pub publish_all : List (ℕ × WafEvent) → Broker → Broker
publish_all [] b = b
publish_all ((now, e) ∷ es) b = publish_all es (publish now e b)

abbrev pub stamp : ℕ × WafEvent → WafEvent
stamp (now, e) = record e { timestamp = now }

-- The events that a subscriber finds after others were published.
abbrev pub receive_more : List WafEvent → Subscriber → Subscriber
receive_more es s = record s { waiting = take capacity (s.waiting ++ es) }

take_full : (n : ℕ) (xs ys : List WafEvent) → length xs ≡ n → take n (xs ++ ys) ≡ xs
take_full zero [] ys h = refl
take_full zero (x ∷ xs) ys h = absurd (omega arith)
take_full (suc n) [] ys h = absurd (omega arith)
take_full (suc n) (x ∷ xs) ys h = ap (◌∷◌ x) (take_full n xs ys (omega arith))

take_short : (n : ℕ) (xs : List WafEvent) → length xs ≤ n → take n xs ≡ xs
take_short zero [] h = refl
take_short zero (x ∷ xs) h = elim h [ ]
take_short (suc n) [] h = refl
take_short (suc n) (x ∷ xs) h = ap (◌∷◌ x) (take_short n xs (omega arith))

receive_more-nil : (ss : List Subscriber) → All Fits ss → map (receive_more []) ss ≡ ss
receive_more-nil [] h = refl
receive_more-nil (s ∷ ss) h =
    ap₂ (λ w (r : List Subscriber). record s { waiting = w } ∷ r)
      (ap (take capacity) (append-nil s.waiting) ∙ take_short capacity s.waiting h.0)
      (receive_more-nil ss h.1)

receive_more-offer :
    (e : WafEvent) (es : List WafEvent) (s : Subscriber)
    → Fits s
    → receive_more es (offer e s) ≡ receive_more (e ∷ es) s
unfolding offer
receive_more-offer e es s h = elim (Bool-cases (ltb (length s.waiting) capacity)) [
  | inl room ↦
      rw room
        (ap (λ w. record s { waiting = take capacity w }) (append_assoc s.waiting (e ∷ []) es))
  | inr full ↦
      let exact : length s.waiting ≡ capacity = ground arith in
      rw full (
        ap (λ w. record s { waiting = w })
          (take_full capacity s.waiting es exact
            ∙ sym (take_full capacity s.waiting (e ∷ es) exact)))
]

map-receive_more-offer :
    (e : WafEvent) (es : List WafEvent) (ss : List Subscriber)
    → All Fits ss
    → map (receive_more es) (map (offer e) ss) ≡ map (receive_more (e ∷ es)) ss
map-receive_more-offer e es [] h = refl
map-receive_more-offer e es (s ∷ ss) h =
    ap₂ (◌∷◌) (receive_more-offer e es s h.0) (map-receive_more-offer e es ss h.1)

-- A sequence of published events reaches every subscriber: behind the events that waited, each
-- channel gets the new ones in the order of the calls, up to its capacity; what comes after that
-- is dropped for this subscriber. The channels must be within their capacity before.
pub publish_all-subscribers :
    (es : List (ℕ × WafEvent)) (b : Broker)
    → All Fits b.subscribers
    → (publish_all es b).subscribers ≡ map (receive_more (map stamp es)) b.subscribers
unfolding publish_all publish
publish_all-subscribers [] b h = sym (receive_more-nil b.subscribers h)
publish_all-subscribers ((now, e) ∷ es) b h =
    publish_all-subscribers es (publish now e b) (offer-Fits (stamp (now, e)) b.subscribers h)
    ∙ map-receive_more-offer (stamp (now, e)) (map stamp es) b.subscribers h
