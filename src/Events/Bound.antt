-- ===== src/Events/Bound.antt =====
-- The bound of the channels of the broker.
use waffynx.Events.{WafEvent, capacity, Subscriber, offer}
use waffynx.Common.{length, length-append, All, ◌≤◌, List, [], ◌∷◌, map, arith}

abbrev pub Fits : Subscriber → Type 0
Fits s = length s.waiting ≤ capacity

pub offer-Fits : (e : WafEvent) (ss : List Subscriber) → All Fits ss → All Fits (map (offer e) ss)
unfolding offer
offer-Fits e [] h = tt
offer-Fits e (s ∷ ss) h = (ground (arith, length-append s.waiting (e ∷ [])), offer-Fits e ss h.1)
