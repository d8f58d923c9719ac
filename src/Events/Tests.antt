-- ===== src/Events/Tests.antt =====
-- Runs of the event check and of the broker.
use waffynx.Events.{WafEvent, type_blocked, Broker}
use waffynx.Events.Delivery.{stamp, receive_more, publish_all, publish_all-subscribers}
use waffynx.Common.{txt, ℕ, ◌≡◌, List, [], ◌∷◌, map, arith}

abbrev blocked : WafEvent
blocked = record {
  type = type_blocked;
  timestamp = 0;
  method = txt "GET";
  path = txt "/";
  remote_ip = [];
  rule_id = txt "r";
  reason = [];
}

abbrev one_subscriber : Broker
one_subscriber = record {
  subscribers = record { channel = 0; waiting = [] } ∷ [];
  next_channel = 1;
}

abbrev two_events : List (ℕ × WafEvent)
two_events = (1, blocked) ∷ (2, record blocked { path = txt "/b" }) ∷ []

publish_all-subscribers_example :
    (publish_all two_events one_subscriber).subscribers
    ≡ map (receive_more (map stamp two_events)) one_subscriber.subscribers
publish_all-subscribers_example =
    publish_all-subscribers two_events one_subscriber ((omega arith), tt)
