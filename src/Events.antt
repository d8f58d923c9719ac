-- ===== src/Events.antt =====
-- internal/events/broker.go: events, their check, the publisher and the broker. The channel of a
-- subscriber is the list of the events that wait in it, under a number that stands for the Go
-- channel; the JSON of an event is the event. `WafEvent.Payload` is left out. Each method runs
-- under the broker's lock, so it is one step.
pub mod Bound
pub mod Delivery
pub mod Validate
pub mod Tests
use waffynx.Common.{
  ltb, eqb, if◌then◌else◌, length, any, Text, txt, text_beq, is_empty, ℕ, zero, suc, ℤ, pos, negsuc,
  not, ◌||◌, Option, none, some, List, [], ◌∷◌, ◌++◌, map,
}

abbrev pub EventType : Type 0
EventType = Text

abbrev pub type_blocked : EventType
type_blocked = txt "blocked"

pub record WafEvent : Type 0 where
  pub type : EventType
  pub timestamp : ℕ
  pub method : Text
  pub path : Text
  pub remote_ip : Text
  pub rule_id : Text
  pub reason : Text

pub data ValidationError : Type 0 where
  unsupported_type : EventType → ValidationError
  field_too_long : ValidationError
  missing_field : ValidationError

-- `none` is the nil error.
unfoldable pub validate : WafEvent → Option ValidationError
validate e =
    if not (text_beq e.type type_blocked)
    then some (unsupported_type e.type)
    else if ltb 8192 (length e.path)
        || (ltb 4096 (length e.reason)
            || (ltb 256 (length e.rule_id)
                || (ltb 256 (length e.remote_ip) || ltb 32 (length e.method))))
    then some field_too_long
    else if is_empty e.path || is_empty e.rule_id
    then some missing_field
    else none

-- The publisher posts to the event API; `post` is the HTTP request, which gives the status of the
-- answer, or nothing if it failed. Building the request is taken to succeed.
pub record Publisher (World : Type 0) : Type 0 where
  pub url : Text
  pub token : Text
  pub post : World → WafEvent → World × Option ℕ

pub data PublishError : Type 0 where
  invalid_event : ValidationError → PublishError
  post_failed : PublishError
  unexpected_status : ℕ → PublishError

pub status_accepted : ℕ
status_accepted = 202

pub judge_answer : Option ℕ → Option PublishError
unfolding status_accepted
judge_answer none = some post_failed
judge_answer (some status) =
    if eqb status status_accepted then none else some (unexpected_status status)

-- In nanoseconds; a timeout that is not positive becomes 200 milliseconds.
unfoldable pub usable_timeout : ℤ → ℕ
usable_timeout (pos zero) = 200000000
usable_timeout (pos (suc n)) = suc n
usable_timeout (negsuc n) = 200000000

module _ {World : Type 0} where
  -- `client` is an HTTP client with a timeout.
  unfoldable pub new_publisher :
      (ℕ → World → WafEvent → World × Option ℕ) → Text → Text → ℤ → Publisher World
  unfolding usable_timeout
  new_publisher client url token timeout = record {
    url = url;
    token = token;
    post = client (usable_timeout timeout);
  }

  unfoldable pub publish_remote : WafEvent → Publisher World → World → World × Option PublishError
  unfolding judge_answer
  publish_remote event p w =
      if is_empty p.url || is_empty p.token then (w, none) else elim (validate event) [
        | some e ↦ (w, some (invalid_event e))
        | none ↦ ((p.post w event).0, judge_answer (p.post w event).1)
      ]

-- The buffer of a subscriber's channel.
abbrev pub capacity : ℕ
capacity = 64

pub record Subscriber : Type 0 where
  pub channel : ℕ
  pub waiting : List WafEvent

pub record Broker : Type 0 where
  pub subscribers : List Subscriber
  pub next_channel : ℕ

abbrev pub new_broker : Broker
new_broker = record { subscribers = []; next_channel = 0 }

-- The new channel is one that no subscriber has.
unfoldable pub subscribe : Broker → Broker × ℕ
subscribe b = (
  record {
    subscribers = b.subscribers ++ record { channel = b.next_channel; waiting = [] } ∷ [];
    next_channel = suc b.next_channel;
  },
  b.next_channel,
)

unfoldable pub without : ℕ → List Subscriber → List Subscriber
without ch [] = []
without ch (s ∷ ss) = if eqb s.channel ch then without ch ss else s ∷ without ch ss

-- Every channel but those of the subscribers has been closed before, and closing it again is a
-- panic, `none`.
unfoldable pub unsubscribe : ℕ → Broker → Option Broker
unfolding without
unsubscribe ch b =
    if any (λ s. eqb s.channel ch) b.subscribers
    then some (record b { subscribers = without ch b.subscribers })
    else none

-- The `select` with its `default`: a full channel drops the event.
unfoldable pub offer : WafEvent → Subscriber → Subscriber
offer e s =
    if ltb (length s.waiting) capacity then record s { waiting = s.waiting ++ e ∷ [] } else s

unfoldable pub publish : ℕ → WafEvent → Broker → Broker
unfolding offer
publish now event b = record b {
  subscribers = map (offer (record event { timestamp = now })) b.subscribers;
}
