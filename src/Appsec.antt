-- ===== src/Appsec.antt =====
-- internal/appsec/appsec.go: what a scorer is given and what it answers. Scores and confidences
-- are floating-point numbers that the callers modelled here only log; they are left out.
use waffynx.Common.{Text, Map, ℕ, Bool, Option, List}

-- `type Verdict string`: a bridge may answer any other text.
pub data Verdict : Type 0 where
  allow : Verdict
  block : Verdict
  suspicious : Verdict
  other : Text → Verdict

pub record Result : Type 0 where
  pub verdict : Verdict
  pub reasons : List Text
  pub anomalies : List Text
  pub model_name : Text

pub record Features : Type 0 where
  pub method : Text
  pub uri : Text
  pub host : Text
  pub client_ip : Text
  pub user_agent : Text
  pub content_type : Text
  pub referer : Text
  pub body : Text
  pub uri_length : ℕ
  pub query_params : Map Text
  pub has_payload : Bool
  pub payload_size : ℕ

-- The interface `Scorer`: an answer, or an error.
pub record Scorer (World : Type 0) : Type 0 where
  pub evaluate : World → Features → World × Option Result
