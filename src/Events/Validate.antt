-- ===== src/Events/Validate.antt =====
-- Which events are valid, and which the publisher posts.
use waffynx.Events.{type_blocked, WafEvent, validate}
use waffynx.Common.{
  length, Text, text_beq_iff, is_empty, ◌≤◌, ◌≡◌, refl, ◌≢◌, ◌↔◌, false, none, [], ◌∷◌, arith,
}

pub record IsPublishable (e : WafEvent) : Type 0 where
  pub blocked : e.type ≡ type_blocked
  pub path_fits : length e.path ≤ 8192
  pub reason_fits : length e.reason ≤ 4096
  pub rule_id_fits : length e.rule_id ≤ 256
  pub remote_ip_fits : length e.remote_ip ≤ 256
  pub method_fits : length e.method ≤ 32
  pub has_path : e.path ≢ []
  pub has_rule : e.rule_id ≢ []

is_empty-false : (s : Text) → (is_empty s ≡ false) ↔ (s ≢ [])
is_empty-false [] = ((λ h. cc), λ h. absurd (h refl))
is_empty-false (c ∷ s) = ((λ _ h. cc), λ _. refl)

-- An event passes the check exactly if it is a blocked event with a path and a rule, and each of
-- its texts is within its length.
pub validate_iff : (e : WafEvent) → (validate e ≡ none) ↔ IsPublishable e
unfolding validate
validate_iff e =
    ground
      (arith, text_beq_iff e.type type_blocked, is_empty-false e.path, is_empty-false e.rule_id)
