-- ===== src/Rules/Match.antt =====
-- When a custom rule matches a request.
use waffynx.Policy.{Request}
use waffynx.Rules.{
  NetLib, CustomRule, excludes, header_excludes, query_matches, cidrs_exclude, match_rule,
}
use waffynx.Common.Substring.{Elem, contains_elem_iff, Contains, contains_text_iff}
use waffynx.Rules.Query.{query_of, passes_query, query_matches_lem}
use waffynx.Common.{
  Option-cases, All, Text, text_beq, text_beq_iff, is_empty, contains_text, lookup, ◌≡◌, refl, sym,
  ◌∙◌, ◌↔◌, ◌⊎◌, inl, inr, Bool, true, false, not, ◌&&◌, none, some, List, [], ◌∷◌, arith,
}

-- A list that is empty restricts nothing.
abbrev pub Admits : List Text → Text → Type 0
Admits list value = (list ≡ []) ⊎ Elem value list

abbrev pub HeaderFits : CustomRule → Request → Type 0
HeaderFits rule req =
    (rule.header_name ≡ [])
    ⊎ (rule.header_value ≡ [])
    ⊎ ((values : List Text) × (lookup rule.header_name req.headers ≡ some values)
        × Elem rule.header_value values)

-- A text of the rule that is empty restricts nothing.
abbrev pub Given : Text → Type 0 → Type 0
Given text P = (text ≡ []) ⊎ P

is_empty_iff : (s : Text) → (is_empty s ≡ true) ↔ (s ≡ [])
is_empty_iff [] = ((λ _. refl), λ _. refl)
is_empty_iff (c ∷ s) = ((λ h. cc), λ h. cc)

excludes_iff : (list : List Text) (value : Text) → (excludes list value ≡ false) ↔ Admits list value
unfolding excludes
excludes_iff [] value = ((λ _. inl refl), λ _. refl)
excludes_iff (x ∷ xs) value = ground (arith, contains_elem_iff (x ∷ xs) value)

header_excludes_iff :
    (rule : CustomRule) (req : Request) → (header_excludes rule req ≡ false) ↔ HeaderFits rule req
unfolding header_excludes
header_excludes_iff rule req = elim (Option-cases (lookup rule.header_name req.headers)) [
  | inl e ↦
      rw (e, header_excludes)
        (ground (arith, is_empty_iff rule.header_name, is_empty_iff rule.header_value))
  | inr (values, e) ↦
      rw (e, header_excludes)
        (ground (
          arith,
          is_empty_iff rule.header_name,
          is_empty_iff rule.header_value,
          contains_elem_iff values rule.header_value,
        ))
]

-- A test of the form `given != "" && !b`, for a `return false`.
unless_iff :
    (given : Text) (b : Bool) (P : Type 0)
    → ((b ≡ true) ↔ P)
    → ((not (is_empty given) && not b) ≡ false) ↔ Given given P
unless_iff given b P e = ground (arith, is_empty_iff given, e)

module _ (lib : NetLib) where
  open lib use {Net, Ip, path_match, parse_cidr, parse_ip, net_contains}

  -- The client lies in the network, if the text is one.
  abbrev pub InNetwork : Text → Text → Type 0
  InNetwork remote cidr =
      (parse_cidr cidr ≡ none)
      ⊎ ((net : Net) × (ip : Ip) × (parse_cidr cidr ≡ some net)
          × (parse_ip remote ≡ some ip)
          × (net_contains net ip ≡ true))

  cidrs_exclude_iff :
      (cidrs : List Text) (remote : Text)
      → (cidrs_exclude lib cidrs remote ≡ false) ↔ All (InNetwork remote) cidrs
  unfolding cidrs_exclude
  cidrs_exclude_iff [] remote = ((λ _. tt), λ _. refl)
  cidrs_exclude_iff (cidr ∷ cidrs) remote = ground (arith, cidrs_exclude_iff cidrs remote)

  match_rule_parts :
      (rule : CustomRule) (req : Request)
      → (match_rule lib rule req ≡ true) ↔ (
          (excludes rule.methods req.method ≡ false)
          × ((not (is_empty rule.path_exact) && not (text_beq req.path rule.path_exact)) ≡ false)
          × ((not (is_empty rule.path_pattern) && not (path_match rule.path_pattern req.path))
              ≡ false)
          × (excludes rule.hosts req.host ≡ false)
          × (excludes rule.ips req.remote_ip ≡ false)
          × (cidrs_exclude lib rule.ip_cidrs req.remote_ip ≡ false)
          × (header_excludes rule req ≡ false)
          × ((not (is_empty rule.body_contains) && not (contains_text req.body rule.body_contains))
              ≡ false)
          × ((not (is_empty rule.query_param) && not (query_matches rule req.path)) ≡ false))
  unfolding match_rule
  match_rule_parts rule req = ground arith

  -- A rule matches exactly the requests that meet each of its conditions. A list condition asks
  -- for one of its entries, but the networks must each hold the client unless they are no
  -- networks; a header condition with no value asks for nothing.
  pub match_rule_iff :
      (rule : CustomRule) (req : Request)
      → (match_rule lib rule req ≡ true) ↔ (
          Admits rule.methods req.method
          × Given rule.path_exact (req.path ≡ rule.path_exact)
          × Given rule.path_pattern (path_match rule.path_pattern req.path ≡ true)
          × Admits rule.hosts req.host
          × Admits rule.ips req.remote_ip
          × All (InNetwork req.remote_ip) rule.ip_cidrs
          × HeaderFits rule req
          × Given rule.body_contains (Contains req.body rule.body_contains)
          × Given rule.query_param (passes_query rule (query_of req.path) ≡ true))
  match_rule_iff rule req = ground (
    arith,
    match_rule_parts rule req,
    excludes_iff rule.methods req.method,
    unless_iff rule.path_exact (text_beq req.path rule.path_exact) (req.path ≡ rule.path_exact)
        (text_beq_iff req.path rule.path_exact),
    unless_iff rule.path_pattern (path_match rule.path_pattern req.path)
        (path_match rule.path_pattern req.path ≡ true) ((λ h. h), λ h. h),
    excludes_iff rule.hosts req.host,
    excludes_iff rule.ips req.remote_ip,
    cidrs_exclude_iff rule.ip_cidrs req.remote_ip,
    header_excludes_iff rule req,
    unless_iff rule.body_contains (contains_text req.body rule.body_contains)
        (Contains req.body rule.body_contains) (contains_text_iff req.body rule.body_contains),
    unless_iff rule.query_param (query_matches rule req.path)
        (passes_query rule (query_of req.path) ≡ true)
        (
          (λ h. sym (query_matches_lem rule req.path) ∙ h),
          λ h. query_matches_lem rule req.path ∙ h,
        ),
  )
