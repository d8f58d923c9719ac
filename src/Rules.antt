-- ===== src/Rules.antt =====
-- internal/rules/engine.go: the engine for custom rules. `filepath.Match`, `net.ParseCIDR`,
-- `net.ParseIP` and `IPNet.Contains` are the operations of a record `NetLib` that the engine takes.
pub mod Query
pub mod Match
pub mod First
pub mod Tests
use waffynx.Policy.{Action, Request, Result, allowed}
use waffynx.Http.{or_empty}
use waffynx.Common.{
  if◌then◌else◌, length, ℤ, lookup, Text, text_beq, is_empty, contains_text, contains_elem, cut, ℕ,
  zero, suc, ◌+◌, Bool, true, false, not, ◌&&◌, Option, none, some, List, [], ◌∷◌, ◌++◌,
}

-- `path_match` is the Boolean result of `filepath.Match` (false with an error), and `none` is the
-- error of `ParseCIDR` and the nil address of `ParseIP`.
pub record NetLib : Type 1 where
  pub Net : Type 0
  pub Ip : Type 0
  pub path_match : Text → Text → Bool
  pub parse_cidr : Text → Option Net
  pub parse_ip : Text → Option Ip
  pub net_contains : Net → Ip → Bool

pub record CustomRule : Type 0 where
  pub id : Text
  pub name : Text
  pub description : Text
  pub enabled : Bool
  pub priority : ℤ
  pub action : Action
  pub methods : List Text
  pub path_pattern : Text
  pub path_exact : Text
  pub hosts : List Text
  pub ips : List Text
  pub ip_cidrs : List Text
  pub header_name : Text
  pub header_value : Text
  pub body_contains : Text
  pub query_param : Text
  pub query_value : Text

pub record Engine : Type 0 where
  pub rules : List CustomRule

abbrev pub new_engine : Engine
new_engine = record { rules = [] }

-- `List` gives a copy.
unfoldable pub list_rules : Engine → List CustomRule
list_rules e = e.rules

unfoldable pub add_rule : CustomRule → Engine → Engine
add_rule r e = record { rules = e.rules ++ r ∷ [] }

unfoldable pub remove_first : Text → List CustomRule → List CustomRule
remove_first id [] = []
remove_first id (r ∷ rs) = if text_beq r.id id then rs else r ∷ remove_first id rs

unfoldable pub remove_rule : Text → Engine → Engine
unfolding remove_first
remove_rule id e = record { rules = remove_first id e.rules }

-- The test `len(list) > 0 && !slices.Contains(list, value)`, for a `return false`.
pub excludes : List Text → Text → Bool
unfolding contains_elem
excludes [] value = false
excludes (x ∷ xs) value = not (contains_elem (x ∷ xs) value)

-- The test of the header: true for a `return false`.
pub header_excludes : CustomRule → Request → Bool
header_excludes rule req =
    if is_empty rule.header_name then false else elim (lookup rule.header_name req.headers) [
      | none ↦ not (is_empty rule.header_value)
      | some values ↦
          not (is_empty rule.header_value) && not (contains_elem values rule.header_value)
    ]

-- The loop over the pairs of the query, on fuel; `none` means that the fuel ran out.
pub query_loop : ℕ → CustomRule → Text → Option Bool
query_loop zero rule query = none
query_loop (suc fuel) rule [] = some false
query_loop (suc fuel) rule (c ∷ s) =
    let (pair, after) = cut b'&' (c ∷ s) in
    let (key, value) = cut b'=' pair in
    let rest = query_loop fuel rule (or_empty after) in
    elim value [
      | none ↦ rest
      | some val ↦
          if text_beq key rule.query_param
          then some (not (not (is_empty rule.query_value) && not (text_beq val rule.query_value)))
          else rest
    ]

-- The last block of `matchRule`; a query shorter than the fuel cannot use it up.
pub query_matches : CustomRule → Text → Bool
unfolding query_loop
query_matches rule path = elim (cut b'?' path).1 [
  | none ↦ false
  | some query ↦ elim (query_loop (length query + 1) rule query) [ none ↦ false | some b ↦ b ]
]

module _ (lib : NetLib) where
  open lib use {path_match, parse_cidr, parse_ip, net_contains}

  -- The loop over the networks: true for a `return false`.
  pub cidrs_exclude : List Text → Text → Bool
  cidrs_exclude [] remote = false
  cidrs_exclude (cidr ∷ cidrs) remote =
      let rest = cidrs_exclude cidrs remote in
      elim (parse_cidr cidr) [
        | none ↦ rest
        | some net ↦ elim (parse_ip remote) [
          | none ↦ true
          | some ip ↦ if not (net_contains net ip) then true else rest
        ]
      ]

  pub match_rule : CustomRule → Request → Bool
  match_rule rule req =
      if excludes rule.methods req.method
      then false
      else if not (is_empty rule.path_exact) && not (text_beq req.path rule.path_exact)
      then false
      else if not (is_empty rule.path_pattern) && not (path_match rule.path_pattern req.path)
      then false
      else if excludes rule.hosts req.host
      then false
      else if excludes rule.ips req.remote_ip
      then false
      else if cidrs_exclude rule.ip_cidrs req.remote_ip
      then false
      else if header_excludes rule req
      then false
      else if not (is_empty rule.body_contains) && not (contains_text req.body rule.body_contains)
      then false
      else if not (is_empty rule.query_param)
      then query_matches rule req.path
      else true

  unfoldable pub evaluate_loop : Request → List CustomRule → Result
  evaluate_loop req [] = allowed
  evaluate_loop req (r ∷ rs) =
      let rest = evaluate_loop req rs in
      if not r.enabled
      then rest
      else if match_rule r req
      then record { action = r.action; rule_id = r.id; reason = r.description }
      else rest

  unfoldable pub evaluate : Request → Engine → Result
  unfolding evaluate_loop
  evaluate req e = evaluate_loop req e.rules
