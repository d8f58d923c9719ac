-- ===== src/Firewall/Tests.antt =====
-- Runs of the firewall manager and of the two parsers.
use waffynx.Firewall.{Shell}
use waffynx.Firewall.Nft.{parse_nft_rules}
use waffynx.Firewall.Ufw.{port_args, parse_ufw_rules, ufw_backend}
use waffynx.Firewall.Manager.{FirewallConfig, Manager, new_manager, port_rule, start}
use waffynx.Firewall.Start.{start-issue}
use waffynx.Firewall.Line.{IsNumeral}
use waffynx.Firewall.Listing.{listing, read_rule, policy_rule, parse_nft_rules-listing}
use waffynx.Firewall.Status.{status, parse_ufw_rules-status}
use waffynx.Common.Decimal.{digits, decimal, itoa}
use waffynx.Firewall.Script.{issue, script, commands_of, outcome}
use waffynx.Firewall.Entry.{allow, deny, Entry, entry_rule}
use waffynx.Common.{
  if◌then◌else◌, Text, txt, pos, ℕ, ◌≡◌, refl, true, none, some, List, [], ◌∷◌, map, arith,
}

-- A host on which every command works and prints nothing.
abbrev quiet : Shell
quiet log c = ([], none)

abbrev sample : FirewallConfig
sample = record {
  enabled = true;
  backend = txt "ufw";
  default_in = txt "deny";
  default_out = txt "allow";
  managed_ports = pos 443 ∷ [];
  block_list = txt "1.2.3.4" ∷ [];
}

abbrev sample_manager : Manager
unfolding ufw_backend
sample_manager = record { backend = ufw_backend quiet; cfg = sample }

start-issue_example :
    outcome (start sample_manager [])
    ≡ (if sample.enabled then issue quiet (script (commands_of sample) sample) [] else ([], true))
unfolding new_manager
start-issue_example = start-issue quiet sample sample_manager [] refl

-- The port and the protocol are two arguments of `ufw`.
port_in_two : port_args (port_rule (pos 443)) ≡ txt "443" ∷ txt "/tcp" ∷ []
unfolding port_args itoa decimal digits
port_in_two = refl

abbrev address : Text
address = txt "1.2.3.4"

address-IsNumeral : IsNumeral address
address-IsNumeral = (
  b'1',
  txt ".2.3.4",
  refl,
  ((omega arith, omega arith), (refl, (refl, (refl, (refl, (refl, (refl, (refl, tt)))))))),
)

parse_nft_rules-listing_example :
    parse_nft_rules (listing ((address, 7) ∷ []))
    ≡ policy_rule ∷ map (λ (e : Text × ℕ). read_rule e.0) ((address, 7) ∷ [])
parse_nft_rules-listing_example =
    parse_nft_rules-listing ((address, 7) ∷ []) ((address-IsNumeral, refl), tt)

abbrev sample_entries : List Entry
sample_entries =
    record {
      label = txt " 1";
      to = some (80, txt "tcp");
      verb = allow;
      from = none;
      before_verb = 20;
      before_in = 0;
      before_from = 3;
    }
    ∷ record {
      label = txt " 2";
      to = none;
      verb = deny;
      from = some address;
      before_verb = 18;
      before_in = 0;
      before_from = 4;
    }
    ∷ []

parse_ufw_rules-status_example :
    parse_ufw_rules (status sample_entries) ≡ map entry_rule sample_entries
parse_ufw_rules-status_example = parse_ufw_rules-status sample_entries (
  ((λ e. cc e), refl, refl, (omega arith, (refl, (refl, (refl, tt)))), tt),
  (((λ e. cc e), refl, refl, tt, address-IsNumeral), tt),
)
