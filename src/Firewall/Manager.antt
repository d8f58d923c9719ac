-- ===== src/Firewall/Manager.antt =====
-- internal/firewall/firewall.go: `Manager`, over any backend.
use waffynx.Firewall.{Rule, Log, Shell, Run, Listed, Backend, wrap}
use waffynx.Firewall.Nft.{nftables_backend}
use waffynx.Firewall.Ufw.{ufw_backend}
use waffynx.Common.{
  if◌then◌else◌, Text, txt, text_beq, ℤ, pos, Bool, Option, none, some, List, [], ◌∷◌, ◌++◌,
}

pub record FirewallConfig : Type 0 where
  pub enabled : Bool
  pub backend : Text
  pub default_in : Text
  pub default_out : Text
  pub managed_ports : List ℤ
  pub block_list : List Text

pub record Manager : Type 0 where
  pub backend : Backend
  pub cfg : FirewallConfig

-- The manager, or the text of the error.
pub data Created : Type 0 where
  created : Manager → Created
  unsupported : Text → Created

unfoldable pub new_manager : Shell → FirewallConfig → Created
unfolding nftables_backend ufw_backend
new_manager shell cfg =
    if text_beq cfg.backend (txt "nftables")
    then created (record { backend = nftables_backend shell; cfg = cfg })
    else if text_beq cfg.backend (txt "ufw")
    then created (record { backend = ufw_backend shell; cfg = cfg })
    else unsupported (txt "unsupported firewall backend: " ++ cfg.backend)

abbrev pub port_rule : ℤ → Rule
port_rule port = record {
  table = txt "filter";
  chain = txt "INPUT";
  protocol = txt "tcp";
  port = port;
  source = [];
  action = txt "accept";
  comment = txt "Waffynx managed";
}

abbrev pub block_rule : Text → Rule
block_rule ip = record {
  table = txt "filter";
  chain = txt "INPUT";
  protocol = [];
  port = pos 0;
  source = ip;
  action = txt "drop";
  comment = txt "Waffynx block";
}

unfoldable pub block_ip : Manager → Text → Run (Option Text)
block_ip m ip = m.backend.add_rule (block_rule ip)

unfoldable pub unblock_ip : Manager → Text → Run (Option Text)
unblock_ip m ip = m.backend.remove_rule (block_rule ip)

unfoldable pub rules : Manager → Run Listed
rules m = m.backend.list_rules

-- The loops of `Start`, which log an error and go on.
unfoldable pub add_ports : Manager → List ℤ → Log → Log
add_ports m [] log = log
add_ports m (port ∷ ports) log = add_ports m ports (m.backend.add_rule (port_rule port) log).0

unfoldable pub block_all : Manager → List Text → Log → Log
unfolding block_ip
block_all m [] log = log
block_all m (ip ∷ ips) log = block_all m ips (block_ip m ip log).0

-- The rest of the body behind a call that may fail.
unfoldable pub unless_failed : Text → Run (Option Text) → Log × Option Text → Log × Option Text
unfolding wrap
unless_failed what rest (log, none) = rest log
unless_failed what rest (log, some e) = (log, wrap what (some e))

-- The body of `Start` from its loops on, from the output policy on, and from the input policy on.
unfoldable pub add_managed : Manager → Run (Option Text)
unfolding add_ports block_all
add_managed m log = (block_all m m.cfg.block_list (add_ports m m.cfg.managed_ports log), none)

unfoldable pub set_output : Manager → Run (Option Text)
unfolding unless_failed add_managed
set_output m log =
    unless_failed (txt "setting default output policy: ") (add_managed m)
      (m.backend.set_default_policy (txt "output") m.cfg.default_out log)

unfoldable pub set_input : Manager → Run (Option Text)
unfolding unless_failed set_output
set_input m log =
    unless_failed (txt "setting default input policy: ") (set_output m)
      (m.backend.set_default_policy (txt "input") m.cfg.default_in log)

unfoldable pub start : Manager → Run (Option Text)
unfolding unless_failed set_input
start m log =
    if m.cfg.enabled
    then unless_failed (txt "initializing firewall: ") (set_input m) (m.backend.initialize log)
    else (log, none)
