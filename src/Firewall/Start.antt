-- ===== src/Firewall/Start.antt =====
-- The commands that `Manager.Start` runs, against a list of commands that is made of the configuration
-- alone.
use waffynx.Firewall.{Log, Shell}
use waffynx.Firewall.Nft.{nftables_backend}
use waffynx.Firewall.Ufw.{ufw_backend}
use waffynx.Firewall.Manager.{
  FirewallConfig, Manager, created, unsupported, new_manager, port_rule, block_rule, block_ip,
  add_ports, block_all, add_managed, set_output, set_input, start,
}
use waffynx.Firewall.Script.{
  Step, issue, Commands, nft_commands, ufw_commands, musts, tries, script, commands_of, outcome,
  Follows, issue-append, unless_failed_lem, nftables_backend-Follows, ufw_backend-Follows,
}
use waffynx.Common.{
  if◌then◌else◌, Bool-cases, Text, txt, text_beq, ℤ, ◌≡◌, refl, sym, ap, subst, ◌∙◌, inl, inr, true,
  List, [], ◌∷◌, ◌++◌, map,
}

module _ (shell : Shell) (k : Commands) (m : Manager) (follows : Follows shell k m.backend) where
  add_ports_lem :
      (ports : List ℤ) (log : Log)
      → (add_ports m ports log, true)
        ≡ issue shell (tries (map (λ port. k.add_rule (port_rule port)) ports)) log
  unfolding add_ports issue
  add_ports_lem [] log = refl
  add_ports_lem (port ∷ ports) log =
      rw (follows.add_law (port_rule port) log)
        (add_ports_lem ports (log ++ k.add_rule (port_rule port) ∷ []))

  block_all_lem :
      (ips : List Text) (log : Log)
      → (block_all m ips log, true)
        ≡ issue shell (tries (map (λ ip. k.add_rule (block_rule ip)) ips)) log
  unfolding block_all block_ip issue
  block_all_lem [] log = refl
  block_all_lem (ip ∷ ips) log =
      rw (follows.add_law (block_rule ip) log)
        (block_all_lem ips (log ++ k.add_rule (block_rule ip) ∷ []))

  abbrev rule_steps : List Step
  rule_steps =
      tries (map (λ port. k.add_rule (port_rule port)) m.cfg.managed_ports)
      ++ tries (map (λ ip. k.add_rule (block_rule ip)) m.cfg.block_list)

  add_managed_lem : (log : Log) → outcome (add_managed m log) ≡ issue shell rule_steps log
  unfolding add_managed
  add_managed_lem log =
      let ports = tries (map (λ port. k.add_rule (port_rule port)) m.cfg.managed_ports) in
      let blocks = tries (map (λ ip. k.add_rule (block_rule ip)) m.cfg.block_list) in
      rw (issue-append shell ports blocks log, sym (add_ports_lem m.cfg.managed_ports log))
        (block_all_lem m.cfg.block_list (add_ports m m.cfg.managed_ports log))

  set_output_lem :
      (log : Log)
      → outcome (set_output m log)
        ≡ issue shell
            ((true, k.set_default_policy (txt "output") m.cfg.default_out) ∷ rule_steps)
            log
  unfolding set_output
  set_output_lem log =
      unless_failed_lem shell (txt "setting default output policy: ")
        (m.backend.set_default_policy (txt "output") m.cfg.default_out log) (add_managed m)
        ((true, k.set_default_policy (txt "output") m.cfg.default_out) ∷ []) rule_steps log
        (follows.policy_law (txt "output") m.cfg.default_out log) add_managed_lem

  set_input_lem :
      (log : Log)
      → outcome (set_input m log)
        ≡ issue shell
            ((true, k.set_default_policy (txt "input") m.cfg.default_in)
              ∷ (true, k.set_default_policy (txt "output") m.cfg.default_out)
              ∷ rule_steps)
            log
  unfolding set_input
  set_input_lem log =
      unless_failed_lem shell (txt "setting default input policy: ")
        (m.backend.set_default_policy (txt "input") m.cfg.default_in log) (set_output m)
        ((true, k.set_default_policy (txt "input") m.cfg.default_in) ∷ [])
        ((true, k.set_default_policy (txt "output") m.cfg.default_out) ∷ rule_steps) log
        (follows.policy_law (txt "input") m.cfg.default_in log) set_output_lem

  start_lem :
      (log : Log) → m.cfg.enabled ≡ true → outcome (start m log) ≡ issue shell (script k m.cfg) log
  unfolding start script
  start_lem log on = rw on (
      unless_failed_lem shell (txt "initializing firewall: ") (m.backend.initialize log)
        (set_input m) (musts k.initialize)
        ((true, k.set_default_policy (txt "input") m.cfg.default_in)
          ∷ (true, k.set_default_policy (txt "output") m.cfg.default_out)
          ∷ rule_steps)
        log (follows.initialize_law log) set_input_lem)

created-inj : (m m' : Manager) → created m ≡ created m' → m ≡ m'
created-inj m m' e = cc e

pub new_manager_lem :
    (shell : Shell) (cfg : FirewallConfig) (m : Manager)
    → new_manager shell cfg ≡ created m
    → Follows shell (commands_of cfg) m.backend × (m.cfg ≡ cfg)
unfolding new_manager commands_of
new_manager_lem shell cfg m h = elim (Bool-cases (text_beq cfg.backend (txt "nftables"))) [
  | inl e ↦
      let m' : Manager = record { backend = nftables_backend shell; cfg = cfg } in
      let same = created-inj m' m (rw e at h) in
      rw e (
        subst (λ b. Follows shell nft_commands b) (ap (λ x. x.backend) same)
            (nftables_backend-Follows shell),
        sym (ap (λ x. x.cfg) same),
      )
  | inr e ↦ elim (Bool-cases (text_beq cfg.backend (txt "ufw"))) [
    | inl f ↦
        let m' : Manager = record { backend = ufw_backend shell; cfg = cfg } in
        let same = created-inj m' m (rw (e, f) at h) in
        rw e (
          subst (λ b. Follows shell ufw_commands b) (ap (λ x. x.backend) same)
              (ufw_backend-Follows shell),
          sym (ap (λ x. x.cfg) same),
        )
    | inr f ↦
        let never : unsupported (txt "unsupported firewall backend: " ++ cfg.backend) ≡ created m =
          rw (e, f) at h in
        cc never
  ]
]

-- For a manager that was created of an enabled configuration, `Start` runs the commands of its script in
-- order, up to the first that has to succeed and fails, and it returns no error exactly if there is
-- no such command: the set-up and the two default policies have to succeed, and then a rule is
-- tried for each managed port and each address of the block list, whatever fails. If the
-- configuration is disabled it runs nothing. The host's answers are arbitrary.
pub start-issue :
    (shell : Shell) (cfg : FirewallConfig) (m : Manager) (log : Log)
    → new_manager shell cfg ≡ created m
    → outcome (start m log)
      ≡ (if cfg.enabled then issue shell (script (commands_of cfg) cfg) log else (log, true))
unfolding start commands_of script
start-issue shell cfg m log h =
    let (follows, same) = new_manager_lem shell cfg m h in
    elim (Bool-cases cfg.enabled) [
      | inl on ↦ rw on (
          start_lem shell (commands_of cfg) m follows log (ap (λ c. c.enabled) same ∙ on)
          ∙ ap (λ c. issue shell (script (commands_of cfg) c) log) same)
      | inr off ↦ rw (ap (λ c. c.enabled) same ∙ off, off) refl
    ]
