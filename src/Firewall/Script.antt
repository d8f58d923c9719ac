-- ===== src/Firewall/Script.antt =====
-- The commands of the two backends, and lists of commands of which some have to succeed.
use waffynx.Firewall.{Rule, Command, Log, Shell, Run, run_cmd, run_err, Backend, wrap}
use waffynx.Firewall.Nft.{nft, init_args, policy_args, run_all, nftables_backend}
use waffynx.Firewall.Nft
use waffynx.Firewall.Ufw.{ufw, ufw_backend, init_ufw}
use waffynx.Firewall.Ufw
use waffynx.Firewall.Manager.{FirewallConfig, port_rule, block_rule, unless_failed}
use waffynx.Common.{
  if◌then◌else◌, Bool-cases, Option-cases, Text, txt, text_beq, ◌≡◌, refl, sym, inl, inr, Bool,
  true, false, not, ◌&&◌, Option, none, some, List, [], ◌∷◌, ◌++◌, map,
}

-- A command, and whether the commands behind it are run only if it succeeds.
abbrev pub Step : Type 0
Step = Bool × Command

abbrev pub is_none : Option Text → Bool
is_none none = true
is_none (some e) = false

-- The log after a list of commands, and whether each that had to succeed did.
unfoldable pub issue : Shell → List Step → Log → Log × Bool
issue shell [] log = (log, true)
issue shell ((must, c) ∷ steps) log =
    let rest = issue shell steps (log ++ c ∷ []) in
    if must && not (is_none (shell log c).1) then (log ++ c ∷ [], false) else rest

-- The commands of a backend.
pub record Commands : Type 0 where
  pub initialize : List Command
  pub add_rule : Rule → Command
  pub set_default_policy : Text → Text → Command

abbrev pub nft_commands : Commands
nft_commands = record {
  initialize = map nft init_args;
  add_rule = λ r. nft (Nft.add_args r);
  set_default_policy = λ chain policy. nft (policy_args chain policy);
}

abbrev pub ufw_commands : Commands
ufw_commands = record {
  initialize = ufw (txt "--force" ∷ txt "enable" ∷ []) ∷ [];
  add_rule = λ r. ufw (Ufw.add_args r);
  set_default_policy = λ chain policy. ufw (txt "default" ∷ policy ∷ chain ∷ []);
}

abbrev pub musts : List Command → List Step
musts = map (λ c. (true, c))

abbrev pub tries : List Command → List Step
tries = map (λ c. (false, c))

-- All that an enabled manager does: the commands up to the default policies have to succeed, those
-- for the ports and the addresses do not.
unfoldable pub script : Commands → FirewallConfig → List Step
script k cfg =
    musts k.initialize
    ++ ((true, k.set_default_policy (txt "input") cfg.default_in)
        ∷ (true, k.set_default_policy (txt "output") cfg.default_out)
        ∷ (tries (map (λ port. k.add_rule (port_rule port)) cfg.managed_ports)
            ++ tries (map (λ ip. k.add_rule (block_rule ip)) cfg.block_list)))

unfoldable pub commands_of : FirewallConfig → Commands
commands_of cfg = if text_beq cfg.backend (txt "nftables") then nft_commands else ufw_commands

abbrev pub outcome : Log × Option Text → Log × Bool
outcome (log, err) = (log, is_none err)

-- The operations of a backend run its commands.
pub record Follows (shell : Shell) (k : Commands) (b : Backend) : Type 0 where
  pub initialize_law :
      (log : Log) → outcome (b.initialize log) ≡ issue shell (musts k.initialize) log
  pub add_law : (r : Rule) (log : Log) → (b.add_rule r log).0 ≡ log ++ k.add_rule r ∷ []
  pub policy_law :
      (chain policy : Text) (log : Log)
      → outcome (b.set_default_policy chain policy log)
        ≡ issue shell ((true, k.set_default_policy chain policy) ∷ []) log

pub issue-append :
    (shell : Shell) (s1 s2 : List Step) (log : Log)
    → issue shell (s1 ++ s2) log ≡ (
        if (issue shell s1 log).1
        then issue shell s2 (issue shell s1 log).0
        else issue shell s1 log)
unfolding issue
issue-append shell [] s2 log = refl
issue-append shell ((must, c) ∷ s1) s2 log =
    elim (Bool-cases (must && not (is_none (shell log c).1))) [
      | inl stopped ↦ rw stopped refl
      | inr runs ↦ rw runs (issue-append shell s1 s2 (log ++ c ∷ []))
    ]

pub unless_failed_lem :
    (shell : Shell) (what : Text) (call : Log × Option Text) (rest : Run (Option Text))
    (s1 s2 : List Step) (log : Log)
    → outcome call ≡ issue shell s1 log
    → ((log' : Log) → outcome (rest log') ≡ issue shell s2 log')
    → outcome (unless_failed what rest call) ≡ issue shell (s1 ++ s2) log
unfolding unless_failed wrap
unless_failed_lem shell what (log', none) rest s1 s2 log h1 h2 =
    rw (issue-append shell s1 s2 log, sym h1) (h2 log')
unless_failed_lem shell what (log', some e) rest s1 s2 log h1 h2 =
    rw (issue-append shell s1 s2 log, sym h1) refl

run_err-issue :
    (shell : Shell) (c : Command) (log : Log)
    → outcome (run_err shell c log) ≡ issue shell ((true, c) ∷ []) log
unfolding run_err run_cmd issue
run_err-issue shell c log = elim (Option-cases (shell log c).1) [
  | inl e ↦ rw e refl
  | inr (err, e) ↦ rw e refl
]

run_all-issue :
    (shell : Shell) (cmds : List (List Text)) (log : Log)
    → outcome (run_all shell cmds log) ≡ issue shell (musts (map nft cmds)) log
unfolding run_all run_err run_cmd issue wrap
run_all-issue shell [] log = refl
run_all-issue shell (args ∷ cmds) log = elim (Option-cases (shell log (nft args)).1) [
  | inl e ↦ rw e (run_all-issue shell cmds (log ++ nft args ∷ []))
  | inr (err, e) ↦ rw e refl
]

pub nftables_backend-Follows : (shell : Shell) → Follows shell nft_commands (nftables_backend shell)
unfolding nftables_backend run_err run_cmd
nftables_backend-Follows shell = record {
  initialize_law = run_all-issue shell init_args;
  add_law = λ r log. refl;
  policy_law = λ chain policy log. run_err-issue shell (nft (policy_args chain policy)) log;
}

is_none-wrap : (what : Text) (err : Option Text) → is_none (wrap what err) ≡ is_none err
unfolding wrap
is_none-wrap what none = refl
is_none-wrap what (some e) = refl

pub ufw_backend-Follows : (shell : Shell) → Follows shell ufw_commands (ufw_backend shell)
unfolding ufw_backend run_err run_cmd init_ufw
ufw_backend-Follows shell = record {
  initialize_law = λ log.
      let c = ufw (txt "--force" ∷ txt "enable" ∷ []) in
      rw (is_none-wrap (txt "enabling ufw: ") (shell log c).1) (run_err-issue shell c log);
  add_law = λ r log. refl;
  policy_law =
      λ chain policy log. run_err-issue shell (ufw (txt "default" ∷ policy ∷ chain ∷ [])) log;
}
