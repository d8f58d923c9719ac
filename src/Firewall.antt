-- ===== src/Firewall.antt =====
-- internal/firewall/firewall.go: the rules, the commands that the program gives to the host, and the
-- interface of a backend. The host is a parameter: what a command prints and whether it fails
-- may depend on the commands before it.
pub mod Extract
pub mod Nft
pub mod Ufw
pub mod Manager
pub mod Script
pub mod Start
pub mod Line
pub mod Listing
pub mod Entry
pub mod Status
pub mod Tests
use waffynx.Common.Words.{trim_space}
use waffynx.Common.{
  Text, ℤ, pos, negsuc, zero, suc, Bool, true, false, Option, none, some, List, [], ◌∷◌, ◌++◌,
}

pub record Rule : Type 0 where
  pub table : Text
  pub chain : Text
  pub protocol : Text
  pub port : ℤ
  pub source : Text
  pub action : Text
  pub comment : Text

-- A call of `runCmd`.
pub record Command : Type 0 where
  pub name : Text
  pub args : List Text

-- The commands that were run, the first one first.
abbrev pub Log : Type 0
Log = List Command

-- The combined output of a command and its error, after the commands that were run before it.
abbrev pub Shell : Type 0
Shell = Log → Command → Text × Option Text

-- A part of the program that may run commands. Errors are their texts.
abbrev pub Run : Type 0 → Type 0
Run A = Log → Log × A

unfoldable pub run_cmd : Shell → Command → Run (Text × Option Text)
unfolding trim_space
run_cmd shell c log = let (out, err) = shell log c in (log ++ c ∷ [], (trim_space out, err))

-- A command of which only the error is used.
unfoldable pub run_err : Shell → Command → Run (Option Text)
unfolding run_cmd
run_err shell c log = let (log', (out, err)) = run_cmd shell c log in (log', err)

-- The results of `([]Rule, error)`.
pub data Listed : Type 0 where
  listed : List Rule → Listed
  not_listed : Text → Listed

pub record Backend : Type 0 where
  pub initialize : Run (Option Text)
  pub add_rule : Rule → Run (Option Text)
  pub remove_rule : Rule → Run (Option Text)
  pub list_rules : Run Listed
  pub set_default_policy : Text → Text → Run (Option Text)
  pub flush : Run (Option Text)

-- port > 0.
abbrev pub is_positive : ℤ → Bool
is_positive (pos zero) = false
is_positive (pos (suc n)) = true
is_positive (negsuc n) = false

-- `fmt.Errorf` with a text in front of an error.
unfoldable pub wrap : Text → Option Text → Option Text
wrap what none = none
wrap what (some err) = some (what ++ err)
