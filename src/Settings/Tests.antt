-- ===== src/Settings/Tests.antt =====
-- Configurations that are parsed.
use waffynx.Settings.{
  Config, default_config, validate_config, parsed, Decoded, decoded, checked_config, after_decoding,
  parse,
}
use waffynx.Settings.Loaded.{parse-new_manager}
use waffynx.Firewall.{Shell}
use waffynx.Firewall.Manager.{Manager, created, new_manager}
use waffynx.Common.{Text, ◌≡◌, refl, ◌≢◌, none, []}

-- A file without settings.
abbrev no_settings : Text → Config → Decoded
no_settings contents c = decoded c

abbrev any_host : Shell
any_host log c = ([], none)

defaults_pass : parse no_settings [] ≡ parsed default_config
unfolding parse after_decoding checked_config validate_config
defaults_pass = refl

parse-new_manager_example :
    (default_config.listen ≢ [])
    × ((m : Manager) × (new_manager any_host default_config.firewall ≡ created m))
parse-new_manager_example = parse-new_manager any_host no_settings [] default_config defaults_pass
