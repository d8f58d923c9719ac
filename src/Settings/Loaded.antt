-- ===== src/Settings/Loaded.antt =====
-- What holds of a configuration that was parsed.
use waffynx.Settings.{
  Config, default_config, validate_config, parsed, Decoded, decoded, not_decoded, checked_config,
  after_decoding, parse,
}
use waffynx.Firewall.{Shell}
use waffynx.Firewall.Manager.{Manager, created, new_manager, FirewallConfig}
use waffynx.Common.{
  Bool-cases, Text, txt, text_beq, is_empty, ◌≡◌, refl, subst, ◌≢◌, inl, inr, false, not, ◌&&◌,
  Option, none, some, [], ◌∷◌,
}

checked_config-parsed :
    (c c' : Config) (o : Option Text) → checked_config c o ≡ parsed c' → (o ≡ none) × (c ≡ c')
unfolding checked_config
checked_config-parsed c c' none e = (refl, cc e)
checked_config-parsed c c' (some err) e = cc e

nonempty_lem : (s : Text) → is_empty s ≡ false → s ≢ []
nonempty_lem [] h e = cc h
nonempty_lem (c ∷ s) h e = cc e

new_manager_created :
    (shell : Shell) (cfg : FirewallConfig)
    → (not (text_beq cfg.backend (txt "ufw")) && not (text_beq cfg.backend (txt "nftables")))
      ≡ false
    → (m : Manager) × (new_manager shell cfg ≡ created m)
unfolding new_manager
new_manager_created shell cfg h = elim (Bool-cases (text_beq cfg.backend (txt "nftables"))) [
  | inl nft_so ↦ rw nft_so (_, refl)
  | inr other ↦ elim (Bool-cases (text_beq cfg.backend (txt "ufw"))) [
    | inl ufw_so ↦ rw (other, ufw_so) (_, refl)
    | inr neither ↦ cc (rw (neither, other) at h)
  ]
]

validate_config_lem :
    (shell : Shell) (c : Config)
    → validate_config c ≡ none
    → (c.listen ≢ []) × ((m : Manager) × (new_manager shell c.firewall ≡ created m))
unfolding validate_config
validate_config_lem shell c e = elim (Bool-cases (is_empty c.listen)) [
  | inl empty ↦ cc (rw empty at e)
  | inr listens ↦
      let wrong =
        not (text_beq c.firewall.backend (txt "ufw"))
        && not (text_beq c.firewall.backend (txt "nftables")) in
      elim (Bool-cases wrong) [
        | inl bad ↦ cc (rw (listens, bad) at e)
        | inr fine ↦ (nonempty_lem c.listen listens, new_manager_created shell c.firewall fine)
      ]
]

checked_config_lem :
    (shell : Shell) (c c' : Config)
    → checked_config c (validate_config c) ≡ parsed c'
    → (c'.listen ≢ []) × ((m : Manager) × (new_manager shell c'.firewall ≡ created m))
checked_config_lem shell c c' e =
    let (good, same) = checked_config-parsed c c' (validate_config c) e in
    subst (λ x. (x.listen ≢ []) × ((m : Manager) × (new_manager shell x.firewall ≡ created m))) same
      (validate_config_lem shell c good)

after_decoding_lem :
    (shell : Shell) (d : Decoded) (c : Config)
    → after_decoding d ≡ parsed c
    → (c.listen ≢ []) × ((m : Manager) × (new_manager shell c.firewall ≡ created m))
unfolding after_decoding
after_decoding_lem shell (not_decoded err) c e = cc e
after_decoding_lem shell (decoded c') c e = checked_config_lem shell c' c e

-- A configuration that `Parse` gives has an address to listen on, and a firewall manager can be made
-- of it: `NewManager` never answers that its backend is not supported. The decoder is arbitrary.
pub parse-new_manager :
    (shell : Shell) (decode : Text → Config → Decoded) (contents : Text) (c : Config)
    → parse decode contents ≡ parsed c
    → (c.listen ≢ []) × ((m : Manager) × (new_manager shell c.firewall ≡ created m))
unfolding parse
parse-new_manager shell decode contents c e =
    after_decoding_lem shell (decode contents default_config) c e
