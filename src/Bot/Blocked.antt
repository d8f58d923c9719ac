-- ===== src/Bot/Blocked.antt =====
-- Which requests the bot protection blocks, and how.
use waffynx.Bot.{BotProtection, user_agent, tagged, deny, bots_loop, execute}
use waffynx.Plugin.{Context}
use waffynx.Common.Substring.{Elem, Contains, contains_text_iff}
use waffynx.Common.{
  Bool-cases, Text, txt, text_beq, text_beq_iff, contains_text, ◌≡◌, subst, refl, ◌⊎◌, inl, inr,
  true, false, none, some, List, [], ◌∷◌, ◌++◌,
}

module _ (lower : Text → Text) where
  -- The name of one of the bots stands in the user agent, letter case aside.
  abbrev pub IsBot : List Text → Text → Type 0
  IsBot bots ua = (bot : Text) × Elem bot bots × Contains (lower ua) (lower bot)

  IsBot-tail :
      (bot : Text) (bots : List Text) (ua : Text)
      → contains_text (lower ua) (lower bot) ≡ false
      → IsBot (bot ∷ bots) ua
      → IsBot bots ua
  IsBot-tail bot bots ua h (b, inl e, found) =
      let e' : contains_text (lower ua) (lower b) ≡ false =
        subst (λ k. contains_text (lower ua) (lower k) ≡ false) e h in
      absurd (cc (e', (contains_text_iff (lower ua) (lower b)).1 found))
  IsBot-tail bot bots ua h (b, inr later, found) = (b, later, found)

  bots_loop-blocks :
      (mode ua : Text) (bots : List Text) (ctx : Context)
      → (((bots_loop lower mode ua bots ctx).1 ≡ none) × ¬ ((mode ≡ txt "block") × IsBot bots ua))
        ⊎ (((bot : Text) × Elem bot bots
              × (bots_loop lower mode ua bots ctx
                  ≡ (deny (tagged ua ctx), some (txt "bot access denied: " ++ bot))))
            × ((mode ≡ txt "block") × IsBot bots ua))
  unfolding bots_loop
  bots_loop-blocks mode ua [] ctx = inl (refl, λ h. absurd h.1.1)
  bots_loop-blocks mode ua (bot ∷ bots) ctx =
      elim (Bool-cases (contains_text (lower ua) (lower bot))) [
        | inl found ↦
            let is_bot : IsBot (bot ∷ bots) ua =
              (bot, inl refl, (contains_text_iff (lower ua) (lower bot)).0 found) in
            elim (Bool-cases (text_beq mode (txt "block"))) [
              | inl on ↦ inr (
                (bot, inl refl, rw (found, bots_loop) (rw on refl)),
                ((text_beq_iff mode (txt "block")).0 on, is_bot),
              )
              | inr off ↦ inl (
                rw (found, bots_loop) (rw off refl),
                λ h. cc (off, (text_beq_iff mode (txt "block")).1 h.0),
              )
            ]
        | inr missed ↦
            rw (missed, bots_loop)
              (elim (bots_loop-blocks mode ua bots ctx) [
                | inl (e, clear) ↦ inl (e, λ h. clear (h.0, IsBot-tail bot bots ua missed h.1))
                | inr ((b, known, e), (on, (b', known', found'))) ↦
                    inr ((b, inr known, e), (on, (b', inr known', found')))
              ])
      ]

  -- A request is blocked exactly if the plugin is on, its mode is `block` and the name of a known
  -- bot stands in the user agent, letter case aside. It then gets the tags and the answer of `deny`,
  -- and the error names a known bot.
  pub execute_lem :
      (p : BotProtection) (ctx : Context)
      → (((execute lower p ctx).1 ≡ none)
          × ¬ ((p.enabled ≡ true) × (p.mode ≡ txt "block") × IsBot p.known_bots (user_agent ctx)))
        ⊎ (((bot : Text) × Elem bot p.known_bots
              × (execute lower p ctx
                  ≡ (deny (tagged (user_agent ctx) ctx), some (txt "bot access denied: " ++ bot))))
            × ((p.enabled ≡ true) × (p.mode ≡ txt "block") × IsBot p.known_bots (user_agent ctx)))
  unfolding execute
  execute_lem p ctx = elim (Bool-cases p.enabled) [
    | inl on ↦
        rw (on, execute)
          (elim (bots_loop-blocks p.mode (user_agent ctx) p.known_bots ctx) [
            | inl (e, clear) ↦ inl (e, λ h. clear (h.1, h.2))
            | inr (b, (block, bot)) ↦ inr (b, (refl, block, bot))
          ])
    | inr off ↦ rw (off, execute) (inl (refl, λ h. cc h.0))
  ]
