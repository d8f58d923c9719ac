-- ===== src/Geo/Refused.antt =====
-- Which requests the geo block refuses.
use waffynx.Geo.{GeoBlock, is_nil, holds, lookup_country, judge, extract_ip, execute}
use waffynx.Plugin.{Context}
use waffynx.Common.{
  Option-cases, lookup, Map, Text, txt, text_beq_iff, is_empty, ◌≡◌, subst, refl, ◌≢◌, ◌↔◌, ◌⊎◌,
  inl, inr, Bool, true, false, Option, none, some, [], ◌∷◌, arith,
}

is_empty_iff : (s : Text) → (is_empty s ≡ false) ↔ (s ≢ [])
is_empty_iff [] = ((λ h. cc), λ h. absurd (h refl))
is_empty_iff (c ∷ s) = ((λ _ h. cc), λ _. refl)

is_nil_iff : (m : Map Bool) → (is_nil m ≡ false) ↔ (m ≢ [])
is_nil_iff [] = ((λ h. cc), λ h. absurd (h refl))
is_nil_iff (c ∷ s) = ((λ _ h. cc), λ _. refl)

holds_nil : (country : Text) (m : Map Bool) → is_nil m ≡ true → holds (lookup country m) ≡ false
unfolding holds lookup
holds_nil country [] h = refl
holds_nil country (c ∷ m) h = cc

module _ {Ip : Type 0} where
  -- The plugin goes by its list of allowed countries.
  abbrev pub Allowlists : GeoBlock Ip → Type 0
  Allowlists p = (p.mode ≡ txt "allow") × (p.allowed_countries ≢ [])

  -- The country is outside the list of allowed ones where the plugin goes by that list, and in the
  -- list of blocked ones otherwise.
  abbrev pub IsForbidden : GeoBlock Ip → Text → Type 0
  IsForbidden p country =
      (Allowlists p × (holds (lookup country p.allowed_countries) ≡ false))
      ⊎ ((¬ Allowlists p) × (holds (lookup country p.blocked_countries) ≡ true))

  judge_iff :
      (client country : Text) (p : GeoBlock Ip) (ctx : Context)
      → ((judge client country p ctx).1 ≡ none) ↔ ¬ IsForbidden p country
  unfolding judge
  judge_iff client country p ctx = ground (
    arith,
    text_beq_iff p.mode (txt "allow"),
    is_nil_iff p.allowed_countries,
    holds_nil country p.blocked_countries,
  )

module _ {Ip : Type 0} (split_host : Text → Option Text) (parse_ip : Text → Option Ip) where
  -- A request passes unless the plugin is on, its address parses, and its country is forbidden. An
  -- address of which the database says nothing, or every address with no database, has the country
  -- that `lookup_country` gives for it.
  pub execute-passes :
      (p : GeoBlock Ip) (ctx : Context)
      → ((execute split_host parse_ip p ctx).1 ≡ none)
        ↔ ¬ (
            (p.enabled ≡ true)
            × (extract_ip split_host parse_ip ctx ≢ [])
            × ((ip : Ip) × (parse_ip (extract_ip split_host parse_ip ctx) ≡ some ip)
                × IsForbidden p (lookup_country p ip)))
  unfolding execute
  execute-passes p ctx =
      let client = extract_ip split_host parse_ip ctx in
      elim (Option-cases (parse_ip client)) [
        | inl e ↦ rw (e, execute) ((λ passed h. cc h.2.1), λ h. ground arith)
        | inr (ip, e) ↦
            let judged = judge_iff client (lookup_country p ip) p ctx in
            rw (e, execute)
              (
                (λ passed h.
                    let same : h.2.0 ≡ ip = cc h.2.1 in
                    let forbidden = subst (λ k. IsForbidden p (lookup_country p k)) same h.2.2 in
                    ground (arith, is_empty_iff client, judged, forbidden, h.0, h.1)),
                λ h.
                    let fine : p.enabled ≡ true
                        → client ≢ []
                        → ¬ IsForbidden p (lookup_country p ip) =
                      λ on given forbidden. h (on, given, (ip, refl, forbidden)) in
                    ground (arith, is_empty_iff client, judged, fine),
              )
      ]
