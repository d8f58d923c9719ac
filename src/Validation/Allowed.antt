-- ===== src/Validation/Allowed.antt =====
-- Which content types the plugin allows.
use waffynx.Validation.{RequestValidation, is_nil, wrong_type, is_positive}
use waffynx.Plugin.{Context}
use waffynx.Common.Substring.{StartsWith, has_prefix_iff}
use waffynx.Common.{
  arith, any, has_prefix, ℤ, pos, negsuc, zero, suc, lt_int, Bool-cases, Text, ◌≡◌, refl, sym, ◌∙◌,
  ◌↔◌, ◌⊎◌, inl, inr, true, false, List, [], ◌∷◌,
}

-- The content type begins with one of those that are allowed. With no list, or for a request whose
-- length is not positive, every type is.
abbrev pub BeginsWith : List Text → Text → Type 0
BeginsWith [] s = ⊥
BeginsWith (p ∷ ps) s = StartsWith s p ⊎ BeginsWith ps s

pub data TypeAllowed (p : RequestValidation) (content_type : Text) (ctx : Context) : Type 0 where
  no_list : p.allowed_content_types ≡ [] → TypeAllowed p content_type ctx
  listed : BeginsWith p.allowed_content_types content_type → TypeAllowed p content_type ctx
  no_body : lt_int (pos 0) ctx.request.content_length ≡ false → TypeAllowed p content_type ctx

any-BeginsWith : (ps : List Text) (s : Text) → (any (has_prefix s) ps ≡ true) ↔ BeginsWith ps s
any-BeginsWith [] s = ((λ e. cc e), λ h. absurd h)
any-BeginsWith (p ∷ ps) s =
    let here = has_prefix_iff s p in
    let rest = any-BeginsWith ps s in
    elim (Bool-cases (has_prefix s p)) [
      | inl begins ↦ rw begins ((λ e. inl (here.0 begins)), λ h. refl)
      | inr other ↦ rw other (
        (λ e. inr (rest.0 e)),
        λ h. elim h [ inl begins ↦ cc (sym other ∙ here.1 begins) | inr more ↦ rest.1 more ],
      )
    ]

is_nil-nil : (xs : List Text) → is_nil xs ≡ true → xs ≡ []
is_nil-nil [] e = refl
is_nil-nil (x ∷ xs) e = cc e

is_positive-lt : (n : ℤ) → is_positive n ≡ lt_int (pos 0) n
is_positive-lt (pos zero) = refl
is_positive-lt (pos (suc n)) = ground arith
is_positive-lt (negsuc n) = ground arith

pub wrong_type_iff :
    (p : RequestValidation) (ct : Text) (ctx : Context)
    → (wrong_type p ct ctx ≡ false) ↔ TypeAllowed p ct ctx
unfolding wrong_type
wrong_type_iff p ct ctx = (allowed, judged)
  where
    begins :
        (any (has_prefix ct) p.allowed_content_types ≡ true) ↔ BeginsWith p.allowed_content_types ct
    begins = any-BeginsWith p.allowed_content_types ct

    allowed : wrong_type p ct ctx ≡ false → TypeAllowed p ct ctx
    allowed e = elim (Bool-cases (is_nil p.allowed_content_types)) [
      | inl nil ↦ no_list (is_nil-nil p.allowed_content_types nil)
      | inr some_types ↦ elim (Bool-cases (any (has_prefix ct) p.allowed_content_types)) [
        | inl good ↦ listed (begins.0 good)
        | inr bad ↦ no_body (
            sym (is_positive-lt ctx.request.content_length)
            ∙ (rw (some_types, bad, wrong_type) at e))
      ]
    ]

    judged : TypeAllowed p ct ctx → wrong_type p ct ctx ≡ false
    judged (no_list nil) = rw nil refl
    judged (listed h) = let good = begins.1 h in rw good (ground arith)
    judged (no_body h) =
        let low : is_positive ctx.request.content_length ≡ false =
          is_positive-lt ctx.request.content_length ∙ h in
        rw low (ground arith)
