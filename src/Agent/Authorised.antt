-- ===== src/Agent/Authorised.antt =====
-- Which requests the agent's API lets through.
use waffynx.Agent.{after_bearer, given_key, authorised}
use waffynx.Http.{HttpRequest, header_get}
use waffynx.Common.{
  Text, txt, text_beq_iff, is_empty, ◌≡◌, ◌≢◌, ◌↔◌, refl, sym, ap, ◌∙◌, true, [], ◌∷◌, ◌++◌, arith,
}

is_empty_iff : (s : Text) → (is_empty s ≡ true) ↔ (s ≡ [])
is_empty_iff [] = ((λ _. refl), λ _. refl)
is_empty_iff (c ∷ s) = ((λ h. cc), λ h. cc)

after_bearer-append : (key : Text) → key ≢ [] → after_bearer (txt "Bearer " ++ key) ≡ key
unfolding after_bearer
after_bearer-append [] h = absurd (h refl)
after_bearer-append (c ∷ key) h = grind arith

pub authorised_iff :
    (api_key : Text) (r : HttpRequest)
    → api_key ≢ []
    → (authorised api_key r ≡ true) ↔ (given_key r ≡ api_key)
unfolding authorised
authorised_iff api_key r h =
    ground (arith, is_empty_iff api_key, text_beq_iff (given_key r) api_key)

given_key_own :
    (r : HttpRequest)
    → header_get (txt "X-API-Key") r ≢ []
    → given_key r ≡ header_get (txt "X-API-Key") r
unfolding given_key
given_key_own r h = ground (arith, is_empty_iff (header_get (txt "X-API-Key") r))

given_key_bearer :
    (r : HttpRequest)
    → header_get (txt "X-API-Key") r ≡ []
    → given_key r ≡ after_bearer (header_get (txt "Authorization") r)
unfolding given_key
given_key_bearer r e = rw e refl

-- With an API key a request is let through if its header gives the key, or if it has no such header
-- and its authorization is `Bearer ` and the key; and it is not if it gives neither header.
pub authorised_lem :
    (api_key : Text) (r : HttpRequest)
    → api_key ≢ []
    → ((header_get (txt "X-API-Key") r ≡ api_key) → authorised api_key r ≡ true)
      × ((header_get (txt "X-API-Key") r ≡ [])
          → header_get (txt "Authorization") r ≡ txt "Bearer " ++ api_key
          → authorised api_key r ≡ true)
      × ((header_get (txt "X-API-Key") r ≡ [])
          → header_get (txt "Authorization") r ≡ []
          → authorised api_key r ≢ true)
unfolding after_bearer
authorised_lem api_key r h = (
  λ e. (authorised_iff api_key r h).1 (given_key_own r (λ z. h (sym e ∙ z)) ∙ e),
  λ e f.
      (authorised_iff api_key r h).1
        (given_key_bearer r e ∙ ap after_bearer f ∙ after_bearer-append api_key h),
  λ e f yes_sent.
      h (sym ((authorised_iff api_key r h).0 yes_sent) ∙ given_key_bearer r e ∙ ap after_bearer f),
)
