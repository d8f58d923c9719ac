-- ===== src/Throttle/Passed.antt =====
-- Which requests the plugin lets through with the memory limiter.
use waffynx.Throttle.{RateLimit, extract_ip, execute, after_allow}
use waffynx.Plugin.{Context}
use waffynx.Limit.{answer, Limiter, second}
use waffynx.Limit.Memory.{FloatOps, MemoryLimiter, new_memory_limiter, memory_allow}
use waffynx.Limit.Burst.{IsExact, first_calls, memory_calls, memory_calls-first_calls}
use waffynx.Common.{
  All, Text, is_empty, pos, ℕ, ◌^◌, ◌≤◌, ◌≡◌, refl, ap, ◌∙◌, ◌≢◌, Bool, true, false, Option, none,
  some, List, [], ◌∷◌, map,
}

-- The memory limiter at one time.
unfoldable pub memory_at : {F : Type 0} → FloatOps F → ℕ → Limiter (MemoryLimiter F)
unfolding memory_allow
memory_at o now = record {
  allow = λ key limit window m.
      let (m', given) = memory_allow o now now key limit window m in (m', answer given);
  close = λ m. (m, none);
}

abbrev pub let_through : Option Text → Bool
let_through none = true
let_through (some err) = false

after_allow_lem :
    {World : Type 0} (ip : Text) (ctx : Context) (w : World) (given : Bool)
    → ((after_allow ip ctx (w, answer given)).0 ≡ w)
      × (let_through (after_allow ip ctx (w, answer given)).2 ≡ given)
unfolding after_allow
after_allow_lem ip ctx w true = (refl, refl)
after_allow_lem ip ctx w false = (refl, refl)

is_empty-nonempty : (s : Text) → s ≢ [] → is_empty s ≡ false
is_empty-nonempty [] h = absurd (h refl)
is_empty-nonempty (c ∷ s) h = refl

-- The plugin on contexts in a row: whether each is let through.
unfoldable pub execute_all :
    {World : Type 0} → Limiter World → RateLimit → List Context → World → List Bool
unfolding execute
execute_all l p [] w = []
execute_all l p (ctx ∷ ctxs) w =
    let (w', ctx', err) = execute l p w ctx in let_through err ∷ execute_all l p ctxs w'

execute_live :
    {World : Type 0} (l : Limiter World) (p : RateLimit) (w : World) (ctx : Context)
    → p.enabled ≡ true
    → extract_ip ctx ≢ []
    → execute l p w ctx
      ≡ after_allow (extract_ip ctx) ctx (l.allow (extract_ip ctx) p.requests_per_second second w)
unfolding execute
execute_live l p w ctx on some_ip = rw (on, is_empty-nonempty (extract_ip ctx) some_ip) refl

execute_given :
    (F : Type 0) (o : FloatOps F) (now limit : ℕ) (p : RateLimit) (m : MemoryLimiter F)
    (ctx : Context)
    → p.enabled ≡ true
    → p.requests_per_second ≡ pos limit
    → extract_ip ctx ≢ []
    → ((execute (memory_at o now) p m ctx).0
        ≡ (memory_allow o now now (extract_ip ctx) (pos limit) second m).0)
      × (let_through (execute (memory_at o now) p m ctx).2
          ≡ (memory_allow o now now (extract_ip ctx) (pos limit) second m).1)
unfolding memory_at
execute_given F o now limit p m ctx on rate some_ip =
    let (m', given) = memory_allow o now now (extract_ip ctx) (pos limit) second m in
    let live : execute (memory_at o now) p m ctx
        ≡ after_allow (extract_ip ctx) ctx (m', answer given) =
      execute_live (memory_at o now) p m ctx on some_ip
      ∙ ap
          (λ n.
            after_allow (extract_ip ctx) ctx ((memory_at o now).allow (extract_ip ctx) n second m))
          rate in
    let lem = after_allow_lem (extract_ip ctx) ctx m' given in
    (ap (λ x. x.0) live ∙ lem.0, ap (λ x. let_through x.2) live ∙ lem.1)

execute_all-memory_calls :
    (F : Type 0) (o : FloatOps F) (now limit : ℕ) (p : RateLimit) (ctxs : List Context)
    (m : MemoryLimiter F)
    → p.enabled ≡ true
    → p.requests_per_second ≡ pos limit
    → All (λ ctx. extract_ip ctx ≢ []) ctxs
    → execute_all (memory_at o now) p ctxs m
      ≡ memory_calls o now limit second (map extract_ip ctxs) m
unfolding execute_all memory_calls
execute_all-memory_calls F o now limit p [] m on rate ips = refl
execute_all-memory_calls F o now limit p (ctx ∷ ctxs) m on rate ips =
    let (state, given) = execute_given F o now limit p m ctx on rate ips.0 in
    let m' = (memory_allow o now now (extract_ip ctx) (pos limit) second m).0 in
    ap (◌∷◌ (let_through (execute (memory_at o now) p m ctx).2)) (
      ap (execute_all (memory_at o now) p ctxs) state
      ∙ execute_all-memory_calls F o now limit p ctxs m' on rate ips.1)
    ∙ ap (λ b. b ∷ memory_calls o now limit second (map extract_ip ctxs) m') given

-- Of requests that come at one time, each with an address, the plugin with a fresh memory limiter
-- lets through exactly the first `requests_per_second` of each address, whatever the setting
-- `burst` says, if float64 is exact on whole numbers up to 2^53 and the rate is not greater.
pub execute_all-first_calls :
    (F : Type 0) (o : FloatOps F) (now limit : ℕ) (p : RateLimit) (ctxs : List Context)
    → IsExact F o limit second
    → limit ≤ 2 ^ 53
    → p.enabled ≡ true
    → p.requests_per_second ≡ pos limit
    → All (λ ctx. extract_ip ctx ≢ []) ctxs
    → execute_all (memory_at o now) p ctxs new_memory_limiter
      ≡ first_calls limit [] (map extract_ip ctxs)
execute_all-first_calls F o now limit p ctxs exact small on rate ips =
    execute_all-memory_calls F o now limit p ctxs new_memory_limiter on rate ips
    ∙ memory_calls-first_calls F o now limit second exact small (map extract_ip ctxs)
