-- ===== src/Limit/Fixed.antt =====
-- The fixed windows of the Redis limiter.
use native.Mathlib.Nat.{div-le_self}
use mathlib.Core.List.{reverse, reverse-append, reverse-reverse}
use waffynx.Limit.{
  Allowed, answer, Redis, window_sec, redis_allow, redis_key, second, is_one, after_incr,
}
use waffynx.Common.Decimal.{decimal, itoa, atoi, IsDigit, atoi-decimal, decimal-cons}
use waffynx.Common.Split.{cut-free}
use waffynx.Common.{
  eqb, if◌then◌else◌, eqb_iff, Bool-cases, drop, any, any-append, All, Text, text_beq, text_beq_iff,
  cut, ℤ, pos, lt_int, ℕ, suc, ◌+◌, ◌/◌, ◌^◌, ◌<◌, ◌≡◌, refl, sym, ap, subst, ◌∙◌, inl, inr, Bool,
  true, false, not, ◌&&◌, Option, none, some, List, [], ◌∷◌, ◌++◌, append-nil, append_assoc, arith,
}

-- A call of `Allow`: the time and the key.
abbrev pub AllowCall : Type 0
AllowCall = ℕ × Text

unfoldable pub redis_calls :
    {World : Type 0} → Redis World → ℤ → ℕ → List AllowCall → World → List Allowed
unfolding redis_allow
redis_calls r limit window [] w = []
redis_calls r limit window ((now, key) ∷ calls) w =
    let (w', given) = redis_allow r now key limit window w in
    given ∷ redis_calls r limit window calls w'

-- The documented effect of INCR and EXPIRE on the counters, while no counter expires: INCR adds one to
-- a counter that starts at zero and gives the sum.
pub record Counts (World : Type 0) (r : Redis World) (count : World → Text → ℕ) : Type 0 where
  pub incr_gives : (key : Text) (w : World) → (r.incr key w).1.0 ≡ some (pos (suc (count w key)))
  pub incr_counts :
      (key other : Text) (w : World)
      → count (r.incr key w).0 other
        ≡ (if text_beq key other then suc (count w other) else count w other)
  pub expire_keeps :
      (key other : Text) (ttl : ℕ) (w : World) → count (r.expire key ttl w) other ≡ count w other

-- The calls of the key in the window of a time.
unfoldable pub in_window : ℕ → AllowCall → List AllowCall → ℕ
in_window window (now, key) [] = 0
in_window window (now, key) ((t, k) ∷ past) =
    let rest = in_window window (now, key) past in
    if eqb (t / window_sec window) (now / window_sec window) && text_beq k key
    then suc rest
    else rest

-- The calls are answered by the number of the calls before.
unfoldable pub window_answers : ℤ → ℕ → List AllowCall → List AllowCall → List Allowed
unfolding in_window
window_answers limit window past [] = []
window_answers limit window past (c ∷ calls) =
    answer (not (lt_int limit (pos (suc (in_window window c past)))))
    ∷ window_answers limit window (c ∷ past) calls

decimal-inj : (m n : ℕ) → m < 2 ^ 63 → n < 2 ^ 63 → decimal m ≡ decimal n → m ≡ n
decimal-inj m n hm hn e =
    let both : some (pos m) ≡ some (pos n) =
      sym (atoi-decimal m hm) ∙ ap atoi e ∙ atoi-decimal n hn in
    cc both

colon-free : (s : Text) → All IsDigit s → any (λ c. eqb c b':') s ≡ false
colon-free [] h = refl
colon-free (c ∷ s) h = ground (arith, colon-free s h.1)

any-reverse : (p : ℕ → Bool) (s : Text) → any p s ≡ false → any p (reverse s) ≡ false
any-reverse p [] h = refl
any-reverse p (c ∷ s) h =
    subst (λ t. any p t ≡ false) (sym (reverse-append (c ∷ []) s))
      (any-append p (reverse s) (c ∷ []) (any-reverse p s (ground arith)) (ground arith))

digits_back : (n : ℕ) → any (λ c. eqb c b':') (reverse (decimal n)) ≡ false
digits_back n =
    let (c, t, e, all) = decimal-cons n in
    any-reverse (λ c. eqb c b':') (decimal n)
      (subst (λ s. any (λ c. eqb c b':') s ≡ false) (sym e) (colon-free (c ∷ t) all))

-- Read from its end, a name is cut at its last colon.
cut_name :
    (k : Text) (b : ℕ)
    → cut b':' (reverse (k ++ (b':' ∷ decimal b))) ≡ (reverse (decimal b), some (reverse k))
unfolding cut
cut_name k b =
    ap (cut b':') (
      reverse-append k (b':' ∷ decimal b)
      ∙ ap (λ u. u ++ reverse k) (reverse-append (b':' ∷ []) (decimal b))
      ∙ append_assoc (reverse (decimal b)) (b':' ∷ []) (reverse k))
    ∙ cut-free b':' (reverse (decimal b)) (b':' ∷ reverse k) (digits_back b)
    ∙ ap (λ u. (u, some (reverse k))) (append-nil (reverse (decimal b)))

reverse-inj : (s t : Text) → reverse s ≡ reverse t → s ≡ t
reverse-inj s t e = sym (reverse-reverse s) ∙ ap reverse e ∙ reverse-reverse t

some-inj : (s t : Text) → some s ≡ some t → s ≡ t
some-inj s t e = cc e

-- The name of a counter gives back its key and its window.
pub redis_key-inj :
    (k k' : Text) (b b' : ℕ)
    → b < 2 ^ 63
    → b' < 2 ^ 63
    → redis_key k b ≡ redis_key k' b'
    → (k ≡ k') × (b ≡ b')
unfolding redis_key itoa
redis_key-inj k k' b b' small small' e =
    let behind : k ++ (b':' ∷ decimal b) ≡ k' ++ (b':' ∷ decimal b') = ap (drop 18) e in
    let parts = sym (cut_name k b) ∙ ap (λ u. cut b':' (reverse u)) behind ∙ cut_name k' b' in
    (
      reverse-inj k k' (some-inj (reverse k) (reverse k') (ap (λ u. u.1) parts)),
      decimal-inj b b' small small' (reverse-inj (decimal b) (decimal b') (ap (λ u. u.0) parts)),
    )

redis_key-beq :
    (k k' : Text) (b b' : ℕ)
    → b < 2 ^ 63
    → b' < 2 ^ 63
    → text_beq (redis_key k b) (redis_key k' b') ≡ (eqb b b' && text_beq k k')
redis_key-beq k k' b b' small small' = elim (Bool-cases (eqb b b' && text_beq k k')) [
  | inl same ↦
      let eb : b ≡ b' = (eqb_iff b b').0 (ground arith) in
      let ek : k ≡ k' = (text_beq_iff k k').0 (ground arith) in
      rw same ((text_beq_iff (redis_key k b) (redis_key k' b')).1 (cc (eb, ek)))
  | inr other ↦ elim (Bool-cases (text_beq (redis_key k b) (redis_key k' b'))) [
    | inl found ↦
        let (ek, eb) =
          redis_key-inj k k' b b' small small'
            ((text_beq_iff (redis_key k b) (redis_key k' b')).0 found) in
        let yes_k = (text_beq_iff k k').1 ek in
        let yes_b = (eqb_iff b b').1 eb in cc (rw (yes_b, yes_k) at other)
    | inr differ ↦ differ ∙ sym other
  ]
]

bucket_small : (now window : ℕ) → now < 2 ^ 63 → now / window_sec window < 2 ^ 63
bucket_small now window h = omega (arith, div-le_self now (window_sec window))

-- Each call is of a time below 2^63 seconds.
abbrev pub InRange : List AllowCall → Type 0
InRange calls = All (λ (c : AllowCall). c.0 < 2 ^ 63) calls

module _ (World : Type 0) (r : Redis World) where
  after_incr_lem :
      (name : Text) (limit : ℤ) (window : ℕ) (x : World × (Option ℤ × Text)) (n : ℤ)
      → x.1.0 ≡ some n
      → after_incr r name limit window x ≡ (
        if is_one n then r.expire name (window + second) x.0 else x.0,
        answer (not (lt_int limit n)),
      )
  unfolding after_incr
  after_incr_lem name limit window (w, (none, err)) n e = cc e
  after_incr_lem name limit window (w, (some m, err)) n e = let same : m ≡ n = cc e in rw same refl

  module _ (count : World → Text → ℕ) (counts : Counts World r count) where
    expire_if :
        (b : Bool) (name other : Text) (ttl : ℕ) (w : World)
        → count (if b then r.expire name ttl w else w) other ≡ count w other
    expire_if true name other ttl w = counts.expire_keeps name other ttl w
    expire_if false name other ttl w = refl

    allow_answers :
        (now : ℕ) (key : Text) (limit : ℤ) (window : ℕ) (w : World)
        → (redis_allow r now key limit window w).1
          ≡ answer
              (not (lt_int limit (pos (suc (count w (redis_key key (now / window_sec window)))))))
    unfolding redis_allow
    allow_answers now key limit window w =
        let name = redis_key key (now / window_sec window) in
        ap (λ x. x.1)
          (after_incr_lem name limit window (r.incr name w) (pos (suc (count w name)))
            (counts.incr_gives name w))

    allow_counts :
        (now : ℕ) (key : Text) (limit : ℤ) (window : ℕ) (w : World) (other : Text)
        → count (redis_allow r now key limit window w).0 other ≡ (
            if text_beq (redis_key key (now / window_sec window)) other
            then suc (count w other)
            else count w other)
    unfolding redis_allow
    allow_counts now key limit window w other =
        let name = redis_key key (now / window_sec window) in
        let n = pos (suc (count w name)) in
        ap (λ x. count x.0 other)
          (after_incr_lem name limit window (r.incr name w) n (counts.incr_gives name w))
        ∙ expire_if (is_one n) name other (window + second) (r.incr name w).0
        ∙ counts.incr_counts name other w

    redis_calls_lem :
        (limit : ℤ) (window : ℕ) (past calls : List AllowCall) (w : World)
        → InRange calls
        → ((now : ℕ) (key : Text)
            → now < 2 ^ 63
            → count w (redis_key key (now / window_sec window)) ≡ in_window window (now, key) past)
        → redis_calls r limit window calls w ≡ window_answers limit window past calls
    unfolding redis_calls window_answers in_window
    redis_calls_lem limit window past [] w small inv = refl
    redis_calls_lem limit window past ((now, key) ∷ calls) w small inv =
        let next : (t : ℕ) (k : Text)
            → t < 2 ^ 63
            → count (redis_allow r now key limit window w).0 (redis_key k (t / window_sec window))
              ≡ in_window window (t, k) ((now, key) ∷ past) =
          λ t k h.
            allow_counts now key limit window w (redis_key k (t / window_sec window))
            ∙ rw
                (
                  redis_key-beq key k (now / window_sec window) (t / window_sec window)
                      (bucket_small now window small.0) (bucket_small t window h),
                  inv t k h,
                )
                refl in
        let head =
          allow_answers now key limit window w
          ∙ ap (λ n. answer (not (lt_int limit (pos (suc n))))) (inv now key small.0) in
        let rest =
          redis_calls_lem limit window ((now, key) ∷ past) calls
            (redis_allow r now key limit window w).0 small.1 next in
        rw (head, rest) refl

    -- While no counter expires and Redis adds one at each INCR, the calls of `Allow` are answered, in any
    -- order of keys and times, as fixed windows: a call is allowed exactly if the calls of the
    -- same key in the same window before it are fewer than the limit. Counters of different keys
    -- or windows have different names. The times are below 2^63 seconds.
    pub redis_calls-window_answers :
        (limit : ℤ) (window : ℕ) (calls : List AllowCall) (w : World)
        → ((name : Text) → count w name ≡ 0)
        → InRange calls
        → redis_calls r limit window calls w ≡ window_answers limit window [] calls
    unfolding in_window
    redis_calls-window_answers limit window calls w zeros small =
        redis_calls_lem limit window [] calls w small
          (λ now key h. zeros (redis_key key (now / window_sec window)))
