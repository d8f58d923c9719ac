-- ===== src/Ring/Window.antt =====
-- A ring holds the last `max_size` entries that were written.
use Prim.Native.Nat.add
use mathlib.Core.Path.{ap₂}
use native.Mathlib.Decide.{dec_lt}
use native.Mathlib.Nat.{mod-lt}
use waffynx.Ring.{Ring, push, chronological, IsValid, new_ring, push_all}
use waffynx.Common.{
  length, set, take, drop, length-append, length-set, length-take, length-drop, ℕ, zero, suc, ◌+◌,
  ◌-◌, ◌%◌, ◌≤◌, ◌<◌, ◌≡◌, refl, sym, ap, ◌∙◌, some, List, [], ◌∷◌, ◌++◌, append-nil, append_assoc,
  arith,
}

module _ {ℓ} {A : Type ℓ} where
  take-set :
      (xs : List A) (i : ℕ) (x : A)
      → i < length xs
      → take (suc i) (set xs i x) ≡ take i xs ++ x ∷ []
  take-set [] i x h = elim h [ ]
  take-set (y ∷ ys) zero x h = ap (◌∷◌ x) refl
  take-set (y ∷ ys) (suc i) x h = ap (◌∷◌ y) (take-set ys i x (omega arith))

  drop-set : (xs : List A) (i : ℕ) (x : A) → drop (suc i) (set xs i x) ≡ drop (suc i) xs
  drop-set [] i x = refl
  drop-set (y ∷ ys) zero x = refl
  drop-set (y ∷ ys) (suc i) x = drop-set ys i x

  drop-drop : (i : ℕ) (xs : List A) → drop 1 (drop i xs) ≡ drop (suc i) xs
  drop-drop zero xs = refl
  drop-drop (suc i) [] = refl
  drop-drop (suc i) (y ∷ ys) = drop-drop i ys

  take_all : (n : ℕ) (xs : List A) → length xs ≤ n → take n xs ≡ xs
  take_all zero [] h = refl
  take_all zero (y ∷ ys) h = elim h [ ]
  take_all (suc n) [] h = refl
  take_all (suc n) (y ∷ ys) h = ap (◌∷◌ y) (take_all n ys (omega arith))

  drop_all : (n : ℕ) (xs : List A) → length xs ≤ n → drop n xs ≡ []
  drop_all zero [] h = refl
  drop_all zero (y ∷ ys) h = elim h [ ]
  drop_all (suc n) [] h = refl
  drop_all (suc n) (y ∷ ys) h = drop_all n ys (omega arith)

  drop-append : (n : ℕ) (xs ys : List A) → n ≤ length xs → drop n (xs ++ ys) ≡ drop n xs ++ ys
  drop-append zero xs ys h = refl
  drop-append (suc n) [] ys h = elim h [ ]
  drop-append (suc n) (x ∷ xs) ys h = drop-append n xs ys (omega arith)

  drop-drop_add : (a b : ℕ) (xs : List A) → drop a (drop b xs) ≡ drop (b + a) xs
  drop-drop_add a zero xs = rw (add.zero a)
  drop-drop_add a (suc b) [] = rw (add.suc b a) (drop_all a [] (omega arith))
  drop-drop_add a (suc b) (x ∷ xs) = rw (add.suc b a) (drop-drop_add a b xs)

  length-chronological : (r : Ring A) → length (chronological r) ≡ length r.items
  length-chronological r = omega (
    arith,
    length-append (drop r.position r.items) (take r.position r.items),
    length-drop r.position r.items,
    length-take r.position r.items,
  )

  -- The last `n` entries of a list.
  abbrev pub last_n : ℕ → List A → List A
  last_n n xs = drop (length xs - n) xs

  last_n-append : (n : ℕ) (ys zs : List A) → last_n n (last_n n ys ++ zs) ≡ last_n n (ys ++ zs)
  last_n-append n ys zs =
      let b : ℕ = length ys - n in
      let a : ℕ = length (drop b ys ++ zs) - n in
      ap (drop a) (sym (drop-append b ys zs (omega arith)))
      ∙ drop-drop_add a b (ys ++ zs)
      ∙ ap (λ k. drop k (ys ++ zs))
          (omega (arith, length-append ys zs, length-append (drop b ys) zs, length-drop b ys))

  last_n_of_le : (n : ℕ) (xs : List A) → length xs ≤ n → last_n n xs ≡ xs
  last_n_of_le n xs h = ap (λ k. drop k xs) {y = 0} (omega arith)

  last_n_of_suc : (n : ℕ) (xs : List A) → length xs ≡ suc n → last_n n xs ≡ drop 1 xs
  last_n_of_suc n xs h = ap (λ k. drop k xs) {y = 1} (omega arith)

  chronological_unwrapped : (r : Ring A) → r.position ≡ 0 → chronological r ≡ r.items
  chronological_unwrapped r e = ap (λ k. drop k r.items ++ take k r.items) e ∙ append-nil r.items

  -- What one write does to a valid ring: it succeeds, keeps the ring valid, and the entries are
  -- the last ones of the old entries with the new one behind them.
  pub record Written (x : A) (r : Ring A) : Type ℓ where
    pub after : Ring A
    pub pushed : push x r ≡ some after
    pub valid : IsValid after
    pub same_size : after.max_size ≡ r.max_size
    pub window : chronological after ≡ last_n r.max_size (chronological r ++ x ∷ [])

  push_with_room : (x : A) (r : Ring A) → IsValid r → length r.items < r.max_size → Written x r
  unfolding push
  push_with_room x r v h =
      let start : r.position ≡ 0 = v.unwrapped h in
      let after : Ring A = record r { items = r.items ++ x ∷ [] } in
      let grown = length-append r.items (x ∷ []) in
      record {
        after = after;
        pushed = ground arith;
        valid = record {
          nonempty = v.nonempty;
          bounded = omega (arith, grown);
          in_range = v.in_range;
          unwrapped = λ _. start;
        };
        same_size = refl;
        window =
            chronological_unwrapped after start
            ∙ sym (last_n_of_le r.max_size (r.items ++ x ∷ []) (omega (arith, grown)))
            ∙ ap (λ ys. last_n r.max_size (ys ++ x ∷ [])) (sym (chronological_unwrapped r start));
      }

  -- The overwritten entry is the oldest; the position goes on, or back to the start.
  overwrite-chronological :
      (xs : List A) (p n : ℕ) (x : A)
      → length xs ≡ n
      → p < n
      → drop ((p + 1) % n) (set xs p x) ++ take ((p + 1) % n) (set xs p x)
        ≡ drop 1 (drop p xs ++ take p xs) ++ x ∷ []
  overwrite-chronological xs p n x e h = elim (dec_lt (p + 1) n) [
    | yes more ↦
        ap (λ k. drop k (set xs p x) ++ take k (set xs p x)) {y = suc p} (grind arith)
        ∙ ap₂ (◌++◌) (drop-set xs p x) (take-set xs p x (omega arith))
        ∙ sym (append_assoc (drop (suc p) xs) (take p xs) (x ∷ []))
        ∙ ap (λ ys. (ys ++ take p xs) ++ x ∷ []) (sym (drop-drop p xs))
        ∙ ap (λ ys. ys ++ x ∷ [])
            (sym (drop-append 1 (drop p xs) (take p xs) (omega (arith, length-drop p xs))))
    | no last ↦
        ap (λ k. drop k (set xs p x) ++ take k (set xs p x)) {y = 0} (grind arith)
        ∙ append-nil (set xs p x)
        ∙ sym (take_all (suc p) (set xs p x) (omega (arith, length-set xs p x)))
        ∙ take-set xs p x (omega arith)
        ∙ ap (λ ys. (ys ++ take p xs) ++ x ∷ [])
            (sym (drop_all (suc p) xs (omega arith)) ∙ sym (drop-drop p xs))
        ∙ ap (λ ys. ys ++ x ∷ [])
            (sym (drop-append 1 (drop p xs) (take p xs) (omega (arith, length-drop p xs))))
  ]

  push_when_full : (x : A) (r : Ring A) → IsValid r → length r.items ≡ r.max_size → Written x r
  unfolding push
  push_when_full x r v h =
      let after : Ring A = record r {
        items = set r.items r.position x;
        position = (r.position + 1) % r.max_size;
      } in
      let ys : List A = chronological r in
      record {
        after = after;
        pushed = ground (arith, v.in_range);
        valid = record {
          nonempty = v.nonempty;
          bounded = omega (arith, length-set r.items r.position x);
          in_range = mod-lt (r.position + 1) v.nonempty;
          unwrapped = λ room. absurd (omega (arith, length-set r.items r.position x));
        };
        same_size = refl;
        window =
            overwrite-chronological r.items r.position r.max_size x h v.in_range
            ∙ sym (drop-append 1 ys (x ∷ []) (omega (arith, length-chronological r, v.nonempty)))
            ∙ sym (
                last_n_of_suc r.max_size (ys ++ x ∷ [])
                  (omega (arith, length-append ys (x ∷ []), length-chronological r)));
      }

  pub push-Written : (x : A) (r : Ring A) → IsValid r → Written x r
  push-Written x r v = elim (dec_lt (length r.items) r.max_size) [
    | yes room ↦ push_with_room x r v room
    | no full ↦ push_when_full x r v (omega (arith, v.bounded))
  ]

  -- Writing a sequence never panics, keeps the ring valid, and leaves the last `max_size` of what
  -- it held and was written.
  pub push_all-window :
      (xs : List A) (r : Ring A)
      → IsValid r
      → (r' : Ring A) × (push_all xs r ≡ some r')
        × IsValid r'
        × (r'.max_size ≡ r.max_size)
        × (chronological r' ≡ last_n r.max_size (chronological r ++ xs))
  unfolding push_all
  push_all-window [] r v = (
    r,
    refl,
    v,
    refl,
    rw append-nil (
        sym (
          last_n_of_le r.max_size (chronological r)
            (omega (arith, length-chronological r, v.bounded)))),
  )
  push_all-window (x ∷ xs) r v =
      let w = push-Written x r v in
      let (r', runs, valid, size, window) = push_all-window xs w.after w.valid in
      (
        r',
        rw (w.pushed, push_all) runs,
        valid,
        size ∙ w.same_size,
        window
            ∙ rw (w.same_size, w.window)
                (last_n-append r.max_size (chronological r ++ x ∷ []) xs
                  ∙ ap (last_n r.max_size) (append_assoc (chronological r) (x ∷ []) xs)),
      )

  pub new_ring-IsValid : (n : ℕ) → 0 < n → IsValid (new_ring {A = A} n)
  unfolding new_ring
  new_ring-IsValid n h = record {
    nonempty = h;
    bounded = omega arith;
    in_range = h;
    unwrapped = λ _. refl;
  }

  -- While fewer entries were written than the ring has room for, they stand in their order.
  pub items_of_window :
      (r : Ring A) (n : ℕ) (xs : List A)
      → IsValid r
      → r.max_size ≡ n
      → chronological r ≡ last_n n xs
      → length xs < n
      → r.items ≡ xs
  items_of_window r n xs v size window h =
      let all : chronological r ≡ xs = window ∙ last_n_of_le n xs (omega arith) in
      sym (
        chronological_unwrapped r
          (v.unwrapped (omega (arith, ap length all, length-chronological r))))
      ∙ all
