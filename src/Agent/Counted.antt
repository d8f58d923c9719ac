-- ===== src/Agent/Counted.antt =====
-- What the tracker counts.
use waffynx.Agent.{
  Tracker, new_tracker, is_recent, meets, times_or_nil, record_ip, put_valid, clean, cleanup,
}
use waffynx.Agent.Within.{within, keep-within}
use waffynx.Common.{
  pos, negsuc, lt_int, int64, opposite, add_duration, ◌^◌, ◌<◌, if◌then◌else◌, Bool-cases, length,
  keep, keep-append, length-append, Map, lookup, lookup-insert, lookup-delete, Text, text_beq,
  text_beq_iff, ℤ, ℕ, ◌+◌, ◌*◌, ◌≤◌, ◌≡◌, refl, sym, ap, ◌∙◌, inl, inr, Bool, true, false, Option,
  none, some, List, [], ◌∷◌, ◌++◌, append-nil, append_assoc, arith,
}

-- A call of the tracker.
pub data Op : Type 0 where
  records : Text → Op
  cleans : Op

unfoldable pub run_op : ℕ → Op → Tracker → Tracker
run_op now (records ip) t = (record_ip now ip t).0
run_op now cleans t = cleanup now t

unfoldable pub run : List (ℕ × Op) → Tracker → Tracker
unfolding run_op
run [] t = t
run ((now, op) ∷ ops) t = run ops (run_op now op t)

-- The times of the calls do not fall, and the last is not after `now`.
abbrev pub Rising : ℕ → List (ℕ × Op) → ℕ → Type 0
Rising from [] now = from ≤ now
Rising from ((t, op) ∷ ops) now = (from ≤ t) × Rising t ops now

abbrev pub op_times : Text → ℕ → Op → List ℕ
op_times ip t (records j) = if text_beq j ip then t ∷ [] else []
op_times ip t cleans = []

-- The times at which an address was recorded.
unfoldable pub times_of : Text → List (ℕ × Op) → List ℕ
times_of ip [] = []
times_of ip ((t, op) ∷ ops) = op_times ip t op ++ times_of ip ops

times_at : Text → Tracker → List ℕ
times_at ip t = times_or_nil (lookup ip t.counts)

after_shift :
    (d : ℤ) (now later ts : ℕ)
    → now ≤ later
    → lt_int (add_duration later d) (pos ts) ≡ true
    → lt_int (add_duration now d) (pos ts) ≡ true
after_shift (pos d) now later ts h e = ground arith
after_shift (negsuc d) now later ts h e = ground arith

-- What is recent at a time was recent before it.
recent_before :
    (w : ℤ) (now later ts : ℕ)
    → now ≤ later
    → is_recent later w ts ≡ true
    → is_recent now w ts ≡ true
recent_before w now later ts h e = after_shift (int64 (opposite w)) now later ts h e

keep-recent :
    (w : ℤ) (now later : ℕ) (ts : List ℕ)
    → now ≤ later
    → keep (is_recent later w) (keep (is_recent now w) ts) ≡ keep (is_recent later w) ts
keep-recent w now later [] h = refl
keep-recent w now later (x ∷ ts) h =
    ground (arith, keep-recent w now later ts h, recent_before w now later x h)

times_or_nil-if :
    (b : Bool) (o o' : Option (List ℕ))
    → times_or_nil (if b then o else o') ≡ (if b then times_or_nil o else times_or_nil o')
times_or_nil-if true o o' = refl
times_or_nil-if false o o' = refl

keep-if :
    (p : ℕ → Bool) (b : Bool) (v : List ℕ) (o : Option (List ℕ))
    → (if b then keep p v else keep p (times_or_nil o))
      ≡ keep p (times_or_nil (if b then some v else o))
keep-if p true v o = refl
keep-if p false v o = refl

lookup-put_valid :
    (j ip : Text) (v : List ℕ) (m : Map (List ℕ))
    → times_or_nil (lookup j (put_valid ip v m))
      ≡ (if text_beq ip j then v else times_or_nil (lookup j m))
unfolding put_valid lookup
lookup-put_valid j ip [] m =
    ap times_or_nil (lookup-delete ip j m) ∙ times_or_nil-if (text_beq ip j) none (lookup j m)
lookup-put_valid j ip (x ∷ v) m = times_or_nil-if (text_beq ip j) (some (x ∷ v)) (lookup j m)

times-clean :
    (j : Text) (now : ℕ) (w : ℤ) (m : Map (List ℕ))
    → times_or_nil (lookup j (clean now w m)) ≡ keep (is_recent now w) (times_or_nil (lookup j m))
unfolding clean lookup
times-clean j now w [] = refl
times-clean j now w ((ip, v) ∷ m) =
    lookup-put_valid j ip (keep (is_recent now w) v) (clean now w m)
    ∙ ap (λ (r : List ℕ). if text_beq ip j then keep (is_recent now w) v else r)
        (times-clean j now w m)
    ∙ keep-if (is_recent now w) (text_beq ip j) v (lookup j m)

-- At every time from `from` on, the tracker has the same recent times as the past.
Tracks : ℕ → Tracker → (Text → List ℕ) → Type 0
Tracks from t past =
    (ip : Text) (now : ℕ)
    → from ≤ now
    → keep (is_recent now t.window) (times_at ip t) ≡ keep (is_recent now t.window) (past ip)

append_time :
    (w : ℤ) (time now : ℕ) (old past : List ℕ)
    → time ≤ now
    → keep (is_recent now w) old ≡ keep (is_recent now w) past
    → keep (is_recent now w) (keep (is_recent time w) old ++ time ∷ [])
      ≡ keep (is_recent now w) (past ++ time ∷ [])
append_time w time now old past h e =
    keep-append (is_recent now w) (keep (is_recent time w) old) (time ∷ [])
    ∙ ap (λ (xs : List ℕ). xs ++ keep (is_recent now w) (time ∷ []))
        (keep-recent w time now old h ∙ e)
    ∙ sym (keep-append (is_recent now w) past (time ∷ []))

run_op-Tracks :
    (from time : ℕ) (op : Op) (t : Tracker) (past : Text → List ℕ)
    → from ≤ time
    → Tracks from t past
    → Tracks time (run_op time op t) (λ ip. past ip ++ op_times ip time op)
unfolding run_op Tracks times_at record_ip cleanup
run_op-Tracks from time cleans t past h track ip now later =
    ap (keep (is_recent now t.window)) (times-clean ip time t.window t.counts)
    ∙ keep-recent t.window time now (times_or_nil (lookup ip t.counts)) later
    ∙ track ip now (omega arith)
    ∙ ap (keep (is_recent now t.window)) (sym (append-nil (past ip)))
run_op-Tracks from time (records j) t past h track ip now later =
    let old = times_or_nil (lookup j t.counts) in
    let valid : List ℕ = keep (is_recent time t.window) old ++ time ∷ [] in
    ap (λ o. keep (is_recent now t.window) (times_or_nil o)) (lookup-insert j ip valid t.counts)
    ∙ elim (Bool-cases (text_beq j ip)) [
      | inl same ↦
          let e : j ≡ ip = (text_beq_iff j ip).0 same in
          rw same (
            append_time t.window time now old (past ip) later (
              ap (λ k. keep (is_recent now t.window) (times_or_nil (lookup k t.counts))) e
              ∙ track ip now (omega arith)))
      | inr other ↦ rw other (
          track ip now (omega arith)
          ∙ ap (keep (is_recent now t.window)) (sym (append-nil (past ip))))
    ]

run-Tracks :
    (from now : ℕ) (ops : List (ℕ × Op)) (t : Tracker) (past : Text → List ℕ)
    → Rising from ops now
    → Tracks from t past
    → (ip : Text)
    → keep (is_recent now t.window) (times_at ip (run ops t))
      ≡ keep (is_recent now t.window) (past ip ++ times_of ip ops)
unfolding run times_of run_op record_ip cleanup Tracks
run-Tracks from now [] t past rising track ip =
    track ip now rising ∙ ap (keep (is_recent now t.window)) (sym (append-nil (past ip)))
run-Tracks from now ((time, cleans) ∷ ops) t past rising track ip =
    run-Tracks time now ops (run_op time cleans t) (λ ip. past ip ++ []) rising.1
      (run_op-Tracks from time cleans t past rising.0 track) ip
    ∙ ap (keep (is_recent now t.window)) (append_assoc (past ip) [] (times_of ip ops))
run-Tracks from now ((time, records j) ∷ ops) t past rising track ip =
    run-Tracks time now ops (run_op time (records j) t)
      (λ ip. past ip ++ op_times ip time (records j)) rising.1
      (run_op-Tracks from time (records j) t past rising.0 track) ip
    ∙ ap (keep (is_recent now t.window))
        (append_assoc (past ip) (op_times ip time (records j)) (times_of ip ops))

run_settings :
    (ops : List (ℕ × Op)) (t : Tracker)
    → ((run ops t).window ≡ t.window) × ((run ops t).threshold ≡ t.threshold)
unfolding run run_op record_ip cleanup
run_settings [] t = (refl, refl)
run_settings ((time, cleans) ∷ ops) t = run_settings ops (cleanup time t)
run_settings ((time, records j) ∷ ops) t = run_settings ops (record_ip time j t).0

-- For a window of seconds that are less than 2^63 nanoseconds: after any sequence of records and
-- cleanups at times that do not fall, recording an address answers true exactly if it was recorded,
-- this time included, at least `threshold` times less than the window ago. A cleanup never changes
-- an answer.
pub record_ip-run :
    (threshold : ℤ) (window_sec : ℕ) (ops : List (ℕ × Op)) (now : ℕ) (ip : Text)
    → window_sec * 1000000000 < 2 ^ 63
    → Rising 0 ops now
    → (record_ip now ip (run ops (new_tracker threshold (pos window_sec)))).1
      ≡ meets threshold (length (keep (within now (window_sec * 1000000000)) (times_of ip ops)) + 1)
unfolding record_ip new_tracker Tracks times_at lookup
record_ip-run threshold window_sec ops now ip bound rising =
    let t = new_tracker threshold (pos window_sec) in
    let (window, same_threshold) = run_settings ops t in
    let counted = run-Tracks 0 now ops t (λ _. []) rising (λ ip now h. refl) ip in
    let old = times_at ip (run ops t) in
    rw (window, same_threshold)
      (ap (meets threshold) (
        length-append (keep (is_recent now t.window) old) (now ∷ [])
        ∙ ap (λ (xs : List ℕ). length xs + 1)
            (counted ∙ keep-within window_sec now (times_of ip ops) bound)))
