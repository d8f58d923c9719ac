-- ===== src/Sidecar/Served.antt =====
-- `handleEvaluate` as a whole: the answer of each request, and what it leaves in the records.
use waffynx.Http.{ResponseWriter, set_header, write_header, write_body}
use waffynx.Rules.{NetLib}
use waffynx.Sidecar.{Sidecar, Call, Times, respond_allow, respond_deny, policy_request}
use waffynx.Sidecar.Evaluate.{
  Outcome, passed, denied, answered, as_outcome, respond, settle, decide, finish,
  handle_evaluate-eq-finish,
}
use waffynx.Sidecar.Recorded.{IsSound}
use waffynx.Sidecar.Answer.{after_plugins, Passes, decide_passed_iff, decide-writer}
use waffynx.Sidecar.Outcomes.{record_outcome_off, record_outcome_total}
use waffynx.Learning
use waffynx.Sidecar.Handle.{handle_evaluate}
use waffynx.Common.{
  eqb, if◌then◌else◌, Option-cases, Text, txt, ℕ, ◌≡◌, refl, sym, ap, ◌∙◌, ◌≢◌, ◌⊎◌, inl, inr,
  Option, none, some, arith,
}

-- The status that a client gets: the first that was sent, or another if none was.
abbrev pub sent_or : ℕ → ResponseWriter → ℕ
sent_or code w = elim w.sent [ none ↦ code | some (first, header) ↦ first ]

-- net/http sends 200 for a handler that ends without a status.
abbrev pub answer_status : ResponseWriter → ℕ
answer_status = sent_or 200

status_allow : (w : ResponseWriter) → answer_status (respond_allow w) ≡ sent_or 204 w
unfolding respond_allow set_header write_header
status_allow w = ground arith

status_deny :
    (rule_id reason : Text) (w : ResponseWriter)
    → answer_status (respond_deny rule_id reason w) ≡ sent_or 403 w
unfolding respond_deny set_header write_header write_body
status_deny rule_id reason w = ground arith

module _ {World : Type 0} (lib : NetLib) (c : Call) (s : Sidecar World) where
  -- How a request that does not pass is answered: with 403, or, if a plugin failed and set a status of
  -- its own in the context, as that plugin left the response. A status that a plugin has sent stays.
  pub data Refused (w : ResponseWriter) : Type 0 where
    forbidden :
        answer_status w ≡ sent_or 403 (after_plugins lib c s).1.writer
        → ((after_plugins lib c s).2 ≡ none) ⊎ ((after_plugins lib c s).1.status_code ≡ 0)
        → Refused w
    by_plugin :
        (message : Text)
        → (after_plugins lib c s).2 ≡ some message
        → (after_plugins lib c s).1.status_code ≢ 0
        → w ≡ (after_plugins lib c s).1.writer
        → Refused w

  decide_denied :
      (rule_id reason : Text)
      → (decide lib c s).outcome ≡ denied rule_id reason
      → ((after_plugins lib c s).2 ≡ none) ⊎ ((after_plugins lib c s).1.status_code ≡ 0)
  unfolding decide
  decide_denied rule_id reason h = elim (Option-cases (after_plugins lib c s).2) [
    | inl e ↦ inl e
    | inr (m, e) ↦ inr (no_code m (rw (e, decide) at h))
  ]
    where
      no_code :
          (m : Text)
          → (if eqb (after_plugins lib c s).1.status_code 0
              then denied (txt "plugin-chain") m
              else answered m)
            ≡ denied rule_id reason
          → (after_plugins lib c s).1.status_code ≡ 0
      no_code m k = ground arith

  settle_not_answered :
      (world : World) (w : ResponseWriter) (o : Option (Text × Text)) (message : Text)
      → (settle c s world w o).outcome ≢ answered message
  unfolding settle as_outcome
  settle_not_answered world w none message h = ground arith
  settle_not_answered world w (some x) message h = cc

  decide_answered :
      (message : Text)
      → (decide lib c s).outcome ≡ answered message
      → ((after_plugins lib c s).2 ≡ some message) × ((after_plugins lib c s).1.status_code ≢ 0)
  unfolding decide
  decide_answered message h = elim (Option-cases (after_plugins lib c s).2) [
    | inr (m, e) ↦ by_code m e (rw (e, decide) at h)
    | inl e ↦ absurd (
        settle_not_answered (after_plugins lib c s).0 (after_plugins lib c s).1.writer _ message
          (rw (e, decide) at h))
  ]
    where
      by_code :
          (m : Text)
          → (after_plugins lib c s).2 ≡ some m
          → (if eqb (after_plugins lib c s).1.status_code 0
              then denied (txt "plugin-chain") m
              else answered m)
            ≡ answered message
          → ((after_plugins lib c s).2 ≡ some message) × ((after_plugins lib c s).1.status_code ≢ 0)
      by_code m e k = ground arith

  refuses :
      (o : Outcome)
      → (decide lib c s).outcome ≡ o
      → o ≢ passed
      → Refused (respond o (decide lib c s).writer)
  unfolding respond
  refuses passed e h = absurd (h refl)
  refuses (denied rule_id reason) e h =
      forbidden
        (status_deny rule_id reason (decide lib c s).writer
          ∙ ap (sent_or 403) (decide-writer lib c s))
        (decide_denied rule_id reason e)
  refuses (answered message) e h =
      let (failed, code) = decide_answered message e in
      by_plugin message failed code (decide-writer lib c s)

  IsSound-ran : IsSound s → IsSound (record s { world = (decide lib c s).world })
  IsSound-ran v = record { learning = v.learning; audit = v.audit }

  Outcome-cases : (o : Outcome) → (o ≡ passed) ⊎ (o ≢ passed)
  Outcome-cases passed = inl refl
  Outcome-cases (denied rule_id reason) = inr (λ e. cc)
  Outcome-cases (answered message) = inr (λ e. cc)

  answers_for :
      (o : Outcome)
      → (decide lib c s).outcome ≡ o
      → ((answer_status (respond o (decide lib c s).writer)
            ≡ sent_or 204 (after_plugins lib c s).1.writer)
          × Passes lib c s)
        ⊎ ((¬ Passes lib c s) × Refused (respond o (decide lib c s).writer))
  unfolding respond
  answers_for o e = elim (Outcome-cases o) [
    | inl ok ↦ inl (
      rw ok (status_allow (decide lib c s).writer ∙ ap (sent_or 204) (decide-writer lib c s)),
      (decide_passed_iff lib c s).0 (e ∙ ok),
    )
    | inr bad ↦ inr ((λ p. bad (sym e ∙ (decide_passed_iff lib c s).1 p)), refuses o e bad)
  ]

module _ {World : Type 0} (lib : NetLib) (c : Call) (t : Times) (s : Sidecar World) where
  -- With sound buffers a request is always answered, without a panic, and the sidecar stays sound. A
  -- request that meets every condition of `Passes` gets the status 204. Any other gets 403, or, if a
  -- plugin failed and set a status code in its context, exactly the response that the plugins left,
  -- with no other header or body. In all three cases a status that a plugin has already sent is the
  -- one that the client gets.
  pub handle_evaluate_served :
      IsSound s
      → (w' : ResponseWriter) × (s' : Sidecar World) × (handle_evaluate lib c t s ≡ some (w', s'))
        × IsSound s'
        × (((answer_status w' ≡ sent_or 204 (after_plugins lib c s).1.writer) × Passes lib c s)
            ⊎ ((¬ Passes lib c s) × Refused lib c s w'))
  unfolding finish
  handle_evaluate_served v =
      let d = decide lib c s in
      let (s', runs, sound) =
        record_outcome_total d.outcome (policy_request c) t (record s { world = d.world })
          (IsSound-ran lib c s v) in
      (
        respond d.outcome d.writer,
        s',
        handle_evaluate-eq-finish lib c t s ∙ rw (runs, finish) refl,
        sound,
        answers_for lib c s d.outcome refl,
      )

  -- A sidecar with no learning engine answers as well, but leaves no record of any request: the
  -- audit store and the broker stay as they were, also when the request is blocked.
  pub handle_evaluate_unrecorded :
      s.learning ≡ none
      → (w' : ResponseWriter) × (s' : Sidecar World) × (handle_evaluate lib c t s ≡ some (w', s'))
        × (s'.audit ≡ s.audit)
        × (s'.broker ≡ s.broker)
  unfolding finish
  handle_evaluate_unrecorded e =
      let d = decide lib c s in
      let ran : Sidecar World = record s { world = d.world } in
      (
        respond d.outcome d.writer,
        ran,
        handle_evaluate-eq-finish lib c t s
            ∙ rw (record_outcome_off d.outcome (policy_request c) t ran e, finish) refl,
        refl,
        refl,
      )
