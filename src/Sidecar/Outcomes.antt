-- ===== src/Sidecar/Outcomes.antt =====
-- What recording each outcome leaves behind.
use waffynx.Policy.{Request}
use waffynx.Sidecar.{Sidecar, Times, publish_block, bridge_block, record_learning}
use waffynx.Sidecar.Evaluate.{Outcome, passed, denied, answered, record_outcome}
use waffynx.Sidecar.Recorded.{
  IsSound, Learned, AuditedIf, record_learning_off, record_learning_allow, record_learning_block,
}
use waffynx.Sidecar.Reports.{
  record_of, audit_of, event_of, Blames, learning_record-record_of, audit_event-audit_of,
  blocked_event-event_of,
}
use waffynx.Learning
use waffynx.Common.{Option-cases, Text, txt, ◌≡◌, refl, ap, subst, ◌∙◌, inl, inr, none, some, []}

module _ {World : Type 0} where
  -- The records of a request that passed: one learning record; all else is as it was.
  pub record RecordsAllow (req : Request) (t : Times) (engine : Learning.Engine)
      (s s' : Sidecar World) : Type 0 where
    pub learned : Learned t.recorded (record_of req (txt "allow") [] [] t) engine s'.learning
    pub others : s' ≡ record s { learning = s'.learning }

  -- The records of a blocked request: one learning record, one audit event, one event for the
  -- subscribers and for the event API; all else is as it was.
  pub record RecordsBlock (o : Outcome) (req : Request) (t : Times) (engine : Learning.Engine)
      (s s' : Sidecar World) : Type 0 where
    pub rule_id : Text
    pub reason : Text
    pub blames : Blames o rule_id reason
    pub learned :
        Learned t.recorded (record_of req (txt "block") rule_id reason t) engine s'.learning
    pub audited : AuditedIf t.audited (audit_of req rule_id reason) s.audit s'.audit
    pub others : s' ≡ record s {
      learning = s'.learning;
      audit = s'.audit;
      broker = publish_block t.published (event_of req rule_id reason) s.broker;
      world = bridge_block (event_of req rule_id reason) s.publisher s.world;
    }

  unfoldable pub RecordsFor :
      Outcome → Request → Times → Learning.Engine → Sidecar World → Sidecar World → Type 0
  RecordsFor passed req t engine s s' = RecordsAllow req t engine s s'
  RecordsFor (denied rule_id reason) req t engine s s' =
      RecordsBlock (denied rule_id reason) req t engine s s'
  RecordsFor (answered message) req t engine s s' =
      RecordsBlock (answered message) req t engine s s'

  block_records :
      (o : Outcome) (req : Request) (rule_id reason : Text) (t : Times) (s : Sidecar World)
      (engine : Learning.Engine)
      → Blames o rule_id reason
      → s.learning ≡ some engine
      → IsSound s
      → (s' : Sidecar World) × (record_learning req (txt "block") rule_id reason t s ≡ some s')
        × IsSound s'
        × RecordsBlock o req t engine s s'
  block_records o req rule_id reason t s engine blamed e v =
      let (s', runs, sound, learned, audited, others) =
        record_learning_block req rule_id reason t s engine e v in
      (
        s',
        runs,
        sound,
        record {
          rule_id = rule_id;
          reason = reason;
          blames = blamed;
          learned =
              subst (λ r. Learned t.recorded r engine s'.learning)
                (learning_record-record_of req (txt "block") rule_id reason t) learned;
          audited =
              subst (λ e. AuditedIf t.audited e s.audit s'.audit)
                (audit_event-audit_of req rule_id reason) audited;
          others =
              others
              ∙ ap
                  (λ e. record s {
                    learning = s'.learning;
                    audit = s'.audit;
                    broker = publish_block t.published e s.broker;
                    world = bridge_block e s.publisher s.world;
                  })
                  (blocked_event-event_of req rule_id reason);
        },
      )

  pub record_outcome_records :
      (o : Outcome) (req : Request) (t : Times) (s : Sidecar World) (engine : Learning.Engine)
      → s.learning ≡ some engine
      → IsSound s
      → (s' : Sidecar World) × (record_outcome o req t s ≡ some s')
        × IsSound s'
        × RecordsFor o req t engine s s'
  unfolding record_outcome RecordsFor
  record_outcome_records passed req t s engine e v =
      let (s', runs, sound, learned, others) = record_learning_allow req t s engine e v in
      (
        s',
        runs,
        sound,
        record {
          learned =
              subst (λ r. Learned t.recorded r engine s'.learning)
                (learning_record-record_of req (txt "allow") [] [] t) learned;
          others = others;
        },
      )
  record_outcome_records (denied rule_id reason) req t s engine e v =
      block_records (denied rule_id reason) req rule_id reason t s engine (refl, refl) e v
  record_outcome_records (answered message) req t s engine e v =
      block_records (answered message) req (txt "plugin-chain") message t s engine (refl, refl) e v

  pub record_outcome_off :
      (o : Outcome) (req : Request) (t : Times) (s : Sidecar World)
      → s.learning ≡ none
      → record_outcome o req t s ≡ some s
  unfolding record_outcome
  record_outcome_off passed req t s e = record_learning_off req (txt "allow") [] [] t s e
  record_outcome_off (denied rule_id reason) req t s e =
      record_learning_off req (txt "block") rule_id reason t s e
  record_outcome_off (answered message) req t s e =
      record_learning_off req (txt "block") (txt "plugin-chain") message t s e

  pub record_outcome_total :
      (o : Outcome) (req : Request) (t : Times) (s : Sidecar World)
      → IsSound s
      → (s' : Sidecar World) × (record_outcome o req t s ≡ some s') × IsSound s'
  record_outcome_total o req t s v = elim (Option-cases s.learning) [
    | inl e ↦ (s, record_outcome_off o req t s e, v)
    | inr (engine, e) ↦
        let (s', runs, sound, records) = record_outcome_records o req t s engine e v in
        (s', runs, sound)
  ]
