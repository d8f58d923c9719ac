-- ===== src/Sidecar/Recorded.antt =====
-- What `recordLearning` leaves behind.
use waffynx.Policy.{Request}
use waffynx.Ring.{chronological, IsValid}
use waffynx.Ring.Window.{last_n}
use waffynx.Learning.Window.{add_record-window, stamped_record}
use waffynx.Audit.Window.{record_event-window, stamped_event}
use waffynx.Sidecar.{
  Sidecar, Times, learning_record, audit_event, blocked_event, audit_block, publish_block,
  bridge_block, record_learning,
}
use waffynx.Learning
use waffynx.Audit
use waffynx.Common.{
  if◌then◌else◌, Text, txt, ℕ, ◌≡◌, refl, subst, Option, none, some, [], ◌∷◌, ◌++◌, arith,
}

-- A property of a component, if the sidecar has it.
abbrev pub OnSome : {A : Type 0} → (A → Type 0) → Option A → Type 0
OnSome P none = Unit {0}
OnSome P (some a) = P a

-- The buffers of the sidecar are valid, as the constructors make them.
pub record IsSound {World : Type 0} (s : Sidecar World) : Type 0 where
  pub learning : OnSome (λ (e : Learning.Engine). IsValid e.ring) s.learning
  pub audit : OnSome (λ (a : Audit.Store). IsValid a.ring) s.audit

-- The engine's records after one more; an engine that is off keeps what it has.
pub record Learned (now : ℕ) (r : Learning.Record) (before : Learning.Engine)
    (after : Option Learning.Engine) : Type 0 where
  pub engine : Learning.Engine
  pub is_after : after ≡ some engine
  pub valid : IsValid engine.ring
  pub window : chronological engine.ring ≡ (
      if before.enabled
      then last_n before.ring.max_size (chronological before.ring ++ stamped_record now r ∷ [])
      else chronological before.ring)

-- The store's events after one more.
pub record Audited (now : ℕ) (e : Audit.Event) (before : Audit.Store) (after : Option Audit.Store)
    : Type 0 where
  pub store : Audit.Store
  pub is_after : after ≡ some store
  pub valid : IsValid store.ring
  pub window :
      chronological store.ring
      ≡ last_n before.ring.max_size (chronological before.ring ++ stamped_event (now, e) ∷ [])

abbrev pub AuditedIf : ℕ → Audit.Event → Option Audit.Store → Option Audit.Store → Type 0
AuditedIf now e none after = after ≡ none
AuditedIf now e (some store) after = Audited now e store after

audit_block-Audited :
    (now : ℕ) (e : Audit.Event) (o : Option Audit.Store)
    → OnSome (λ (a : Audit.Store). IsValid a.ring) o
    → (after : Option Audit.Store) × (audit_block now e o ≡ some after)
      × OnSome (λ (a : Audit.Store). IsValid a.ring) after
      × AuditedIf now e o after
unfolding audit_block
audit_block-Audited now e none v = (none, refl, tt, refl)
audit_block-Audited now e (some store) v =
    let (store', runs, valid, size, window, file) = record_event-window now e store v in
    (
      some store',
      rw (runs, audit_block),
      valid,
      record { store = store'; is_after = refl; valid = valid; window = window },
    )

module _ {World : Type 0} where
  -- With no learning engine nothing is recorded, audited or published.
  pub record_learning_off :
      (req : Request) (verdict rule_id reason : Text) (t : Times) (s : Sidecar World)
      → s.learning ≡ none
      → record_learning req verdict rule_id reason t s ≡ some s
  unfolding record_learning
  record_learning_off req verdict rule_id reason t s e = ground arith

  pub record_learning_allow :
      (req : Request) (t : Times) (s : Sidecar World) (engine : Learning.Engine)
      → s.learning ≡ some engine
      → IsSound s
      → (s' : Sidecar World) × (record_learning req (txt "allow") [] [] t s ≡ some s')
        × IsSound s'
        × Learned t.recorded (learning_record req (txt "allow") [] [] t) engine s'.learning
        × (s' ≡ record s { learning = s'.learning })
  unfolding record_learning
  record_learning_allow req t s engine e v =
      let r = learning_record req (txt "allow") [] [] t in
      let valid = subst (OnSome (λ (x : Learning.Engine). IsValid x.ring)) e v.learning in
      let (engine', runs, valid', on, size, window) = add_record-window t.recorded r engine valid in
      (
        record s { learning = some engine' },
        rw (e, record_learning) (rw runs refl),
        record { learning = valid'; audit = v.audit },
        record { engine = engine'; is_after = refl; valid = valid'; window = window },
        refl,
      )

  pub record_learning_block :
      (req : Request) (rule_id reason : Text) (t : Times) (s : Sidecar World)
      (engine : Learning.Engine)
      → s.learning ≡ some engine
      → IsSound s
      → (s' : Sidecar World) × (record_learning req (txt "block") rule_id reason t s ≡ some s')
        × IsSound s'
        × Learned t.recorded (learning_record req (txt "block") rule_id reason t) engine s'.learning
        × AuditedIf t.audited (audit_event req rule_id reason) s.audit s'.audit
        × (s' ≡ record s {
          learning = s'.learning;
          audit = s'.audit;
          broker = publish_block t.published (blocked_event req rule_id reason) s.broker;
          world = bridge_block (blocked_event req rule_id reason) s.publisher s.world;
        })
  unfolding record_learning
  record_learning_block req rule_id reason t s engine e v =
      let r = learning_record req (txt "block") rule_id reason t in
      let event = blocked_event req rule_id reason in
      let valid = subst (OnSome (λ (x : Learning.Engine). IsValid x.ring)) e v.learning in
      let (engine', runs, valid', on, size, window) = add_record-window t.recorded r engine valid in
      let (store, audits, valid_store, audited) =
        audit_block-Audited t.audited (audit_event req rule_id reason) s.audit v.audit in
      (
        record s {
          learning = some engine';
          audit = store;
          broker = publish_block t.published event s.broker;
          world = bridge_block event s.publisher s.world;
        },
        ground arith,
        record { learning = valid'; audit = valid_store },
        record { engine = engine'; is_after = refl; valid = valid'; window = window },
        audited,
        refl,
      )
