-- ===== src/Agent/Banned.antt =====
-- Which addresses the agent blocks, over all that it reads from the event broker.
use waffynx.Agent.{Tracker, new_tracker, meets, record_ip, cleanup}
use waffynx.Agent.Stream.{
  EventLib, AgentServer, payload_of, blocked_address, line_address, AgentStep, reads, ticks,
  agent_step, read_sse_stream, count_address,
}
use waffynx.Agent.Counted.{Op, records, cleans, run, run_op, times_of, Rising, record_ip-run}
use waffynx.Agent.Within.{within}
use waffynx.Events.{WafEvent, type_blocked}
use waffynx.Common.Substring.{StartsWith, has_prefix_iff}
use waffynx.Firewall.{Rule, Command, Log}
use waffynx.Firewall.Manager.{Manager, block_rule, block_ip}
use waffynx.Common.{
  true, pos, ◌^◌, ◌<◌, ◌≢◌, ◌↔◌, txt, text_beq, text_beq_iff, has_prefix, is_empty, drop,
  if◌then◌else◌, Bool-cases, Option-cases, length, keep, Text, ℤ, ℕ, ◌+◌, ◌*◌, ◌≤◌, ◌≡◌, refl, sym,
  ap, ◌∙◌, inl, inr, Option, none, some, List, [], ◌∷◌, ◌++◌, map, append-nil, append_assoc, arith,
}

-- The addresses of which an event is the one that reaches the threshold, in order: `past` are the
-- events and cleanups before.
unfoldable pub banned : EventLib → ℤ → ℕ → List (ℕ × Op) → List (ℕ × AgentStep) → List Text
unfolding line_address meets times_of
banned lib threshold window past [] = []
banned lib threshold window past ((now, ticks) ∷ steps) =
    banned lib threshold window (past ++ (now, cleans) ∷ []) steps
banned lib threshold window past ((now, reads line) ∷ steps) = elim (line_address lib line) [
  | none ↦ banned lib threshold window past steps
  | some ip ↦
      let count = length (keep (within now window) (times_of ip past)) + 1 in
      let rest = banned lib threshold window (past ++ (now, records ip) ∷ []) steps in
      if meets threshold count then ip ∷ rest else rest
]

-- A line that holds a blocked event of an address: behind `data: `, without the white space round
-- the line, it has the text of an event of the type `blocked` whose address is not empty.
pub record ReadsBlocked (lib : EventLib) (line ip : Text) : Type 0 where
  pub payload : Text
  pub event : WafEvent
  pub read : lib.trim line ≡ txt "data: " ++ payload
  pub decoded : lib.decode payload ≡ some event
  pub is_blocked : event.type ≡ type_blocked
  pub address : event.remote_ip ≡ ip
  pub nonempty : ip ≢ []

blocked_address_iff :
    (evt : WafEvent) (ip : Text)
    → (blocked_address (some evt) ≡ some ip)
      ↔ ((evt.type ≡ type_blocked) × (evt.remote_ip ≡ ip) × (ip ≢ []))
unfolding blocked_address
blocked_address_iff evt ip = elim (Bool-cases (text_beq evt.type type_blocked)) [
  | inr other ↦
      rw other ((λ e. cc e), λ h. cc (sym other ∙ (text_beq_iff evt.type type_blocked).1 h.0))
  | inl same ↦ rw same (by_address evt.remote_ip ((text_beq_iff evt.type type_blocked).0 same))
]
  where
    by_address :
        (address : Text)
        → evt.type ≡ type_blocked
        → ((if is_empty address then none else some address) ≡ some ip)
          ↔ ((evt.type ≡ type_blocked) × (address ≡ ip) × (ip ≢ []))
    by_address [] t = ((λ e. cc e), λ h. absurd (h.2 (sym h.1)))
    by_address (c ∷ s) t =
        ((λ e. let same : c ∷ s ≡ ip = cc e in (t, same, λ nil. cc (same ∙ nil))), λ h. ap some h.1)

pub line_address_iff :
    (lib : EventLib) (line ip : Text) → (line_address lib line ≡ some ip) ↔ ReadsBlocked lib line ip
unfolding line_address payload_of blocked_address
line_address_iff lib line ip = (reads_it, found)
  where
    prefix_iff :
        (has_prefix (lib.trim line) (txt "data: ") ≡ true)
        ↔ StartsWith (lib.trim line) (txt "data: ")
    prefix_iff = has_prefix_iff (lib.trim line) (txt "data: ")

    by_event :
        (payload : Text) (o : Option WafEvent)
        → lib.trim line ≡ txt "data: " ++ payload
        → lib.decode payload ≡ o
        → blocked_address o ≡ some ip
        → ReadsBlocked lib line ip
    by_event payload none e d h = cc h
    by_event payload (some evt) e d h =
        let (type, address, nonempty) = (blocked_address_iff evt ip).0 h in
        record {
          payload = payload;
          event = evt;
          read = e;
          decoded = d;
          is_blocked = type;
          address = address;
          nonempty = nonempty;
        }

    behind : (rest : Text) → lib.trim line ≡ txt "data: " ++ rest → drop 6 (lib.trim line) ≡ rest
    behind rest e = ap (drop 6) e

    reads_it : line_address lib line ≡ some ip → ReadsBlocked lib line ip
    reads_it h = elim (Bool-cases (has_prefix (lib.trim line) (txt "data: "))) [
      | inr other ↦ let e : none ≡ some ip = rw (other, line_address, payload_of) at h in cc e
      | inl begins ↦
          let (rest, e) = prefix_iff.0 begins in
          by_event rest (lib.decode rest) e refl (
            ap (λ p. blocked_address (lib.decode p)) (sym (behind rest e))
            ∙ (rw (begins, line_address, payload_of) at h))
    ]

    found : ReadsBlocked lib line ip → line_address lib line ≡ some ip
    found r =
        let begins : has_prefix (lib.trim line) (txt "data: ") ≡ true =
          prefix_iff.1 (r.payload, r.read) in
        rw (begins, line_address, payload_of)
          (ap (λ p. blocked_address (lib.decode p)) (behind r.payload r.read)
            ∙ ap blocked_address r.decoded
            ∙ (blocked_address_iff r.event ip).1 (r.is_blocked, r.address, r.nonempty))

-- The times do not fall.
abbrev pub Later : ℕ → List (ℕ × AgentStep) → Type 0
Later from [] = Unit
Later from ((now, step) ∷ steps) = (from ≤ now) × Later now steps

run-append : (ops more : List (ℕ × Op)) (t : Tracker) → run (ops ++ more) t ≡ run more (run ops t)
unfolding run
run-append [] more t = refl
run-append ((now, op) ∷ ops) more t = run-append ops more (run_op now op t)

Rising-append :
    (from last now : ℕ) (op : Op) (past : List (ℕ × Op))
    → Rising from past last
    → last ≤ now
    → Rising from (past ++ (now, op) ∷ []) now
Rising-append from last now op [] h later = (omega arith, omega arith)
Rising-append from last now op ((t, o) ∷ past) h later =
    (h.0, Rising-append t last now op past h.1 later)

Rising-weaken :
    (from last now : ℕ) (past : List (ℕ × Op))
    → Rising from past last
    → last ≤ now
    → Rising from past now
Rising-weaken from last now [] h later = omega arith
Rising-weaken from last now ((t, o) ∷ past) h later = (h.0, Rising-weaken t last now past h.1 later)

module _ (lib : EventLib) (k : Rule → Command) (m : Manager)
    (adds : (r : Rule) (log : Log) → (m.backend.add_rule r log).0 ≡ log ++ k r ∷ []) (threshold : ℤ)
    (window_sec : ℕ) (bound : window_sec * 1000000000 < 2 ^ 63) where
  abbrev commands : List Text → List Command
  commands ips = map (λ ip. k (block_rule ip)) ips

  abbrev start_tracker : Tracker
  start_tracker = new_tracker threshold (pos window_sec)

  abbrev window : ℕ
  window = window_sec * 1000000000

  pub read_sse_stream_lem :
      (steps : List (ℕ × AgentStep)) (past : List (ℕ × Op)) (last : ℕ) (s : AgentServer) (log : Log)
      → s.mgr ≡ m
      → s.tracker ≡ run past (new_tracker threshold (pos window_sec))
      → Rising 0 past last
      → Later last steps
      → (read_sse_stream lib steps s log).0
        ≡ log ++ commands (banned lib threshold window past steps)
  unfolding read_sse_stream banned agent_step count_address run run_op block_ip
  read_sse_stream_lem [] past last s log hm ht rising later = sym (append-nil log)
  read_sse_stream_lem ((now, ticks) ∷ steps) past last s log hm ht rising later =
      read_sse_stream_lem steps (past ++ (now, cleans) ∷ []) now
        (record s { tracker = cleanup now s.tracker }) log hm
        (ap (cleanup now) ht ∙ sym (run-append past ((now, cleans) ∷ []) start_tracker))
        (Rising-append 0 last now cleans past rising later.0) later.1
  read_sse_stream_lem ((now, reads line) ∷ steps) past last s log hm ht rising later =
      elim (Option-cases (line_address lib line)) [
        | inl e ↦
            rw (e, banned, read_sse_stream, agent_step)
              (read_sse_stream_lem steps past now s log hm ht
                (Rising-weaken 0 last now past rising later.0) later.1)
        | inr (ip, e) ↦
            let ordered = Rising-weaken 0 last now past rising later.0 in
            let answer =
              ap (λ t. (record_ip now ip t).1) ht
              ∙ record_ip-run threshold window_sec past now ip bound ordered in
            let next = (record_ip now ip s.tracker).0 in
            let s' : AgentServer = record s { tracker = next } in
            let ops = past ++ (now, records ip) ∷ [] in
            let ht' : next ≡ run ops start_tracker =
              ap (λ t. (record_ip now ip t).0) ht
              ∙ sym (run-append past ((now, records ip) ∷ []) start_tracker) in
            let ahead : (log' : Log)
                → (read_sse_stream lib steps s' log').0
                  ≡ log' ++ commands (banned lib threshold window ops steps) =
              λ log'.
                read_sse_stream_lem steps ops now s' log' hm ht'
                  (Rising-append 0 last now (records ip) past rising later.0) later.1 in
            let issued : (block_ip s.mgr ip log).0 ≡ log ++ k (block_rule ip) ∷ [] =
              ap (λ x. (block_ip x ip log).0) hm ∙ adds (block_rule ip) log in
            let count = length (keep (within now window) (times_of ip past)) + 1 in
            elim (Bool-cases (meets threshold count)) [
              | inl hit ↦
                  rw
                    (
                      e,
                      answer ∙ hit,
                      hit,
                      issued,
                      banned,
                      read_sse_stream,
                      agent_step,
                      count_address,
                    )
                    (ahead (log ++ k (block_rule ip) ∷ [])
                      ∙ append_assoc log (k (block_rule ip) ∷ [])
                          (commands (banned lib threshold window ops steps)))
              | inr below ↦
                  rw (e, answer ∙ below, below, banned, read_sse_stream, agent_step, count_address)
                    (ahead log)
            ]
      ]
