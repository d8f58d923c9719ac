-- ===== src/Api/Lifted.antt =====
-- The bans and the commands over any requests to block and to unblock.
use waffynx.Api.{ApiRequest, AuditWriter}
use waffynx.Api.Bans.{
  IpLib, BannedIp, BlockRequest, BanState, ttl_or_hour, reason_or_manual, new_ban, Asked, ban, bad,
  ask, run_firewall, after_ban, after_unban, do_ban, handle_firewall_block, handle_firewall_unblock,
  user_of, ban_event, write_audit,
}
use waffynx.Audit.{Store}
use waffynx.Firewall.{Rule, Command, Log}
use waffynx.Firewall.Manager.{Manager, block_rule, block_ip, unblock_ip}
use waffynx.Common.{
  ℤ, pos, negsuc, zero, suc, lt_int, seconds, add_duration, txt, arith, if◌then◌else◌, Bool-cases,
  Text, txt, text_beq, is_empty, lookup, insert, delete, lookup-insert, lookup-delete, ℕ, ◌≡◌, refl,
  sym, ap, ◌∙◌, inl, inr, Bool, not, ◌||◌, Option, none, some, List, [], ◌∷◌, ◌++◌, append-nil,
  append_assoc,
}

-- A request to block or to unblock; what is read of it beside its claims is an argument.
pub data BanOp : Type 0 where
  blocks : Option BlockRequest → ApiRequest → BanOp
  unblocks : Text → ApiRequest → BanOp

module _ (lib : IpLib) (encode : BannedIp → Text) (m : Manager) (w : AuditWriter) where
  unfoldable pub run_op : ℕ → BanOp → BanState → BanState
  unfolding handle_firewall_block handle_firewall_unblock
  run_op now (blocks body r) s = (handle_firewall_block lib encode (some m) now body r w s).0
  run_op now (unblocks ip r) s = (handle_firewall_unblock lib (some m) now ip r w s).0

  unfoldable pub run_ops : List (ℕ × BanOp) → BanState → BanState
  unfolding run_op
  run_ops [] s = s
  run_ops ((now, op) ∷ ops) s = run_ops ops (run_op now op s)

abbrev pub accepts : IpLib → Text → Bool
accepts lib ip = not (is_empty ip || not (lib.parses ip))

-- The ban that a request to block asks for, if it is accepted: an address that is not empty and that
-- `net.ParseIP` reads, once the white space round it is gone.
abbrev pub accepted_ban : IpLib → ℕ → Option BlockRequest → Option BannedIp
accepted_ban lib now none = none
accepted_ban lib now (some req) =
    let ip = lib.trim req.ip in
    let ttl = if lt_int (pos 0) req.ttl then req.ttl else pos 3600 in
    if accepts lib ip
    then some (record {
      ip = ip;
      reason = if is_empty req.reason then txt "Manual ban from Control Room" else req.reason;
      created_at = now;
      expires_at = add_duration now (seconds ttl);
      ttl = ttl;
    })
    else none

abbrev ban_in : Asked → Option BannedIp
ban_in (bad message) = none
ban_in (ban b) = some b

ttl_or_hour_lem : (n : ℤ) → ttl_or_hour n ≡ (if lt_int (pos 0) n then n else pos 3600)
ttl_or_hour_lem (pos zero) = refl
ttl_or_hour_lem (pos (suc n)) = ground arith
ttl_or_hour_lem (negsuc n) = ground arith

reason_lem :
    (s : Text) → reason_or_manual s ≡ (if is_empty s then txt "Manual ban from Control Room" else s)
reason_lem [] = refl
reason_lem (c ∷ s) = refl

ask-accepted :
    (lib : IpLib) (now : ℕ) (body : Option BlockRequest)
    → ban_in (ask lib now body) ≡ accepted_ban lib now body
unfolding ask new_ban
ask-accepted lib now none = refl
ask-accepted lib now (some req) =
    rw (ttl_or_hour_lem req.ttl, reason_lem req.reason)
      (elim (Bool-cases (is_empty (lib.trim req.ip))) [
        | inl nothing ↦ rw nothing refl
        | inr something ↦ elim (Bool-cases (lib.parses (lib.trim req.ip))) [
          | inl good ↦ rw (something, good) refl
          | inr wrong ↦ rw (something, wrong) refl
        ]
      ])

-- The command of a request: none for a request that is refused.
unfoldable pub command_of : IpLib → (Rule → Command) → (Rule → Command) → ℕ → BanOp → List Command
command_of lib adds removes now (blocks body r) = elim (accepted_ban lib now body) [
  | none ↦ []
  | some b ↦ adds (block_rule b.ip) ∷ []
]
command_of lib adds removes now (unblocks ip r) =
    if accepts lib ip then removes (block_rule ip) ∷ [] else []

unfoldable pub commands_of_ops :
    IpLib → (Rule → Command) → (Rule → Command) → List (ℕ × BanOp) → List Command
unfolding command_of
commands_of_ops lib adds removes [] = []
commands_of_ops lib adds removes ((now, op) ∷ ops) =
    command_of lib adds removes now op ++ commands_of_ops lib adds removes ops

-- The ban of an address after a request.
unfoldable pub ban_after : IpLib → Text → ℕ → BanOp → Option BannedIp → Option BannedIp
ban_after lib ip now (blocks body r) old = elim (accepted_ban lib now body) [
  | none ↦ old
  | some b ↦ if text_beq b.ip ip then some b else old
]
ban_after lib ip now (unblocks j r) old =
    if accepts lib j then (if text_beq j ip then none else old) else old

unfoldable pub last_ban : IpLib → Text → List (ℕ × BanOp) → Option BannedIp → Option BannedIp
unfolding ban_after
last_ban lib ip [] old = old
last_ban lib ip ((now, op) ∷ ops) old = last_ban lib ip ops (ban_after lib ip now op old)

-- The bans and the commands of a state.
abbrev pub Same : BanState → BanState → Type 0
Same s t = (s.banned ≡ t.banned) × (s.log ≡ t.log)

after_ban-Same :
    (encode : BannedIp → Text) (now : ℕ) (b : BannedIp) (w : AuditWriter) (s : BanState)
    (o : Option (Option Store))
    → Same (after_ban encode now b w s o).0 s
unfolding after_ban
after_ban-Same encode now b w s none = (refl, refl)
after_ban-Same encode now b w s (some audit) = (refl, refl)

after_unban-Same :
    (ip : Text) (w : AuditWriter) (s : BanState) (o : Option (Option Store))
    → Same (after_unban ip w s o).0 s
unfolding after_unban
after_unban-Same ip w s none = (refl, refl)
after_unban-Same ip w s (some audit) = (refl, refl)

module _ (lib : IpLib) (encode : BannedIp → Text) (m : Manager) (w : AuditWriter)
    (adds removes : Rule → Command)
    (add_law : (r : Rule) (log : Log) → (m.backend.add_rule r log).0 ≡ log ++ adds r ∷ [])
    (remove_law : (r : Rule) (log : Log)
      → (m.backend.remove_rule r log).0 ≡ log ++ removes r ∷ []) where
  -- A step does to the bans and the commands what its request asks for.
  Steps : ℕ → BanOp → BanState → BanState → Type 0
  Steps now op s s' =
      (s'.log ≡ s.log ++ command_of lib adds removes now op)
      × ((ip : Text) → lookup ip s'.banned ≡ ban_after lib ip now op (lookup ip s.banned))

  block-Steps :
      (now : ℕ) (body : Option BlockRequest) (r : ApiRequest) (s : BanState) (a : Asked)
      → ask lib now body ≡ a
      → Steps now (blocks body r) s (do_ban encode (some m) now r w s a).0
  unfolding Steps do_ban command_of ban_after run_firewall block_ip
  block-Steps now body r s (bad message) e =
      let none_asked : accepted_ban lib now body ≡ none =
        sym (ask-accepted lib now body) ∙ ap ban_in e in
      rw (none_asked, command_of, ban_after) (sym (append-nil s.log), λ ip. refl)
  block-Steps now body r s (ban b) e =
      let event = ban_event now (user_of r.claims) (txt "firewall_ban") b.ip b.reason in
      let blocked : BanState = record s {
        banned = insert b.ip b s.banned;
        log = (m.backend.add_rule (block_rule b.ip) s.log).0;
      } in
      let same = after_ban-Same encode now b w blocked (write_audit now event s.audit) in
      let asked : accepted_ban lib now body ≡ some b =
        sym (ask-accepted lib now body) ∙ ap ban_in e in
      rw (asked, command_of, ban_after)
        (
          same.1 ∙ add_law (block_rule b.ip) s.log,
          λ ip. ap (lookup ip) same.0 ∙ lookup-insert b.ip ip b s.banned,
        )

  run_op-Steps :
      (now : ℕ) (op : BanOp) (s : BanState) → Steps now op s (run_op lib encode m w now op s)
  unfolding Steps run_op handle_firewall_block handle_firewall_unblock command_of ban_after
      run_firewall unblock_ip
  run_op-Steps now (blocks body r) s = block-Steps now body r s (ask lib now body) refl
  run_op-Steps now (unblocks j r) s = elim (Bool-cases (is_empty j || not (lib.parses j))) [
    | inl refused ↦
        rw (refused, run_op, handle_firewall_unblock, command_of, ban_after)
          (sym (append-nil s.log), λ ip. refl)
    | inr fine ↦
        let event =
          ban_event now (user_of r.claims) (txt "firewall_unban") j
            (txt "unbanned via control room") in
        let lifted : BanState = record s {
          banned = delete j s.banned;
          log = (m.backend.remove_rule (block_rule j) s.log).0;
        } in
        let same = after_unban-Same j w lifted (write_audit now event s.audit) in
        rw (fine, run_op, handle_firewall_unblock, command_of, ban_after)
          (
            same.1 ∙ remove_law (block_rule j) s.log,
            λ ip. ap (lookup ip) same.0 ∙ lookup-delete j ip s.banned,
          )
  ]

  -- Over any requests to block and to unblock, at any times, the ban that the server holds of an address
  -- is the one of the last request that it accepted for the address, if this was one to block, and
  -- none if it was one to unblock; and the firewall, for which each rule to add or to remove is one
  -- command, runs one command for each request that is accepted, in order. A request is accepted if
  -- its address is not empty and is one that `net.ParseIP` reads. The audit store and the broker
  -- change neither.
  pub run_ops_lem :
      (ops : List (ℕ × BanOp)) (s : BanState)
      → ((run_ops lib encode m w ops s).log ≡ s.log ++ commands_of_ops lib adds removes ops)
        × ((ip : Text)
            → lookup ip (run_ops lib encode m w ops s).banned
              ≡ last_ban lib ip ops (lookup ip s.banned))
  unfolding run_ops commands_of_ops last_ban Steps
  run_ops_lem [] s = (sym (append-nil s.log), λ ip. refl)
  run_ops_lem ((now, op) ∷ ops) s =
      let (log, bans) = run_op-Steps now op s in
      let (logs, all) = run_ops_lem ops (run_op lib encode m w now op s) in
      let here = command_of lib adds removes now op in
      (
        logs
            ∙ ap (λ l. l ++ commands_of_ops lib adds removes ops) log
            ∙ append_assoc s.log here (commands_of_ops lib adds removes ops),
        λ ip. all ip ∙ ap (last_ban lib ip ops) (bans ip),
      )
