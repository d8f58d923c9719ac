-- ===== src/Api/Audited.antt =====
-- internal/api/middleware.go: `auditMiddleware`.
use waffynx.Api.{Claims, ApiRequest, AuditWriter, ApiHandler}
use waffynx.Audit.{Event, Store, record_event}
use waffynx.Http.{ResponseWriter}
use waffynx.Common.Decimal.{itoa}
use waffynx.Common.{leb, if◌then◌else◌, Text, txt, pos, ℕ, Option, none, some, [], ◌∷◌, ◌++◌}

abbrev pub actor_of : Option Claims → Text
actor_of none = txt "anonymous"
actor_of (some claims) = claims.username

-- The event of a request that was answered; the store sets its time, and the other fields are empty.
unfoldable pub audit_event_of : ApiRequest → ℕ → Event
unfolding itoa
audit_event_of r status = record {
  timestamp = 0;
  actor = actor_of r.claims;
  actor_ip = r.remote_addr;
  action = r.method ++ (b' ' ∷ r.path);
  resource = [];
  result = if leb 400 status then txt "blocked" else txt "allowed";
  details = txt "HTTP " ++ itoa (pos status);
  request_id = [];
}

abbrev pub new_audit_writer : ResponseWriter → AuditWriter
new_audit_writer w = record { inner = w; status_code = 200 }

-- `none` is a panic of the store.
unfoldable pub recorded :
    {World : Type 0}
    → Option Store
    → World × AuditWriter
    → Option ((Option Store × World) × ResponseWriter)
recorded none (x, rw) = none
recorded (some store) (x, rw) = some ((some store, x), rw.inner)

unfoldable pub audit_middleware :
    {World : Type 0}
    → ApiHandler World
    → ℕ
    → ApiRequest
    → ResponseWriter
    → Option Store × World
    → Option ((Option Store × World) × ResponseWriter)
unfolding audit_event_of record_event recorded
audit_middleware next now r w (none, x) =
    let (x', rw) = next r (new_audit_writer w) x in some ((none, x'), rw.inner)
audit_middleware next now r w (some store, x) =
    let answered = next r (new_audit_writer w) x in
    recorded (record_event now (audit_event_of r answered.1.status_code) store) answered
