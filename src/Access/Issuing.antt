-- ===== src/Access/Issuing.antt =====
-- IssueWSTicketHandler of internal/api/handlers/ws_ticket.go, with getTenantSchema of
-- internal/api/handlers/adoption.go.
use openwrt_controller.Base.{
  ℕ, ◌+◌, ap, sym, Bool, true, false, not, Option, none, some, Text, codes, is_empty, text_eq,
  text_eq_refl, has_prefix, trim_prefix, if◌then◌else◌, Result, ok, err, ◌>>=◌, >>=_ok,
  ok_injective, ◌≡◌, inl, inr, subst, refl, arith, Result-cases,
}
use openwrt_controller.Identity.{safe_schema_ident}
use openwrt_controller.Schema.{Error}
use openwrt_controller.AuthTickets.{Ticket, Store, TicketError, issue}
use openwrt_controller.Access.{
  Claims, Web, not_valid, other_claims, map_claims, Context, text_or_empty, schema_or_public,
}

-- The claims of the bearer token in the Authorization header.
unfoldable pub bearer_claims : Web → Text → Result ℕ Claims
unfolding has_prefix trim_prefix
bearer_claims w authorization =
    if not (has_prefix authorization (codes "Bearer "))
    then err 401
    else elim (w.jwt_parse (trim_prefix authorization (codes "Bearer "))) [
      | not_valid ↦ err 401
      | other_claims ↦ err 401
      | map_claims c ↦ ok c
    ]

-- The user that the ticket names.
abbrev pub ticket_user : Claims → Text
ticket_user c = if is_empty (text_or_empty c.sub) then codes "system" else text_or_empty c.sub

-- The device of the request's body; `none` where the body is no JSON of the request.
unfoldable pub body_device : Web → Option Text → Result ℕ Text
body_device w none = err 400
body_device w (some d) = if is_empty (w.trim_space d) then err 400 else ok (w.trim_space d)

-- getTenantSchema, which here must not be `public`.
tenant_only : Result Error Text → Result ℕ Text
tenant_only (err x) = err 403
tenant_only (ok schema) = if text_eq schema (codes "public") then err 403 else ok schema

unfoldable pub ticket_schema : Context → Result ℕ Text
unfolding tenant_only safe_schema_ident schema_or_public
ticket_schema x = tenant_only (safe_schema_ident (schema_or_public x))

-- The answer to the EXISTS query on the devices of the schema; `none` where it fails.
device_found : Option Bool → Result ℕ Unit
device_found none = err 500
device_found (some true) = ok tt
device_found (some false) = err 404

issued : Result TicketError (Text × Ticket) × Option Store → Result ℕ (Text × Ticket) × Option Store
issued (ok p, s) = (ok p, s)
issued (err x, s) = (err 500, s)

issue_for :
    ℕ → Option Text → Claims → Text × Text → Option Store → Result ℕ (Text × Ticket) × Option Store
unfolding issued trim_prefix issue
issue_for now id c (device, schema) none = (err 503, none)
issue_for now id c (device, schema) (some s) = issued (
    issue now id (ticket_user c) (text_or_empty c.role) device
      (trim_prefix schema (codes "tenant_")) (some s))

-- What the handler learns before it asks for the store: the claims, the device and the schema.
ticket_request :
    Web
    → (Text → Text → Option Bool)
    → Context
    → Text
    → Option Text
    → Result ℕ (Claims × (Text × Text))
unfolding bearer_claims body_device ticket_schema device_found
ticket_request w exists x authorization body = bearer_claims w authorization >>= λ c.
    body_device w body >>= λ device. ticket_schema x >>= λ schema.
    device_found (exists schema device) >>= λ u. ok (c, (device, schema))

issue_requested :
    ℕ
    → Option Text
    → Result ℕ (Claims × (Text × Text))
    → Option Store
    → Result ℕ (Text × Ticket) × Option Store
unfolding issue_for
issue_requested now id (err status) s = (err status, s)
issue_requested now id (ok (c, target)) s = issue_for now id c target s

-- The handler: the status that it answers with, or the ticket. `id` is what newTicketID gives, and
-- `exists schema device` answers the EXISTS query.
unfoldable pub issue_ws_ticket :
    Web
    → (Text → Text → Option Bool)
    → ℕ
    → Option Text
    → Context
    → Text
    → Option Text
    → Option Store
    → Result ℕ (Text × Ticket) × Option Store
unfolding ticket_request issue_requested
issue_ws_ticket w exists now id x authorization body s =
    issue_requested now id (ticket_request w exists x authorization body) s

body_device-ok :
    (w : Web) (body : Option Text) (d : Text) → body_device w body ≡ ok d → is_empty d ≡ false
unfolding body_device
body_device-ok w body d h = ground arith

ticket_schema-ok :
    (x : Context) (schema : Text)
    → ticket_schema x ≡ ok schema
    → (is_empty x.tenant_schema ≡ false) × (schema ≡ x.tenant_schema)
unfolding ticket_schema tenant_only safe_schema_ident schema_or_public
ticket_schema-ok x schema h = ground (arith, text_eq_refl (codes "public"))

-- What a request for a ticket has passed when it reaches the store.
unfoldable pub IsRequested : Web → Context → Claims × (Text × Text) → Type 0
IsRequested w x (c, (device, schema)) =
    (is_empty device ≡ false) × (is_empty x.tenant_schema ≡ false) × (schema ≡ x.tenant_schema)

ticket_request-IsRequested :
    (w : Web) (exists : Text → Text → Option Bool) (x : Context) (authorization : Text)
    (body : Option Text) (q : Claims × (Text × Text))
    → ticket_request w exists x authorization body ≡ ok q
    → IsRequested w x q
unfolding ticket_request IsRequested
ticket_request-IsRequested w exists x authorization body q h =
    let (c, _, h1) = >>=_ok (bearer_claims w authorization) _ q h in
    let (d, named, h2) = >>=_ok (body_device w body) _ q h1 in
    let (schema, found, h3) = >>=_ok (ticket_schema x) _ q h2 in
    let (_, _, h4) = >>=_ok (device_found (exists schema d)) _ q h3 in
    let same : (c, (d, schema)) ≡ q = cc in
    let (tenant, own) = ticket_schema-ok x schema found in
    subst (λ z. IsRequested w x z) same (body_device-ok w body d named, tenant, own)

-- A ticket of the store, as the call of Issue that made it.
unfoldable pub IsIssued :
    ℕ → Option Text → Claims → Text → Text → Option Store → Text × Ticket → Option Store → Type 0
IsIssued now id c device alias s (k, t) after =
    (id ≡ some k)
    × (t.device_id ≡ device)
    × (t.tenant_schema ≡ alias)
    × (t.role ≡ text_or_empty c.role)
    × (st : Store) × (s ≡ some st)
    × (t.expires_at ≡ now + st.ttl)
    × (after ≡ (issue now (some k) (ticket_user c) (text_or_empty c.role) device alias (some st)).1)

issue_for-IsIssued :
    (now : ℕ) (id : Option Text) (c : Claims) (device schema : Text) (s : Option Store) (k : Text)
    (t : Ticket)
    → (issue_for now id c (device, schema) s).0 ≡ ok (k, t)
    → IsIssued now id c device
        (trim_prefix schema (codes "tenant_"))
        s
        (k, t)
        (issue_for now id c (device, schema) s).1
unfolding issue_for issued issue IsIssued
issue_for-IsIssued now id c device schema none k t h = absurd (ground arith)
issue_for-IsIssued now none c device schema (some s) k t h = absurd (ground arith)
issue_for-IsIssued now (some i) c device schema (some s) k t h =
    let e = ok_injective h in
    (
      ap some (ap (λ p. p.0) e),
      sym (ap (λ p. p.1.device_id) e),
      sym (ap (λ p. p.1.tenant_schema) e),
      sym (ap (λ p. p.1.role) e),
      s,
      refl,
      sym (ap (λ p. p.1.expires_at) e),
      ap
          (λ p.
            (issue now (some p.0) (ticket_user c) (text_or_empty c.role) device
              (trim_prefix schema (codes "tenant_")) (some s)).1)
          e,
    )

-- A ticket that the handler hands out was issued by the store, for a device and for the tenant of
-- the context.
pub issue_ws_ticket-IsIssued :
    (w : Web) (exists : Text → Text → Option Bool) (now : ℕ) (id : Option Text) (x : Context)
    (authorization : Text) (body : Option Text) (s : Option Store) (k : Text) (t : Ticket)
    → (issue_ws_ticket w exists now id x authorization body s).0 ≡ ok (k, t)
    → (c : Claims) × (device : Text) × (is_empty device ≡ false)
      × (is_empty x.tenant_schema ≡ false)
      × IsIssued now id c device
          (trim_prefix x.tenant_schema (codes "tenant_"))
          s
          (k, t)
          (issue_ws_ticket w exists now id x authorization body s).1
unfolding issue_ws_ticket issue_requested IsRequested
issue_ws_ticket-IsIssued w exists now id x authorization body s k t h =
    elim (Result-cases (ticket_request w exists x authorization body)) [
      | inl (status, bad) ↦ absurd (let z = (rw bad at h) in ground arith)
      | inr ((c, (device, schema)), good) ↦
          let (named, tenant, own) =
            ticket_request-IsRequested w exists x authorization body _ good in
          let made : (issue_for now id c (device, schema) s).0 ≡ ok (k, t) = (rw good at h) in
          rw good (
            c,
            device,
            named,
            tenant,
            subst
                (λ z.
                  IsIssued now id c device (trim_prefix z (codes "tenant_")) s (k, t)
                    (issue_for now id c (device, schema) s).1)
                own (issue_for-IsIssued now id c device schema s k t made),
          )
    ]
