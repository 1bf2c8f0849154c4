-- ===== src/Access/Handshake.antt =====
-- The SSH WebSocket handshake: IssueWSTicketHandler (internal/api/handlers/ws_ticket.go), the ticket
-- store (internal/authtickets/authtickets.go) and WithAuth (internal/api/middleware/auth.go).
use openwrt_controller.Base.{
  ℕ, ◌+◌, ◌≤◌, ◌<◌, Bool, true, false, not, ◌||◌, List, ◌++◌, Option, none, some, Text, codes,
  is_empty, trim_prefix, trim_prefix-append, ok, >>=_ok, count_rows, ◌≡◌, refl, arith, Bool-cases,
  Result-cases, inl, inr, ap, ◌∙◌, subst,
}
use openwrt_controller.Identity.{safe_tenant_schema}
use openwrt_controller.AuthTickets.{Ticket, Store, consume_for_device, issue}
use openwrt_controller.AuthTickets.Redeem.{issue-consume_for_device, redeemed}
use openwrt_controller.AuthTickets.SingleUse.{Call, run, never_issues, redeemed_at_most_once}
use openwrt_controller.Access.{
  Web, Faults, Tenant, Request, Context, Login, text_or_empty, with_auth, authenticate,
  redeem_ticket, ticket_login, login_of, header_alias, header_of, claimed_alias, default_alias,
  enter_schema, enter_tenant, enter_login, is_active_alias, ticket_id, is_ssh_web_socket,
}
use openwrt_controller.Access.Issuing.{
  issue_ws_ticket, ticket_user, IsIssued, issue_ws_ticket-IsIssued,
}
use openwrt_controller.Access.Isolation.{with_auth-tenant, tenant_named, safe_tenant_schema-ok}

-- The context of a request that presents a ticket without a tenant header.
enter_ticket :
    (w : Web) (f : Faults) (tenants : List Tenant) (r : Request) (l : Login) (alias full : Text)
    → l.ticket_alias ≡ some alias
    → is_empty (w.trim_space r.tenant_header) ≡ true
    → safe_tenant_schema alias ≡ ok full
    → 0 < count_rows (is_active_alias alias) tenants
    → (f.begin_fails || (f.count_fails || f.search_path_fails)) ≡ false
    → enter_login w f tenants r l
      ≡ ok (record {
        claims = l.claims;
        tenant_schema = full;
        search_path = full ++ codes ", public";
      })
unfolding enter_login header_alias header_of claimed_alias default_alias enter_schema enter_tenant
enter_ticket w f tenants r l alias full named bare safe active calm =
    ground (arith, tenant_named alias full safe)

-- The login by a ticket that the store redeems.
authenticate-redeemed :
    (w : Web) (later marked : ℕ) (r : Request) (k device : Text) (s : Option Store) (u : Ticket)
    → is_ssh_web_socket w r ≡ true
    → ticket_id w r ≡ k
    → is_empty k ≡ false
    → r.device_id ≡ device
    → (consume_for_device later marked k device s).0 ≡ ok u
    → (authenticate w later marked r s).0 ≡ ticket_login (ok u)
unfolding authenticate redeem_ticket consume_for_device
authenticate-redeemed w later marked r k device none u ssh same full own h = absurd (ground arith)
authenticate-redeemed w later marked r k device (some s) u ssh same full own h =
    rw ssh (rw same (rw full (rw own (ap ticket_login h))))

with_auth-redeemed :
    (w : Web) (g : Faults) (tenants : List Tenant) (later marked : ℕ) (r : Request)
    (s : Option Store) (u : Ticket) (full : Text)
    → (authenticate w later marked r s).0 ≡ ticket_login (ok u)
    → is_empty (w.trim_space r.tenant_header) ≡ true
    → safe_tenant_schema u.tenant_schema ≡ ok full
    → 0 < count_rows (is_active_alias u.tenant_schema) tenants
    → (g.begin_fails || (g.count_fails || g.search_path_fails)) ≡ false
    → (y : Context) × ((with_auth w g tenants later marked r s).0 ≡ ok y)
      × (y.tenant_schema ≡ full)
      × (y.claims.role ≡ some u.role)
unfolding with_auth ticket_login
with_auth-redeemed w g tenants later marked r s u full h bare safe active calm = rw h (
  _,
  enter_ticket w g tenants r (login_of u) u.tenant_schema full refl bare safe active calm,
  refl,
  refl,
)

redeemed_ticket :
    (st : Store) (k user role device alias : Text) (now later marked : ℕ)
    → is_empty device ≡ false
    → is_empty alias ≡ false
    → later ≤ now + st.ttl
    → (consume_for_device later marked k device
        (issue now (some k) user role device alias (some st)).1).0
      ≡ ok (redeemed now st.ttl marked user role device alias)
redeemed_ticket st k user role device alias now later marked named tenant live =
    ground
      (arith, issue-consume_for_device st k user role device alias now later marked named tenant)

-- A ticket that IssueWSTicketHandler hands out to a request that WithAuth let through brings the
-- device's WebSocket into the same tenant schema with the role of the ticket: the handshake of the
-- device of the ticket, with no tenant header, at most at the expiry of the ticket, is let through
-- where the queries succeed and the tenants are those of the first request.
pub handshake_keeps_the_tenant :
    (w : Web) (f g : Faults) (tenants : List Tenant) (before mark : ℕ) (first : Request)
    (s0 : Option Store) (x : Context) (exists : Text → Text → Option Bool) (now : ℕ)
    (id : Option Text) (body : Option Text) (s : Option Store) (k : Text) (t : Ticket)
    (later marked : ℕ) (r : Request)
    → (with_auth w f tenants before mark first s0).0 ≡ ok x
    → (issue_ws_ticket w exists now id x first.authorization body s).0 ≡ ok (k, t)
    → is_ssh_web_socket w r ≡ true
    → ticket_id w r ≡ k
    → is_empty k ≡ false
    → r.device_id ≡ t.device_id
    → is_empty (w.trim_space r.tenant_header) ≡ true
    → later ≤ t.expires_at
    → (g.begin_fails || (g.count_fails || g.search_path_fails)) ≡ false
    → (y : Context) × ((with_auth w g tenants later marked r
          (issue_ws_ticket w exists now id x first.authorization body s).1).0
        ≡ ok y)
      × (y.tenant_schema ≡ x.tenant_schema)
      × (y.claims.role ≡ some t.role)
unfolding IsIssued redeemed
handshake_keeps_the_tenant w f g tenants before mark first s0 x exists now id body s k t later
      marked r h i ssh same full own bare live calm =
    let (c, device, dn, tn, made) =
      issue_ws_ticket-IsIssued w exists now id x first.authorization body s k t i in
    let (_, td, _, tr, st, _, te, after) = made in
    let (alias, safe, active) = with_auth-tenant w f tenants before mark first s0 x h tn in
    let schema : x.tenant_schema ≡ codes "tenant_" ++ alias = safe_tenant_schema-ok alias _ safe in
    let trimmed : trim_prefix x.tenant_schema (codes "tenant_") ≡ alias =
      rw schema (trim_prefix-append (codes "tenant_") alias) in
    let taken =
      redeemed_ticket st k (ticket_user c) (text_or_empty c.role) device alias now later marked dn
        (tenant_named alias _ safe) (subst (λ z. later ≤ z) te live) in
    let login =
      authenticate-redeemed w later marked r k device _ _ ssh same full (own ∙ td) taken in
    rw after (
      rw trimmed (
        rw tr (
          with_auth-redeemed w g tenants later marked r _ _ x.tenant_schema login bare safe active
            calm)))

-- What a request on the SSH endpoint that is let through has taken from the store.
IsRedeemed : Web → ℕ → ℕ → Request → Option Store → Option Store → Type 0
IsRedeemed w now marked r s after =
    (is_empty (ticket_id w r) ≡ false)
    × (t : Ticket) × ((consume_for_device now marked (ticket_id w r) r.device_id s).0 ≡ ok t)
    × (after ≡ (consume_for_device now marked (ticket_id w r) r.device_id s).1)

redeem_ticket-redeems :
    (now marked : ℕ) (id device : Text) (s : Option Store) (l : Login)
    → (redeem_ticket now marked id device s).0 ≡ ok l
    → (t : Ticket) × ((consume_for_device now marked id device s).0 ≡ ok t)
      × ((redeem_ticket now marked id device s).1 ≡ (consume_for_device now marked id device s).1)
unfolding redeem_ticket ticket_login
redeem_ticket-redeems now marked id device none l h = absurd (ground arith)
redeem_ticket-redeems now marked id device (some s) l h =
    elim (Result-cases (consume_for_device now marked id device (some s)).0) [
      | inl (x, bad) ↦ absurd (let z = (rw bad at h) in ground arith)
      | inr (t, good) ↦ (t, good, refl)
    ]

-- Every request that presents a ticket and is let through has redeemed it.
authenticate-redeems :
    (w : Web) (now marked : ℕ) (r : Request) (s : Option Store) (l : Login)
    → (not (is_empty (ticket_id w r)) || is_ssh_web_socket w r) ≡ true
    → (authenticate w now marked r s).0 ≡ ok l
    → IsRedeemed w now marked r s (authenticate w now marked r s).1
unfolding authenticate IsRedeemed
authenticate-redeems w now marked r s l presents h =
    elim (Bool-cases (not (is_ssh_web_socket w r) || is_empty (ticket_id w r))) [
      | inl out ↦ absurd (let z = (rw out at (rw presents at h)) in ground arith)
      | inr kept ↦
          let z = (rw kept at (rw presents at h)) in
          let (t, taken, after) = redeem_ticket-redeems now marked _ r.device_id s l z in
          rw presents (rw kept (ground arith, t, taken, after))
    ]

-- A ticket lets one request through: after a request on the SSH endpoint that WithAuth let through,
-- and any calls of the store that issue no ticket under the same id, no request that presents the
-- same ticket is let through, on whatever endpoint, for whatever device, and with whatever headers
-- and tenants.
pub handshake_at_most_once :
    (w : Web) (f g : Faults) (tenants other : List Tenant) (now marked later mark : ℕ)
    (r again : Request) (s : Option Store) (x y : Context) (cs : List Call)
    → is_ssh_web_socket w r ≡ true
    → (with_auth w f tenants now marked r s).0 ≡ ok x
    → never_issues (ticket_id w r) cs ≡ true
    → ticket_id w again ≡ ticket_id w r
    → ¬ (
        (with_auth w g other later mark again (run cs (with_auth w f tenants now marked r s).1)).0
        ≡ ok y)
unfolding with_auth IsRedeemed
handshake_at_most_once w f g tenants other now marked later mark r again s x y cs ssh h fresh same
      e =
    let (l, good, _) = >>=_ok (authenticate w now marked r s).0 _ x h in
    let (full, t, taken, after) = authenticate-redeems w now marked r s l (ground arith) good in
    let (l2, good2, _) = >>=_ok (authenticate w later mark again _).0 _ y e in
    let (_, u, reused, _) =
      authenticate-redeems w later mark again _ l2 (rw same (rw full refl)) good2 in
    let spent =
      (redeemed_at_most_once s (ticket_id w r) r.device_id now marked t taken cs fresh later mark
        again.device_id u).0 in
    spent (
      subst
        (λ z.
          (consume_for_device later mark z again.device_id
            (run cs (consume_for_device now marked (ticket_id w r) r.device_id s).1)).0
          ≡ ok u)
        same
        (subst
          (λ z.
            (consume_for_device later mark (ticket_id w again) again.device_id (run cs z)).0 ≡ ok u)
          after reused))
