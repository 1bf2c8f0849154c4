-- ===== src/Access.antt =====
-- WithAuth and the role gates of internal/api/middleware/auth.go. A request is what these functions
-- read of it; the outcome is the status that they answer with, or the context in which the next
-- handler runs. The ticket store is that of AuthTickets.
pub mod Isolation
pub mod Issuing
pub mod Oldest
pub mod SignIn
pub mod Handshake
use openwrt_controller.Base.{
  ℕ, Bool, true, false, not, ◌&&◌, ◌||◌, List, [], ◌∷◌, ◌++◌, Option, none, some, Text, codes,
  is_empty, text_eq, leb, has_prefix, has_suffix, trim_prefix, if◌then◌else◌, Result, ok, err,
  ◌>>=◌, count_rows, ◌==◌,
}
use openwrt_controller.Identity.{safe_tenant_schema}
use openwrt_controller.Schema.{Error}
use openwrt_controller.AuthTickets.{Ticket, Store, TicketError, wrong_scope, consume_for_device}

-- `jwt.MapClaims`: a claim that is absent or not a string is `none`.
pub record Claims : Type 0 where
  pub sub : Option Text
  pub role : Option Text
  pub schema_alias : Option Text

-- What jwt.Parse makes of a token: an error or an invalid token, claims that are no MapClaims, or
-- MapClaims.
pub data Parsed : Type 0 where
  not_valid : Parsed
  other_claims : Parsed
  map_claims : Claims → Parsed

-- The functions of the Go library and of the JWT package, and the environment.
pub record Web : Type 0 where
  -- strings.EqualFold, strings.TrimSpace and strings.ToUpper
  pub equal_fold : Text → Text → Bool
  pub trim_space : Text → Text
  pub to_upper : Text → Text
  -- jwt.Parse with the callback that hands out the secret to HMAC methods only
  pub jwt_parse : Text → Parsed
  -- os.Getenv("WS_ALLOW_QUERY_TOKEN") == "true"
  pub ws_allow_query_token : Bool

-- Which of the queries fail.
pub record Faults : Type 0 where
  pub default_fails : Bool
  pub begin_fails : Bool
  pub count_fails : Bool
  pub search_path_fails : Bool

-- A row of `tenants`.
pub record Tenant : Type 0 where
  pub id : Text
  pub schema_alias : Text
  pub is_active : Bool
  pub created_at : ℕ

pub record Request : Type 0 where
  -- the query parameters `ticket` and `token`
  pub ticket : Text
  pub token : Text
  -- the headers Upgrade, Authorization and X-Tenant-Schema
  pub upgrade : Text
  pub authorization : Text
  pub tenant_header : Text
  pub path : Text
  -- `r.PathValue("device_id")`
  pub device_id : Text

-- What the next handler finds: the claims, the tenant schema, empty if none is set, and the search
-- path of the transaction.
pub record Context : Type 0 where
  pub claims : Claims
  pub tenant_schema : Text
  pub search_path : Text

-- The claims, and the alias of the ticket if a ticket gave them.
pub record Login : Type 0 where
  pub claims : Claims
  pub ticket_alias : Option Text

-- `v, _ := claims[key].(string)`.
abbrev pub text_or_empty : Option Text → Text
text_or_empty none = []
text_or_empty (some s) = s

unfoldable pub tenant_header_allowed : Web → Claims → Bool
tenant_header_allowed w c = w.equal_fold (text_or_empty c.role) (codes "SUPERADMIN")

unfoldable pub is_ssh_web_socket : Web → Request → Bool
is_ssh_web_socket w r =
    w.equal_fold r.upgrade (codes "websocket") && has_suffix r.path (codes "/ssh")

ticket_status : TicketError → ℕ
ticket_status wrong_scope = 403
ticket_status _ = 401

abbrev pub login_of : Ticket → Login
login_of t = record {
  claims = record {
    sub = some t.username;
    role = some t.role;
    schema_alias = some t.tenant_schema;
  };
  ticket_alias = some t.tenant_schema;
}

unfoldable pub ticket_login : Result TicketError Ticket → Result ℕ Login
unfolding ticket_status
ticket_login (err x) = err (ticket_status x)
ticket_login (ok t) = ok (login_of t)

unfoldable pub redeem_ticket : ℕ → ℕ → Text → Text → Option Store → Result ℕ Login × Option Store
unfolding ticket_login
redeem_ticket now marked id device_id none = (err 503, none)
redeem_ticket now marked id device_id (some s) =
    let r = consume_for_device now marked id device_id (some s) in (ticket_login r.0, r.1)

unfoldable pub bearer_token : Web → Request → Text
unfolding has_prefix trim_prefix
bearer_token w r =
    if has_prefix r.authorization (codes "Bearer ")
    then trim_prefix r.authorization (codes "Bearer ")
    else if w.ws_allow_query_token
    then r.token
    else []

parsed_login : Parsed → Result ℕ Login
parsed_login not_valid = err 401
parsed_login other_claims = err 401
parsed_login (map_claims c) = ok (record { claims = c; ticket_alias = none })

unfoldable pub bearer_login : Web → Request → Result ℕ Login
unfolding parsed_login bearer_token
bearer_login w r =
    if is_empty (bearer_token w r) then err 401 else parsed_login (w.jwt_parse (bearer_token w r))

-- `ticketID`.
abbrev pub ticket_id : Web → Request → Text
ticket_id w r = w.trim_space r.ticket

unfoldable pub authenticate : Web → ℕ → ℕ → Request → Option Store → Result ℕ Login × Option Store
unfolding redeem_ticket bearer_login is_ssh_web_socket
authenticate w now marked r s =
    if not (is_empty (ticket_id w r)) || is_ssh_web_socket w r
    then (if not (is_ssh_web_socket w r) || is_empty (ticket_id w r)
        then (err 401, s)
        else redeem_ticket now marked (ticket_id w r) r.device_id s)
    else (bearer_login w r, s)

-- A tenant header next to a ticket.
ticket_header : Web → Text → Result Error Text → Result ℕ Text
ticket_header w alias (err x) = err 403
ticket_header w alias (ok candidate) =
    if w.equal_fold candidate (codes "tenant_" ++ alias) then ok alias else err 403

header_of : Web → Claims → Text → Option Text → Result ℕ Text
unfolding ticket_header tenant_header_allowed
header_of w c header (some alias) =
    if is_empty header then ok alias else ticket_header w alias (safe_tenant_schema header)
header_of w c header none =
    if not (is_empty header) && not (tenant_header_allowed w c)
    then (if w.equal_fold header (text_or_empty c.schema_alias) then ok header else err 403)
    else ok header

-- The tenant that the header, or the ticket, names.
unfoldable pub header_alias : Web → Request → Login → Result ℕ Text
unfolding header_of
header_alias w r l = header_of w l.claims (w.trim_space r.tenant_header) l.ticket_alias

unfoldable pub claimed_alias : Web → Claims → Text → Text
claimed_alias w c alias =
    if is_empty alias && not (is_empty (text_or_empty c.schema_alias))
    then w.trim_space (text_or_empty c.schema_alias)
    else alias

older : Tenant → Option Tenant → Option Tenant
older t none = some t
older t (some u) = if leb t.created_at u.created_at then some t else some u

-- `SELECT schema_alias FROM tenants WHERE is_active = true ORDER BY created_at ASC LIMIT 1`.
unfoldable pub oldest_active : List Tenant → Option Tenant
unfolding older
oldest_active [] = none
oldest_active (t ∷ ts) = let rest = oldest_active ts in if t.is_active then older t rest else rest

oldest_alias : Option Tenant → Text
oldest_alias none = []
oldest_alias (some t) = t.schema_alias

unfoldable pub default_alias : Faults → List Tenant → Text → Text
unfolding oldest_alias oldest_active
default_alias f tenants alias =
    if is_empty alias
    then (if f.default_fails then [] else oldest_alias (oldest_active tenants))
    else alias

-- `WHERE schema_alias = $1 AND is_active = true`.
abbrev pub is_active_alias : Text → Tenant → Bool
is_active_alias alias t = text_eq t.schema_alias alias && t.is_active

enter_tenant : Faults → List Tenant → Claims → Text → Result Error Text → Result ℕ Context
enter_tenant f tenants c alias (err x) = err 400
enter_tenant f tenants c alias (ok full) =
    if f.begin_fails || f.count_fails
    then err 500
    else if count_rows (is_active_alias alias) tenants == 0
    then err 403
    else if f.search_path_fails
    then err 500
    else ok (record { claims = c; tenant_schema = full; search_path = full ++ codes ", public" })

-- The transaction in the schema of the alias, or in `public`.
unfoldable pub enter_schema : Faults → List Tenant → Claims → Text → Result ℕ Context
unfolding enter_tenant
enter_schema f tenants c alias =
    if is_empty alias
    then (if f.begin_fails || f.search_path_fails
        then err 500
        else ok (record { claims = c; tenant_schema = []; search_path = codes "public" }))
    else enter_tenant f tenants c alias (safe_tenant_schema alias)

enter_login : Web → Faults → List Tenant → Request → Login → Result ℕ Context
unfolding header_alias claimed_alias default_alias enter_schema
enter_login w f tenants r l = header_alias w r l >>= λ alias.
    enter_schema f tenants l.claims (default_alias f tenants (claimed_alias w l.claims alias))

unfoldable pub with_auth :
    Web → Faults → List Tenant → ℕ → ℕ → Request → Option Store → Result ℕ Context × Option Store
unfolding authenticate enter_login
with_auth w f tenants now marked r s =
    let login = authenticate w now marked r s in
    (login.0 >>= (λ l. enter_login w f tenants r l), login.1)

-- RequireAdmin, on the claims in the context of the request: the status it answers with, or none if
-- the next handler runs.
unfoldable pub require_admin : Web → Option Claims → Option ℕ
require_admin w none = some 403
require_admin w (some c) = elim (c.role) [
  | none ↦ some 403
  | some role ↦
      if not (text_eq (w.to_upper role) (codes "ADMIN"))
        && not (text_eq (w.to_upper role) (codes "SUPERADMIN"))
      then some 403
      else none
]

unfoldable pub require_super_admin : Web → Option Claims → Option ℕ
require_super_admin w none = some 403
require_super_admin w (some c) = elim (c.role) [
  | none ↦ some 403
  | some role ↦ if not (text_eq (w.to_upper role) (codes "SUPERADMIN")) then some 403 else none
]

-- GetTenantSchema, and the getTenantSchema of internal/api/handlers/adoption.go before its check.
unfoldable pub schema_or_public : Context → Text
schema_or_public c = if is_empty c.tenant_schema then codes "public" else c.tenant_schema
