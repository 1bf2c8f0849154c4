-- ===== src/Tests/Logins.antt =====
-- Logins and requests of two tenants, one of which is no longer active.
use openwrt_controller.Identity.{safe_tenant_schema, schema_char}
use openwrt_controller.Base.{
  ℕ, Bool, true, false, List, [], ◌∷◌, ◌++◌, Option, none, some, Text, codes, text_eq,
  if◌then◌else◌, Result, ok, err, ◌≡◌, refl, arith, ◌<◌, count_rows, select_row, ◌&&◌, Bool-cases,
  inl, inr, &&_true, text_eq→eq, ap, sym, ◌∙◌, has_suffix,
}
use openwrt_controller.Identity.{safe_tenant_schema}
use openwrt_controller.AuthTickets.{Ticket, Store, consume_for_device, gc_locked, insert, lookup}
use openwrt_controller.AuthTickets.SingleUse.{Call, ticks, run, never_issues, issues_id}
use openwrt_controller.Access.{
  Claims, not_valid, map_claims, Web, Faults, Tenant, Request, Context, with_auth, is_active_alias,
  is_ssh_web_socket, tenant_header_allowed, oldest_active,
}
use openwrt_controller.Access.Isolation.{served_in_own_tenant, IsOwnAlias}
use openwrt_controller.Access.Issuing.{issue_ws_ticket}
use openwrt_controller.Access.Handshake.{handshake_keeps_the_tenant, handshake_at_most_once}
use openwrt_controller.Access.SignIn.{
  User, LoginFaults, Signing, login_handler, landing_tenant, is_user, IsPlain,
  login_decides_the_tenant, is_active_id,
}

abbrev bob : Claims
bob = record {
  sub = some (codes "bob");
  role = some (codes "VIEWER");
  schema_alias = some (codes "acme");
}

-- The claims of a user of the tenant that is no longer active.
abbrev carol : Claims
carol = record { sub = some (codes "carol"); role = some (codes "VIEWER"); schema_alias = none }

abbrev web : Web
web = record {
  equal_fold = text_eq;
  trim_space = λ s. s;
  to_upper = λ s. s;
  jwt_parse = λ s.
      if text_eq s (codes "jwt-bob")
      then map_claims bob
      else if text_eq s (codes "jwt-carol")
      then map_claims carol
      else not_valid;
  ws_allow_query_token = false;
}

abbrev calm : Faults
calm = record {
  default_fails = false;
  begin_fails = false;
  count_fails = false;
  search_path_fails = false;
}

abbrev acme : Tenant
acme = record { id = codes "1"; schema_alias = codes "acme"; is_active = true; created_at = 5 }

abbrev zeta : Tenant
zeta = record { id = codes "2"; schema_alias = codes "zeta"; is_active = true; created_at = 3 }

abbrev gone : Tenant
gone = record { id = codes "3"; schema_alias = codes "gone"; is_active = false; created_at = 1 }

abbrev tenants : List Tenant
tenants = acme ∷ zeta ∷ gone ∷ []

abbrev bearer : Text → Request
bearer token = record {
  ticket = [];
  token = [];
  upgrade = [];
  authorization = codes "Bearer " ++ token;
  tenant_header = [];
  path = codes "/api/devices";
  device_id = [];
}

abbrev bob_context : Context
bob_context = record {
  claims = bob;
  tenant_schema = codes "tenant_acme";
  search_path = codes "tenant_acme, public";
}

abbrev own_request : Request
own_request = record (bearer (codes "jwt-bob")) { tenant_header = codes "acme" }

own_request-served : (with_auth web calm tenants 0 0 own_request none).0 ≡ ok bob_context
unfolding with_auth text_eq safe_tenant_schema schema_char count_rows
own_request-served = refl

viewer : tenant_header_allowed web bob ≡ false
unfolding tenant_header_allowed text_eq
viewer = refl

served_in_own_tenant_example :
    (alias : Text) × (bob_context.tenant_schema ≡ codes "tenant_" ++ alias)
    × (0 < count_rows (is_active_alias alias) tenants)
    × IsOwnAlias web (codes "acme") alias
served_in_own_tenant_example =
    served_in_own_tenant web calm tenants 0 0 own_request none bob_context (codes "acme")
      own_request-served viewer refl refl refl

-- Another tenant's header is refused.
strange_header :
    (with_auth web calm tenants 0 0 (record own_request { tenant_header = codes "zeta" }) none).0
    ≡ err 403
unfolding with_auth text_eq
strange_header = refl

abbrev empty_store : Option Store
empty_store = some (record { tickets = []; ttl = 100 })

abbrev devices : Text → Text → Option Bool
devices schema device = some (text_eq schema (codes "tenant_acme"))

abbrev ticket : Ticket
ticket = record {
  username = codes "bob";
  role = codes "VIEWER";
  device_id = codes "r1";
  tenant_schema = codes "acme";
  issued_at = 500;
  expires_at = 600;
  consumed = false;
  consumed_at = none;
}

abbrev asked : Result ℕ (Text × Ticket) × Option Store
asked =
    issue_ws_ticket web devices 500 (some (codes "k-1")) bob_context (codes "Bearer jwt-bob")
      (some (codes "r1")) empty_store

asked-ok : asked.0 ≡ ok (codes "k-1", ticket)
unfolding issue_ws_ticket text_eq schema_char
asked-ok = refl

abbrev upgrade : Request
upgrade = record {
  ticket = codes "k-1";
  token = [];
  upgrade = codes "websocket";
  authorization = [];
  tenant_header = [];
  path = codes "/api/devices/r1/ssh";
  device_id = codes "r1";
}

upgrade-ssh : is_ssh_web_socket web upgrade ≡ true
unfolding is_ssh_web_socket text_eq has_suffix
upgrade-ssh = refl

handshake_keeps_the_tenant_example :
    (y : Context) × ((with_auth web calm tenants 510 511 upgrade asked.1).0 ≡ ok y)
    × (y.tenant_schema ≡ codes "tenant_acme")
    × (y.claims.role ≡ some (codes "VIEWER"))
handshake_keeps_the_tenant_example =
    handshake_keeps_the_tenant web calm calm tenants 0 0 own_request none bob_context devices 500
      (some (codes "k-1")) (some (codes "r1")) empty_store (codes "k-1") ticket 510 511 upgrade
      own_request-served asked-ok upgrade-ssh refl refl refl refl (omega arith) refl

abbrev ticket_context : Context
ticket_context = bob_context

upgrade-served : (with_auth web calm tenants 510 511 upgrade asked.1).0 ≡ ok ticket_context
unfolding with_auth text_eq has_suffix issue_ws_ticket schema_char consume_for_device lookup
    gc_locked insert safe_tenant_schema count_rows
upgrade-served = refl

abbrev meanwhile : List Call
meanwhile = ticks 512 ∷ []

meanwhile-issues : never_issues (codes "k-1") meanwhile ≡ true
unfolding never_issues issues_id
meanwhile-issues = refl

handshake_at_most_once_example : ¬ (
    (with_auth web calm tenants 513 514 upgrade
      (run meanwhile (with_auth web calm tenants 510 511 upgrade asked.1).1)).0
    ≡ ok ticket_context)
handshake_at_most_once_example =
    handshake_at_most_once web calm calm tenants tenants 510 511 513 514 upgrade upgrade asked.1
      ticket_context ticket_context meanwhile upgrade-ssh upgrade-served meanwhile-issues refl

-- Only the claims of carol are signed here.
sign_carol : Option Text → Option Text → Option Text → Option Text
sign_carol (some name) (some role) none =
    if text_eq name (codes "carol") && text_eq role (codes "VIEWER")
    then some (codes "jwt-carol")
    else none
sign_carol name role alias = none

abbrev signing : Signing
signing = record {
  compare_hash_and_password = text_eq;
  signed_string = λ c. sign_carol c.sub c.role c.schema_alias;
}

signed_is_carol :
    (name role alias : Option Text) (k : Text)
    → sign_carol name role alias ≡ some k
    → (k ≡ codes "jwt-carol")
      × (Path Claims (record { sub = name; role = role; schema_alias = alias }) carol)
unfolding sign_carol
signed_is_carol (some name) (some role) none k h =
    elim (Bool-cases (text_eq name (codes "carol") && text_eq role (codes "VIEWER"))) [
      | inl both ↦
          let key : some (codes "jwt-carol") ≡ some k = (rw both at h) in
          let (n, r) = &&_true _ _ both in
          let named = text_eq→eq name (codes "carol") n in
          let ranked = text_eq→eq role (codes "VIEWER") r in (cc, cc)
      | inr n ↦ absurd (let z = (rw n at h) in ground arith)
    ]
signed_is_carol (some name) (some role) (some a) k h = absurd (ground arith)
signed_is_carol (some name) none alias k h = absurd (ground arith)
signed_is_carol none role alias k h = absurd (ground arith)

carol_parses : web.jwt_parse (codes "jwt-carol") ≡ map_claims carol
unfolding text_eq
carol_parses = refl

signed_is_parsed :
    (c : Claims) (k : Text) → signing.signed_string c ≡ some k → web.jwt_parse k ≡ map_claims c
signed_is_parsed c k h =
    let (key, claims) = signed_is_carol c.sub c.role c.schema_alias k h in
    rw key (carol_parses ∙ ap map_claims (sym claims))

abbrev users : List User
users =
    (record {
      username = codes "carol";
      password_hash = codes "pw";
      role = some (codes "VIEWER");
      tenant_id = some (codes "3");
    })
    ∷ []

abbrev reachable : LoginFaults
reachable = record { deadline_exceeded = false; lookup_fails = false; tenant_fails = false }

carol-token :
    login_handler signing reachable users tenants (codes "carol") (codes "pw")
    ≡ ok (codes "jwt-carol")
unfolding login_handler select_row text_eq sign_carol
carol-token = refl

carol-row :
    select_row (is_user (codes "carol")) users
    ≡ some (record {
      username = codes "carol";
      password_hash = codes "pw";
      role = some (codes "VIEWER");
      tenant_id = some (codes "3");
    })
unfolding select_row text_eq
carol-row = refl

carol-landing : landing_tenant reachable tenants (some (codes "3")) ≡ some zeta
unfolding landing_tenant select_row is_active_id text_eq oldest_active
carol-landing = refl

zeta-safe : safe_tenant_schema (codes "zeta") ≡ ok (codes "tenant_zeta")
unfolding safe_tenant_schema schema_char
zeta-safe = refl

carol-IsPlain : IsPlain web (codes "jwt-carol") (bearer (codes "jwt-carol"))
unfolding IsPlain is_ssh_web_socket text_eq
carol-IsPlain = (refl, refl, refl, refl)

login_decides_the_tenant_example :
    (y : Context) × ((with_auth web calm tenants 0 0 (bearer (codes "jwt-carol")) none).0 ≡ ok y)
    × (y.tenant_schema ≡ codes "tenant_zeta")
    × (y.claims.sub ≡ some (codes "carol"))
    × (y.claims.role ≡ some (codes "VIEWER"))
login_decides_the_tenant_example =
    login_decides_the_tenant web signing reachable calm users tenants (codes "carol") (codes "pw")
      (codes "jwt-carol") 0 0 (bearer (codes "jwt-carol")) none _ zeta (codes "tenant_zeta")
      signed_is_parsed carol-token carol-row carol-landing zeta-safe refl refl carol-IsPlain refl
