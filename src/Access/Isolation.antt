-- ===== src/Access/Isolation.antt =====
-- In which tenant's schema a request that WithAuth lets through runs
-- (internal/api/middleware/auth.go).
use openwrt_controller.Base.{
  ℕ, ◌<◌, true, false, List, ◌++◌, Option, none, some, Text, codes, is_empty, Result, ok, err,
  >>=_ok, count_rows, ◌≡◌, refl, arith, ◌⊎◌, inl, inr, Bool-cases, Option-cases, subst,
}
use openwrt_controller.Identity.{safe_tenant_schema}
use openwrt_controller.Schema.{Error}
use openwrt_controller.AuthTickets.{Ticket, Store, TicketError}
use openwrt_controller.Access.{
  Claims, Web, Faults, Tenant, Request, Context, Login, tenant_header_allowed, with_auth,
  authenticate, redeem_ticket, ticket_login, bearer_login, bearer_token, parsed_login, header_alias,
  header_of, ticket_header, claimed_alias, default_alias, enter_schema, enter_tenant, enter_login,
  is_active_alias, Parsed, ticket_id,
}

pub safe_tenant_schema-ok :
    (alias full : Text) → safe_tenant_schema alias ≡ ok full → full ≡ codes "tenant_" ++ alias
unfolding safe_tenant_schema
safe_tenant_schema-ok alias full h = ground arith

pub tenant_named : (alias full : Text) → safe_tenant_schema alias ≡ ok full → is_empty alias ≡ false
unfolding safe_tenant_schema
tenant_named alias full h = ground arith

-- The context that a request gets in the schema of an alias.
IsContextOf : List Tenant → Claims → Text → Context → Type 0
IsContextOf tenants c alias x =
    (x.claims ≡ c)
    × (x.tenant_schema ≡ codes "tenant_" ++ alias)
    × (0 < count_rows (is_active_alias alias) tenants)

enter_tenant-served :
    (f : Faults) (tenants : List Tenant) (c : Claims) (alias : Text) (r : Result Error Text)
    (x : Context)
    → safe_tenant_schema alias ≡ r
    → enter_tenant f tenants c alias r ≡ ok x
    → IsContextOf tenants c alias x
unfolding enter_tenant IsContextOf
enter_tenant-served f tenants c alias (err e) x h g = absurd (ground arith)
enter_tenant-served f tenants c alias (ok full) x h g =
    ground (arith, safe_tenant_schema-ok alias full h)

enter_schema-served :
    (f : Faults) (tenants : List Tenant) (c : Claims) (alias : Text) (x : Context)
    → is_empty alias ≡ false
    → enter_schema f tenants c alias ≡ ok x
    → IsContextOf tenants c alias x
unfolding enter_schema
enter_schema-served f tenants c alias x e h =
    enter_tenant-served f tenants c alias (safe_tenant_schema alias) x refl (rw e at h)

enter_schema-claims :
    (f : Faults) (tenants : List Tenant) (c : Claims) (alias : Text) (x : Context)
    → enter_schema f tenants c alias ≡ ok x
    → x.claims ≡ c
unfolding enter_schema enter_tenant
enter_schema-claims f tenants c alias x h = ground arith

header_of-bearer :
    (w : Web) (c : Claims) (header a alias : Text)
    → tenant_header_allowed w c ≡ false
    → c.schema_alias ≡ some a
    → header_of w c header none ≡ ok alias
    → (is_empty alias ≡ true) ⊎ (w.equal_fold alias a ≡ true)
unfolding header_of
header_of-bearer w c header a alias n l h = ground (arith, l)

header_of-ticket :
    (w : Web) (c : Claims) (header a alias : Text)
    → header_of w c header (some a) ≡ ok alias
    → alias ≡ a
unfolding header_of ticket_header
header_of-ticket w c header a alias h = ground arith

-- The claims of a login by ticket carry the alias of the ticket.
IsLogin : Login → Type 0
IsLogin l = (a : Text) → l.ticket_alias ≡ some a → l.claims.schema_alias ≡ some a

ticket_login-IsLogin :
    (r : Result TicketError Ticket) (l : Login) → ticket_login r ≡ ok l → IsLogin l
unfolding ticket_login IsLogin
ticket_login-IsLogin r l h a e = ground arith

parsed_login-IsLogin : (p : Parsed) (l : Login) → parsed_login p ≡ ok l → IsLogin l
unfolding parsed_login IsLogin
parsed_login-IsLogin p l h a e = ground arith

redeem_ticket-IsLogin :
    (now marked : ℕ) (id d : Text) (s : Option Store) (l : Login)
    → (redeem_ticket now marked id d s).0 ≡ ok l
    → IsLogin l
unfolding redeem_ticket
redeem_ticket-IsLogin now marked id d none l h = absurd (ground arith)
redeem_ticket-IsLogin now marked id d (some s) l h = ticket_login-IsLogin _ l h

bearer_login-IsLogin : (w : Web) (r : Request) (l : Login) → bearer_login w r ≡ ok l → IsLogin l
unfolding bearer_login
bearer_login-IsLogin w r l h =
    ground (arith, parsed_login-IsLogin (w.jwt_parse (bearer_token w r)) l)

authenticate-IsLogin :
    (w : Web) (now marked : ℕ) (r : Request) (s : Option Store) (l : Login)
    → (authenticate w now marked r s).0 ≡ ok l
    → IsLogin l
unfolding authenticate
authenticate-IsLogin w now marked r s l h = ground (
  arith,
  redeem_ticket-IsLogin now marked (ticket_id w r) r.device_id s l,
  bearer_login-IsLogin w r l,
)

-- How the alias that a request is served under relates to the alias `a` of its claims.
unfoldable pub IsOwnAlias : Web → Text → Text → Type 0
IsOwnAlias w a alias = (alias ≡ a) ⊎ ((alias ≡ w.trim_space a) ⊎ (w.equal_fold alias a ≡ true))

header_alias-own :
    (w : Web) (r : Request) (l : Login) (a alias : Text)
    → IsLogin l
    → tenant_header_allowed w l.claims ≡ false
    → l.claims.schema_alias ≡ some a
    → header_alias w r l ≡ ok alias
    → (is_empty alias ≡ true) ⊎ IsOwnAlias w a alias
unfolding header_alias IsLogin IsOwnAlias
header_alias-own w r l a alias g n e h = elim (Option-cases l.ticket_alias) [
  | inl bare ↦
      elim (header_of-bearer w l.claims (w.trim_space r.tenant_header) a alias n e (rw bare at h)) [
        | inl z ↦ inl z
        | inr o ↦ inr (inr (inr o))
      ]
  | inr (b, named) ↦
      let own : l.claims.schema_alias ≡ some b = g b named in
      let same : alias ≡ b = header_of-ticket w l.claims _ b alias (rw named at h) in
      inr (inl (ground arith))
]

trimmed_alias :
    (w : Web) (f : Faults) (tenants : List Tenant) (c : Claims) (a alias : Text)
    → c.schema_alias ≡ some a
    → is_empty a ≡ false
    → is_empty (w.trim_space a) ≡ false
    → is_empty alias ≡ true
    → default_alias f tenants (claimed_alias w c alias) ≡ w.trim_space a
unfolding default_alias claimed_alias
trimmed_alias w f tenants c a alias e n m z = ground (arith, e)

named_alias :
    (w : Web) (f : Faults) (tenants : List Tenant) (c : Claims) (alias : Text)
    → is_empty alias ≡ false
    → default_alias f tenants (claimed_alias w c alias) ≡ alias
unfolding default_alias claimed_alias
named_alias w f tenants c alias z = ground arith

-- With a claimed alias, the request never falls back to the default tenant.
claimed_alias-own :
    (w : Web) (f : Faults) (tenants : List Tenant) (c : Claims) (a alias : Text)
    → c.schema_alias ≡ some a
    → is_empty a ≡ false
    → is_empty (w.trim_space a) ≡ false
    → (is_empty alias ≡ true) ⊎ IsOwnAlias w a alias
    → (is_empty (default_alias f tenants (claimed_alias w c alias)) ≡ false)
      × IsOwnAlias w a (default_alias f tenants (claimed_alias w c alias))
unfolding IsOwnAlias
claimed_alias-own w f tenants c a alias e n m o = elim (Bool-cases (is_empty alias)) [
  | inl z ↦
      let fallen = trimmed_alias w f tenants c a alias e n m z in rw fallen (m, inr (inl refl))
  | inr z ↦
      let kept = named_alias w f tenants c alias z in
      rw kept (z, elim o [ inl y ↦ absurd (ground arith) | inr k ↦ k ])
]

login_served :
    (w : Web) (f : Faults) (tenants : List Tenant) (r : Request) (l : Login) (x : Context)
    (a : Text)
    → IsLogin l
    → enter_login w f tenants r l ≡ ok x
    → tenant_header_allowed w x.claims ≡ false
    → x.claims.schema_alias ≡ some a
    → is_empty a ≡ false
    → is_empty (w.trim_space a) ≡ false
    → (alias : Text) × (x.tenant_schema ≡ codes "tenant_" ++ alias)
      × (0 < count_rows (is_active_alias alias) tenants)
      × IsOwnAlias w a alias
unfolding enter_login IsContextOf
login_served w f tenants r l x a own g n e q m =
    let (alias, good, z) = >>=_ok (header_alias w r l) _ x g in
    let same : x.claims ≡ l.claims = enter_schema-claims f tenants l.claims _ x z in
    let claimed : l.claims.schema_alias ≡ some a = subst (λ c. c.schema_alias ≡ some a) same e in
    let plain : tenant_header_allowed w l.claims ≡ false =
      subst (λ c. tenant_header_allowed w c ≡ false) same n in
    let (full, mine) =
      claimed_alias-own w f tenants l.claims a alias claimed q m
        (header_alias-own w r l a alias own plain claimed good) in
    let (_, schema, active) = enter_schema-served f tenants l.claims _ x full z in
    (_, schema, active, mine)

-- A request that WithAuth lets through with claims of a role that is not SUPERADMIN, and whose
-- schema_alias is not empty, also without its surrounding space, runs in the schema of an active
-- tenant: one whose alias is that of the claims, as it is or without its surrounding space, or one
-- that equals it up to case. This holds with any tenant header, and also where a ticket gave the
-- claims.
pub served_in_own_tenant :
    (w : Web) (f : Faults) (tenants : List Tenant) (now marked : ℕ) (r : Request) (s : Option Store)
    (x : Context) (a : Text)
    → (with_auth w f tenants now marked r s).0 ≡ ok x
    → tenant_header_allowed w x.claims ≡ false
    → x.claims.schema_alias ≡ some a
    → is_empty a ≡ false
    → is_empty (w.trim_space a) ≡ false
    → (alias : Text) × (x.tenant_schema ≡ codes "tenant_" ++ alias)
      × (0 < count_rows (is_active_alias alias) tenants)
      × IsOwnAlias w a alias
unfolding with_auth enter_login
served_in_own_tenant w f tenants now marked r s x a h n e q m =
    let (l, good, g) = >>=_ok (authenticate w now marked r s).0 _ x h in
    login_served w f tenants r l x a (authenticate-IsLogin w now marked r s l good) g n e q m

enter_tenant-tenant :
    (f : Faults) (tenants : List Tenant) (c : Claims) (alias : Text) (r : Result Error Text)
    (x : Context)
    → safe_tenant_schema alias ≡ r
    → enter_tenant f tenants c alias r ≡ ok x
    → (safe_tenant_schema alias ≡ ok x.tenant_schema)
      × (0 < count_rows (is_active_alias alias) tenants)
unfolding enter_tenant
enter_tenant-tenant f tenants c alias (err e) x h g = absurd (ground arith)
enter_tenant-tenant f tenants c alias (ok full) x h g = ground (arith, h)

enter_schema-tenant :
    (f : Faults) (tenants : List Tenant) (c : Claims) (alias : Text) (x : Context)
    → enter_schema f tenants c alias ≡ ok x
    → is_empty x.tenant_schema ≡ false
    → (safe_tenant_schema alias ≡ ok x.tenant_schema)
      × (0 < count_rows (is_active_alias alias) tenants)
unfolding enter_schema
enter_schema-tenant f tenants c alias x h n = elim (Bool-cases (is_empty alias)) [
  | inl z ↦ absurd (let g = (rw z at h) in ground arith)
  | inr z ↦ enter_tenant-tenant f tenants c alias _ x refl (rw z at h)
]

-- A context with a tenant schema has that of an active tenant.
pub with_auth-tenant :
    (w : Web) (f : Faults) (tenants : List Tenant) (now marked : ℕ) (r : Request) (s : Option Store)
    (x : Context)
    → (with_auth w f tenants now marked r s).0 ≡ ok x
    → is_empty x.tenant_schema ≡ false
    → (alias : Text) × (safe_tenant_schema alias ≡ ok x.tenant_schema)
      × (0 < count_rows (is_active_alias alias) tenants)
unfolding with_auth enter_login
with_auth-tenant w f tenants now marked r s x h n =
    let (l, _, g) = >>=_ok (authenticate w now marked r s).0 _ x h in
    let (alias, _, e) = >>=_ok (header_alias w r l) _ x g in
    let (safe, active) = enter_schema-tenant f tenants l.claims _ x e n in
    (default_alias f tenants (claimed_alias w l.claims alias), safe, active)
