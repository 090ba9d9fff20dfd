-- ===== src/DynamicDns/Rules.antt =====
-- The checks on inputs and the lookups of panel/routes_dynamic_dns.py: `_hostname`, `_address`,
-- `_ttl`, `_owner_role`, `_site_scope`, `_target`, `_provider_payload` and `_token_from_request`.
use Prim.Native.String.{◌++◌ as ◌+++◌}
use nexvary_panel.Base.{
  ◌⊎◌, inl, inr, ℕ, ◌-◌, String, ◌==◌, ◌≡◌, refl, Bool, false, not, ◌&&◌, ◌||◌, Option, none, some,
  eqb, leb, if◌then◌else◌, starts_with,
}
use nexvary_panel.Base.Int.{ℤ, pos, negsuc}
use nexvary_panel.Base.Lists.{find}
use nexvary_panel.Base.Text.{
  chars, prefix, suffix, strip, lower, rstrip_dots, any_char, all_chars, is_alnum,
}
use nexvary_panel.Base.Names.{
  is_domain, is_label, is_top_label, split, starts_with_char, ends_with_char,
}
use nexvary_panel.Base.Json.{Json, truth, str_of, int_of}
use nexvary_panel.Policy.{Caller}
use nexvary_panel.Security.Store.{User}
use nexvary_panel.DynamicDns.Store.{Row, Site, Target, Binding, Db, Payload, Address}

-- a value, or the text of a ValueError
pub data Valid {ℓ} (A : Type ℓ) : Type ℓ where
  valid : A → Valid A
  invalid : String → Valid A

pub Valid-cases {ℓ} :
    {A : Type ℓ} (x : Valid A)
    → ((a : A) × (x ≡ Valid.valid a)) ⊎ ((e : String) × (x ≡ Valid.invalid e))
Valid-cases (Valid.valid a) = inl (a, refl)
Valid-cases (Valid.invalid e) = inr (e, refl)

-- `str(value or "")`
unfoldable pub or_empty : Json → String
or_empty v = if truth v then str_of v else ""

-- `s.endswith(end)`
unfoldable pub ends_with : String → String → Bool
ends_with s end = leb (chars end) (chars s) && suffix (chars s - chars end) s == end

-- a host name of the zone
unfoldable pub in_zone : String → String → Bool
in_zone domain raw = raw == domain || ends_with raw ("." +++ domain)

-- `DDNS_UPDATE_MIN_SECONDS`, `MAX_DDNS_RECORDS_PER_OWNER`
abbrev pub update_min_seconds : ℕ
update_min_seconds = 10

abbrev pub max_records_per_owner : ℕ
max_records_per_owner = 20

unfoldable pub hostname_of : String → Json → Valid String
hostname_of domain value =
    let given = rstrip_dots (lower (strip (or_empty value))) in
    let raw = if any_char (λ c. eqb c b'.') given then given else given +++ "." +++ domain in
    if given == "@"
    then Valid.valid domain
    else if not (is_domain raw)
    then Valid.invalid "invalid dynamic DNS hostname"
    else if not (in_zone domain raw)
    then Valid.invalid "dynamic DNS hostname must remain inside the managed zone"
    else Valid.valid raw

unfoldable pub address_of : (String → Option Address) → Json → String → Valid String
address_of ip_address value record_type = elim (ip_address (strip (or_empty value))) [
  | none ↦ Valid.invalid "invalid public IP address"
  | some a ↦
      let expected = if record_type == "A" then 4 else 6 in
      if not (eqb a.version expected)
      then Valid.invalid
          (record_type +++ (if record_type == "A" then " requires IPv4" else " requires IPv6"))
      else if not a.is_global || a.is_multicast || a.is_unspecified
      then Valid.invalid "dynamic DNS requires a public unicast address"
      else Valid.valid a.text
]

abbrev pub ttl_range : ℤ → Valid ℕ
ttl_range (negsuc n) = Valid.invalid "TTL must be between 60 and 86400 seconds"
ttl_range (pos n) =
    if leb 60 n && leb n 86400
    then Valid.valid n
    else Valid.invalid "TTL must be between 60 and 86400 seconds"

unfoldable pub ttl_of : Json → Valid ℕ
ttl_of value = elim (int_of value) [ none ↦ Valid.invalid "invalid TTL" | some ttl ↦ ttl_range ttl ]

unfoldable pub owner_role : Db → String → String
owner_role db owner =
    if owner == "admin"
    then "admin"
    else elim (find (λ (u : User). u.username == owner && u.enabled) db.users) [
      | none ↦ "viewer"
      | some u ↦ u.role
    ]

-- `session.get(key) == x`
abbrev pub same_text : Option String → String → Bool
same_text none x = false
same_text (some y) x = y == x

-- `str(session.get("user", ""))`
abbrev pub user_text : Option String → String
user_text none = ""
user_text (some u) = u

unfoldable pub site_scope : Caller → Db → String → Option Site
site_scope s db domain = elim (find (λ (x : Site). x.domain == domain) db.sites) [
  | none ↦ none
  | some site ↦
      if site.enabled && (same_text s.role "admin" || site.owner == user_text s.user)
      then some site
      else none
]

-- The join of `dns_zone_bindings` and `integration_targets`; a domain has one binding at most.
unfoldable pub target_of : Db → String → Option Target
target_of db domain = elim (find (λ (b : Binding). b.domain == domain) db.bindings) [
  | none ↦ none
  | some b ↦
      find
        (λ (t : Target).
          eqb t.id b.target_id && (t.provider == "cloudflare" || t.provider == "powerdns"))
        db.targets
]

unfoldable pub provider_payload : Row → Target → String → String → Payload
provider_payload row target operation address = record {
  provider = target.provider;
  endpoint = target.endpoint;
  secret_id = target.secret_id;
  domain = row.domain;
  operation = operation;
  record_type = row.record_type;
  record_name = row.hostname;
  record_value = address;
  ttl = row.ttl;
  provider_record_id = row.provider_record_id;
}

-- `DDNS_TOKEN_RE.fullmatch`
unfoldable pub is_token : String → Bool
is_token t =
    let rest = suffix 9 t in
    prefix 9 t == "nvp_ddns_"
    && leb 32 (chars rest)
    && leb (chars rest) 96
    && all_chars (λ c. is_alnum c || eqb c b'_' || eqb c b'-') rest

-- `_token_from_request`, of the header `Authorization`; `none` is the empty text.
unfoldable pub token_from : String → Option String
token_from header =
    if not (starts_with header "Bearer ")
    then none
    else (let token = strip (suffix 7 header) in if is_token token then some token else none)

zone_test :
    (hostname_of "a.org" (Json.str " Home. ") ≡ Valid.valid "home.a.org")
    × (hostname_of "a.org" (Json.str "xa.org")
        ≡ Valid.invalid "dynamic DNS hostname must remain inside the managed zone")
unfolding hostname_of or_empty truth str_of strip lower rstrip_dots any_char is_domain is_label
    is_top_label split starts_with_char ends_with_char all_chars in_zone ends_with chars suffix
zone_test = (refl, refl)
