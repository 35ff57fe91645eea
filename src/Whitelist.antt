-- ===== src/Whitelist.antt =====
-- whitelist.go: the rules, how they are loaded, and which clients and requests they let pass.
-- Parameters (Patterns): regular expressions `R`, networks `N`, the numbers that ASN rules are, and
-- the texts of an address and of an organization; a failed parse is none. A rule that `Load` has
-- compiled is a pair of what it was compiled to and its description. A number of an autonomous
-- system that is not positive is 0. The file comes as its decoded rules, or none if it cannot be
-- read or decoded. The channel, the file's watcher and IsURLWhitelisted, whose patterns no code
-- sets, are left out.
pub mod Verdicts
pub mod Loading
pub mod Tests
use mathlib.Core.Option
use botex.Prelude.{
  ℕ, String, Option, none, some, Bool, true, false, List, [], ◌∷◌, ◌++◌, ◌==◌, if◌then◌else◌,
}
use botex.Data.{Bytes, Request}
use botex.Matchers.{codes}
use botex.Window.{Time}

-- ipdata.go. `A` is asndb.ASN, `G` geoip.GeoIP, `F` float64.
pub record IpDetails (A G F : Type 0) : Type 0 where
  pub ip : Bytes
  pub hostname : Bytes
  pub asn : Option A
  pub geoip : Option G
  pub total : ℕ
  pub app : ℕ
  pub other : ℕ
  pub ratio : F
  pub is_blocked : Bool
  pub block_reason : String
  pub is_whitelisted : Bool
  pub whitelist_reason : String
  pub created_at : Time
  pub updated_at : Time
  pub last_block_at : Time
  pub force_block : Bool

pub record Patterns (R N A : Type 0) : Type 0 where
  pub compile : Bytes → Option R
  pub matches : R → Bytes → Bool
  pub matches_text : R → String → Bool
  -- `net.ParseCIDR` on the pattern without backslashes and surrounding spaces.
  pub parse_cidr : Bytes → Option N
  pub contains : N → Bytes → Bool
  pub parse_number : Bytes → Option ℕ
  pub ip_text : Bytes → Bytes
  pub asn_number : A → ℕ
  pub organization : A → Bytes

pub record WhitelistRule : Type 0 where
  pub pattern : Bytes
  pub description : String

pub record WhitelistRules : Type 0 where
  pub ip : List WhitelistRule
  pub cidr : List WhitelistRule
  pub client_host : List WhitelistRule
  pub org : List WhitelistRule
  pub asn : List WhitelistRule
  pub useragent : List WhitelistRule
  pub server_host : List WhitelistRule
  pub server_path : List WhitelistRule

-- What `Load` makes of the rules. Nothing reads the last three but for their patterns.
pub record CompiledRules (R N : Type 0) : Type 0 where
  pub asns : List (ℕ × String)
  pub cidrs : List (N × String)
  pub client_hosts : List (R × String)
  pub ips : List (R × String)
  pub orgs : List (R × String)
  pub server_hosts : List (R × String)
  pub server_paths : List (R × String)
  pub useragents : List (R × String)

-- A nil pattern is none.
pub record Whitelist (R N : Type 0) : Type 0 where
  pub asns : List (ℕ × String)
  pub cidrs : List (N × String)
  pub client_hosts : List (R × String)
  pub ips : List (R × String)
  pub orgs : List (R × String)
  pub server_host_pattern : Option R
  pub server_path_pattern : Option R
  pub useragent_pattern : Option R
  pub updated_at : Time

pub data LoadError : Type 0 where
  unreadable panicked : LoadError
  bad_rule : WhitelistRule → LoadError

pub data Loaded (X : Type 0) : Type 0 where
  loaded : X → Loaded X
  load_error : LoadError → Loaded X

pub data Verdict : Type 0 where
  whitelisted_by : String → Verdict
  not_whitelisted nil_asn : Verdict

unfoldable pub and_then : {X Y : Type 0} → Loaded X → (X → Loaded Y) → Loaded Y
and_then (loaded x) f = f x
and_then (load_error e) f = load_error e

abbrev pub new_whitelist : {R N : Type 0} → Whitelist R N
new_whitelist = record {
  asns = [];
  cidrs = [];
  client_hosts = [];
  ips = [];
  orgs = [];
  server_host_pattern = none;
  server_path_pattern = none;
  useragent_pattern = none;
  updated_at = 0;
}

-- The loop of `Load` over the rules of one kind, with what it makes of a pattern.
unfoldable pub compile_rules :
    {X : Type 0} → (Bytes → Option X) → List WhitelistRule → Loaded (List (X × String))
compile_rules make [] = loaded []
compile_rules make (r ∷ rs) =
    let rest = compile_rules make rs in
    elim (make r.pattern) [
      | none ↦ load_error (bad_rule r)
      | some x ↦ and_then rest (λ xs. loaded ((x, r.description) ∷ xs))
    ]

-- `fmt.Sprintf("^%s$", pattern)`
abbrev pub anchored : Bytes → Bytes
anchored p = codes "^" ++ p ++ codes "$"

-- `strings.Join(patterns, "|")`
unfoldable pub join_patterns : List WhitelistRule → Bytes
join_patterns [] = []
join_patterns (r ∷ []) = r.pattern
join_patterns (r ∷ s ∷ rs) = r.pattern ++ codes "|" ++ join_patterns (s ∷ rs)

-- A Go map takes the last of the entries with one key.
unfoldable pub find_number : ℕ → List (ℕ × String) → Option String
find_number n [] = none
find_number n ((m, d) ∷ rest) =
    let later = find_number n rest in
    elim later [ some e ↦ some e | none ↦ if m == n then some d else none ]

unfoldable pub first_match : {X : Type 0} → (X → Bool) → List (X × String) → Option String
first_match test [] = none
first_match test ((x, d) ∷ rest) =
    let next = first_match test rest in if test x then some d else next

unfoldable pub or_next : Option String → Verdict → Verdict
or_next (some d) next = whitelisted_by d
or_next none next = next

module _ {R N A : Type 0} (lib : Patterns R N A) where
  unfoldable pub compile_anchored : Bytes → Option R
  compile_anchored p = lib.compile (anchored p)

  -- The number of an ASN rule, whose pattern has to be a regular expression too.
  unfoldable pub compile_number : Bytes → Option ℕ
  compile_number p = elim (lib.parse_number p) [
    | none ↦ none
    | some n ↦ elim (lib.compile p) [ none ↦ none | some r ↦ some n ]
  ]

  -- `regexp.MustCompile(fmt.Sprintf("^(%s)$", …))`, which panics if it cannot be compiled: none.
  unfoldable pub must_compile : List WhitelistRule → Option R
  must_compile rs = lib.compile (codes "^(" ++ join_patterns rs ++ codes ")$")

  -- All kinds of rules, compiled in this order.
  unfoldable pub compile_all : WhitelistRules → Loaded (CompiledRules R N)
  compile_all rules = and_then (compile_rules compile_number rules.asn) (λ asns.
      and_then (compile_rules compile_anchored rules.client_host) (λ client_hosts.
        and_then (compile_rules compile_anchored rules.ip) (λ ips.
          and_then (compile_rules compile_anchored rules.org) (λ orgs.
            and_then (compile_rules compile_anchored rules.server_host) (λ server_hosts.
              and_then (compile_rules compile_anchored rules.server_path) (λ server_paths.
                and_then (compile_rules compile_anchored rules.useragent) (λ useragents.
                  and_then (compile_rules lib.parse_cidr rules.cidr) (λ cidrs. loaded record {
                    asns = asns;
                    cidrs = cidrs;
                    client_hosts = client_hosts;
                    ips = ips;
                    orgs = orgs;
                    server_hosts = server_hosts;
                    server_paths = server_paths;
                    useragents = useragents;
                  }))))))))

  -- The end of `Load`: the patterns are set one after the other, until one panics.
  unfoldable pub set_useragent : Time → Whitelist R N → Option R → Whitelist R N × Option LoadError
  set_useragent now w none = (w, some panicked)
  set_useragent now w (some p) = (record w { useragent_pattern = some p; updated_at = now }, none)

  unfoldable pub set_server_path :
      WhitelistRules → Time → Whitelist R N → Option R → Whitelist R N × Option LoadError
  unfolding set_useragent
  set_server_path rules now w none = (w, some panicked)
  set_server_path rules now w (some p) =
      set_useragent now (record w { server_path_pattern = some p }) (must_compile rules.useragent)

  unfoldable pub set_server_host :
      WhitelistRules → Time → Whitelist R N → Option R → Whitelist R N × Option LoadError
  unfolding set_server_path
  set_server_host rules now w none = (w, some panicked)
  set_server_host rules now w (some p) =
      set_server_path rules now (record w { server_host_pattern = some p })
        (must_compile rules.server_path)

  abbrev pub set_rules : Whitelist R N → CompiledRules R N → Whitelist R N
  set_rules w c = record w {
    asns = c.asns;
    cidrs = c.cidrs;
    client_hosts = c.client_hosts;
    ips = c.ips;
    orgs = c.orgs;
  }

  unfoldable pub take_compiled :
      WhitelistRules
      → Time
      → Whitelist R N
      → Loaded (CompiledRules R N)
      → Whitelist R N × Option LoadError
  unfolding set_server_host
  take_compiled rules now w (load_error e) = (w, some e)
  take_compiled rules now w (loaded c) =
      set_server_host rules now (set_rules w c) (must_compile rules.server_host)

  unfoldable pub load :
      Whitelist R N → Option WhitelistRules → Time → Whitelist R N × Option LoadError
  unfolding compile_all take_compiled
  load w none now = (w, some unreadable)
  load w (some rules) now = take_compiled rules now w (compile_all rules)

  -- A nil pattern ends the goroutine: none.
  unfoldable pub matches_pattern : Option R → Bytes → Option Bool
  matches_pattern none text = none
  matches_pattern (some r) text = some (lib.matches r text)

  unfoldable pub is_whitelisted_by_server_host : Whitelist R N → Request A → Option Bool
  is_whitelisted_by_server_host w r = elim w.server_host_pattern [
    | none ↦ none
    | some p ↦ some (lib.matches_text p r.host)
  ]

  unfoldable pub is_whitelisted_by_server_path : Whitelist R N → Request A → Option Bool
  is_whitelisted_by_server_path w r = matches_pattern w.server_path_pattern r.url

  -- The source matches the pattern against the URL.
  unfoldable pub is_whitelisted_by_useragent : Whitelist R N → Request A → Option Bool
  is_whitelisted_by_useragent w r = matches_pattern w.useragent_pattern r.url

  unfoldable pub is_cidr_whitelisted : Whitelist R N → Bytes → Option String
  is_cidr_whitelisted w ip = first_match (λ n. lib.contains n ip) w.cidrs

module _ {R N A G F : Type 0} (lib : Patterns R N A) where
  unfoldable pub is_whitelisted : Whitelist R N → IpDetails A G F → Verdict
  is_whitelisted w ipd = elim ipd.asn [
    | none ↦ nil_asn
    | some asn ↦ or_next (find_number (lib.asn_number asn) w.asns) (
        or_next (first_match (λ r. lib.matches r ipd.hostname) w.client_hosts) (
          or_next (first_match (λ n. lib.contains n ipd.ip) w.cidrs) (
            or_next (first_match (λ r. lib.matches r (lib.ip_text ipd.ip)) w.ips) (
              or_next (first_match (λ r. lib.matches r (lib.organization asn)) w.orgs)
                not_whitelisted))))
  ]
