-- ===== src/Whitelist/Tests.antt =====
-- The theorems with patterns that match literally and networks that are prefixes.
use botex.Prelude.{
  ℕ, ◌≡◌, ◌↔◌, refl, Option, none, some, false, [], ◌∷◌, ◌==◌, ◌-◌, ltb, if◌then◌else◌,
}
use botex.Data.{Bytes}
use botex.Matchers.{codes}
use botex.Store.Prefix.{bytes_eq, has_prefix}
use botex.Whitelist.{
  IpDetails, Patterns, WhitelistRule, WhitelistRules, Whitelist, LoadError, whitelisted_by,
  not_whitelisted, anchored, new_whitelist, and_then, compile_rules, compile_anchored,
  compile_number, must_compile, compile_all, take_compiled, set_server_host, set_server_path,
  set_useragent, or_next, find_number, first_match, load, is_whitelisted,
}
use botex.Whitelist.Verdicts.{NoMatch, not_whitelisted_iff}

abbrev pub digit : Bytes → Option ℕ
digit [] = none
digit (c ∷ cs) = if ltb c b'0' then none else some (c - b'0')

abbrev pub literals : Patterns Bytes Bytes ℕ
literals = record {
  compile = some;
  matches = λ r t. bytes_eq r (anchored t);
  matches_text = λ r t. false;
  parse_cidr = some;
  contains = λ n ip. has_prefix n ip;
  parse_number = digit;
  ip_text = λ ip. ip;
  asn_number = λ n. n;
  organization = λ n. codes "Example";
}

abbrev rule : Bytes → WhitelistRule
rule p = record { pattern = p; description = "rule" }

abbrev rules : WhitelistRules
rules = record {
  ip = [];
  cidr = rule (10 ∷ []) ∷ [];
  client_host = rule (codes "crawl.example") ∷ [];
  org = [];
  asn = rule (codes "7") ∷ [];
  useragent = [];
  server_host = [];
  server_path = [];
}

abbrev after_load : Whitelist Bytes Bytes × Option LoadError
after_load = load literals new_whitelist (some rules) 100

abbrev pub client : Bytes → Bytes → ℕ → IpDetails ℕ ℕ ℕ
client ip host number = record {
  ip = ip;
  hostname = host;
  asn = some number;
  geoip = none;
  total = 0;
  app = 0;
  other = 0;
  ratio = 0;
  is_blocked = false;
  block_reason = "";
  is_whitelisted = false;
  whitelist_reason = "";
  created_at = 0;
  updated_at = 0;
  last_block_at = 0;
  force_block = false;
}

crawler :
    is_whitelisted literals after_load.0 (client (192 ∷ []) (codes "crawl.example") 3)
    ≡ whitelisted_by "rule"
unfolding load is_whitelisted or_next find_number take_compiled set_server_host set_server_path
    set_useragent compile_all and_then compile_rules compile_number compile_anchored must_compile
    first_match bytes_eq
crawler = refl

bad_number :
    (load literals new_whitelist (some (record rules { asn = rule (codes "-") ∷ [] })) 100).0
    ≡ new_whitelist
unfolding load compile_all compile_rules compile_number and_then take_compiled
bad_number = refl

not_whitelisted_iff_example :
    (is_whitelisted literals after_load.0 (client (192 ∷ []) (codes "a") 3) ≡ not_whitelisted) ↔ (
      NoMatch (λ n. n == 3) after_load.0.asns
      × (NoMatch (λ r. bytes_eq r (anchored (codes "a"))) after_load.0.client_hosts
          × (NoMatch (λ n. has_prefix n (192 ∷ [])) after_load.0.cidrs
              × (NoMatch (λ r. bytes_eq r (anchored (192 ∷ []))) after_load.0.ips
                  × NoMatch (λ r. bytes_eq r (anchored (codes "Example"))) after_load.0.orgs))))
not_whitelisted_iff_example =
    not_whitelisted_iff literals after_load.0 (client (192 ∷ []) (codes "a") 3) 3 refl
