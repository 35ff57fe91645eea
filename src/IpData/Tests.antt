-- ===== src/IpData/Tests.antt =====
-- A client that asks too often: its name is looked up, then it is blocked, for 50 ns.
use botex.Prelude.{ℕ, ◌≡◌, ◌≢◌, ◌↔◌, refl, Option, none, some, true, false, List, [], ◌∷◌}
use botex.Data.{Bytes, IpStats}
use botex.Matchers.{codes}
use botex.Treemap.Sorted.{SortedMap, sorted_map}
use botex.Store.Prefix.{bytes_eq}
use botex.Whitelist.{new_whitelist, or_next, find_number, first_match, is_whitelisted}
use botex.Whitelist.Tests.{literals, client}
use botex.Requests.{new_requests}
use botex.Requests.Tests.{whole}
use botex.IpData.{Config, Env, IpData, ShouldBlock, should_be_blocked, update, set_hostname}
use botex.IpData.Limits.{IsSuspect, should_be_blocked_lem}
use botex.IpData.Cooldown.{Op, updates, names, Log, latest_of, IsSpaced, step, run, run-IsSpaced}

abbrev pub config : Config ℕ
config = record {
  requests = record { window_size = 10; num_windows = 3; keep_requests = 5 };
  min_app_requests = 2;
  max_app_requests = 4;
  max_ratio = 1;
  block_ttl = 50;
}

abbrev pub env : Env Bytes Bytes ℕ ℕ
env = record {
  float = whole;
  patterns = literals;
  reasons = record { too_many = λ a b. "too many"; ratio_too_high = λ a b r m. "ratio" };
  config = config;
  whitelist = new_whitelist;
  plugins = [];
}

abbrev pub stats_of : ℕ → IpStats ℕ ℕ Bytes
stats_of n = record {
  stats = record { total = n; app = n; other = 0; ratio = 1; ips = 0; asn = some 3 };
  ip = 192 ∷ [];
  with_hostname = 0;
}

abbrev pub ip_data : Bytes → IpData (SortedMap ℕ) ℕ ℕ ℕ
ip_data host = record {
  details = record (client (192 ∷ []) host 3) {
    geoip = some 1;
    created_at = 100;
    updated_at = 100;
  };
  requests = new_requests (λ i. 100) (192 ∷ []) config.requests;
}

abbrev busy : IpData (SortedMap ℕ) ℕ ℕ ℕ
busy = record (ip_data []) { details = record (ip_data []).details { app = 5; total = 5 } }

should_be_blocked_lem_example :
    (s : ShouldBlock (SortedMap ℕ) ℕ ℕ ℕ) × (should_be_blocked env 105 busy ≡ some s)
    × ((s.blocked ≡ true) ↔ (IsSuspect env 105 busy × (busy.details.hostname ≢ [])))
    × ((s.resolves ≡ true) ↔ (IsSuspect env 105 busy × (busy.details.hostname ≡ [])))
should_be_blocked_lem_example = should_be_blocked_lem env 105 busy (λ a. (3, refl))

-- Too many requests: looked up at 101, blocked at 103, and at 110 again only as that is forced.
abbrev ops : List (Op Bytes Bytes ℕ ℕ)
ops =
    updates new_whitelist [] true (λ i. 110) (stats_of 7)
    ∷ updates new_whitelist [] false (λ i. 110) (stats_of 7)
    ∷ updates new_whitelist [] false (λ i. 103) (stats_of 6)
    ∷ names (codes "crawl.example")
    ∷ updates new_whitelist [] false (λ i. 101) (stats_of 5)
    ∷ []

abbrev outcome : Option (IpData (SortedMap ℕ) ℕ ℕ ℕ × Log)
outcome = run env ops (ip_data [])

abbrev log_of : Option (IpData (SortedMap ℕ) ℕ ℕ ℕ × Log) → Log
log_of none = []
log_of (some (ipd, log)) = log

abbrev client_of : Option (IpData (SortedMap ℕ) ℕ ℕ ℕ × Log) → IpData (SortedMap ℕ) ℕ ℕ ℕ
client_of none = ip_data []
client_of (some (ipd, log)) = ipd

sends : log_of outcome ≡ (110, true) ∷ (103, false) ∷ []
unfolding run step update bytes_eq is_whitelisted or_next find_number first_match set_hostname
sends = refl

run-IsSpaced_example :
    IsSpaced 50 0 (log_of outcome)
    × ((client_of outcome).details.last_block_at ≡ latest_of 0 (log_of outcome))
unfolding run step update bytes_eq is_whitelisted or_next find_number first_match set_hostname
run-IsSpaced_example = run-IsSpaced env ops (ip_data []) (client_of outcome) (log_of outcome) refl
