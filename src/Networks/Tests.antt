-- ===== src/Networks/Tests.antt =====
-- Two networks of one autonomous system, which is blocked.
use botex.Prelude.{ℕ, ◌≡◌, refl, String, Option, none, some, false, [], ◌∷◌, ◌==◌, str_eq, map, All}
use botex.Treemap.Sorted.{SortedMap, sorted_map}
use botex.NetworkData.{NetworkData, new_network_data}
use botex.NetworkData
use botex.NetworkData.Tests.{Addresses, addresses, whole_numbers}
use botex.Networks.{Systems, Config, Networks, Blocks, update_and_block, expire_all}
use botex.Networks.Limits.{IsOver, update_and_block-IsOver}
use botex.Networks.{network_of}
use botex.Networks.Groups.{HasSums, update_and_block-HasSums}

abbrev pub systems : Systems ℕ String ℕ
systems = record {
  number = λ a. a;
  cidr = λ a. "5.9.0.0/16";
  network = λ a. some "5.9.0.0/16";
  net_text = λ n. "5.9.0.0/16";
  mask = λ a. 255 ∷ 255 ∷ 0 ∷ 0 ∷ [];
  asn_reason = λ a b c d. "asn";
  network_reason = λ a b c d. "network";
}

abbrev pub config : Config ℕ
config = record { window_size = 10; num_windows = 3; max_app_requests = 4; max_ratio = 0 }

abbrev busy : ℕ → NetworkData (SortedMap ℕ) Addresses ℕ (Option String) ℕ
busy n = record (new_network_data none 10 3 100) {
  total = n;
  app = n;
  ratio = 1;
  ip_count = 2;
  asn = some 7;
}

abbrev pub networks : Networks (SortedMap ℕ) Addresses ℕ String ℕ
networks = record {
  networks = ("5.9.0.0/16", busy 3) ∷ ("5.9.1.0/24", busy 2) ∷ [];
  asn_data = [];
  asn_average = 0;
  net_data = [];
  net_average = 0;
}

abbrev result_of :
    Option (Networks (SortedMap ℕ) Addresses ℕ String ℕ × Blocks ℕ ℕ ℕ String)
    → Networks (SortedMap ℕ) Addresses ℕ String ℕ × Blocks ℕ ℕ ℕ String
result_of none = (networks, record { asns = []; networks = []; checks = false })
result_of (some r) = r

abbrev pub result : Networks (SortedMap ℕ) Addresses ℕ String ℕ × Blocks ℕ ℕ ℕ String
result = result_of (update_and_block systems config 110 (λ cidr i. 110) networks)

update_and_block-HasSums_example :
    (result.0.networks ≡ expire_all (λ cidr i. 110) networks.networks)
    × HasSums ◌==◌ systems.number result.0.networks result.0.asn_data
    × HasSums str_eq systems.cidr result.0.networks result.0.net_data
unfolding update_and_block NetworkData.expire NetworkData.expire_stats new_network_data
update_and_block-HasSums_example =
    update_and_block-HasSums systems config 110 (λ cidr i. 110) networks result.0 result.1 refl

update_and_block-IsOver_example :
    (result.0.networks ≡ expire_all (λ cidr i. 110) networks.networks)
    × All (IsOver ◌==◌ systems.number result.0.networks whole_numbers config) result.1.asns
    × All
        (λ m.
          IsOver str_eq systems.cidr result.0.networks whole_numbers config m.block
          × (m.network ≡ network_of systems m.asn))
        result.1.networks
unfolding update_and_block NetworkData.expire NetworkData.expire_stats new_network_data
update_and_block-IsOver_example =
    update_and_block-IsOver systems config 110 (λ cidr i. 110) networks result.0 result.1 refl

-- The system's two networks have two addresses each; the message tells those of the latest.
latest_ips : map (λ m. m.ips) result.1.asns ≡ 2 ∷ []
unfolding update_and_block NetworkData.expire NetworkData.expire_stats new_network_data
latest_ips = refl
