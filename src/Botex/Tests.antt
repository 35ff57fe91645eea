-- ===== src/Botex/Tests.antt =====
-- A server with one client, whose autonomous system is blocked.
use botex.Prelude.{
  ℕ, ◌+◌, ◌≡◌, ◌⊎◌, refl, String, Option, none, some, Bool, true, false, List, [], ◌∷◌, map, select,
  All, lookup, if◌then◌else◌, str_eq,
}
use botex.Data.{Bytes, BlockMessage}
use botex.Matchers.{codes}
use botex.Treemap.Sorted.{SortedMap, sorted_map}
use botex.Store.Prefix.{bytes_eq}
use botex.Store.Badger.{badger_store}
use botex.Store.Badger.Memory.{Memory, memory_db}
use botex.StatsWindows.{Stats}
use botex.Block.{Block, Registry, Codec}
use botex.IpData.{IpData}
use botex.IpData.Tests.{env, stats_of, ip_data}
use botex.History
use botex.History.Tests.{net, history, request, empty_store, encode}
use botex.Botex.{
  Botex, Attempt, Handled, client_stats, block_asn_nets, block_client, handle_request,
}
use botex.Botex.Blocking.{IsHandled, block_client-IsHandled, is_missing, block_asn_nets_lem}
use botex.Botex.Arrivals.{IsAnnounced, handle_request-IsAnnounced}
use botex.Botex.Events.{Event, requests, updates, ticks, blocks, asn_blocks, run}
use botex.Botex.Reach.{run-IsKeyed}

abbrev pub registry : Registry ℕ Bytes
registry = record {
  asn_number = λ a. a;
  asn_network = λ a. some (codes "5.9.0.0/16");
  cidr = λ n. n;
}

abbrev message : ℕ → BlockMessage ℕ ℕ ℕ
message n = record {
  stats = record { total = n; app = 0; other = n; ratio = 0; ips = 1; asn = some 3 };
  reason = "too many requests";
  city = none;
  blocked_at = 0;
}

abbrev from_total : Bytes → Option (BlockMessage ℕ ℕ ℕ)
from_total [] = none
from_total (n ∷ ns) = some (message n)

abbrev pub json : Codec ℕ ℕ ℕ Bytes Bytes
json = record {
  encode_ip = λ m. some (m.total ∷ []);
  encode_network = λ m. some (m.total ∷ []);
  encode_block = λ m. some (m.total ∷ []);
  decode_ip = λ v. none;
  decode_network = λ v. none;
  decode_block = from_total;
  decode_ipnet = some;
  decode_asn = λ v. none;
  decode_details = some;
}

abbrev pub server : Botex (SortedMap ℕ) (SortedMap Stats) Memory ℕ ℕ ℕ
server = record {
  history = history;
  blocked = record {
    network_cache = [];
    asn_cache = [];
    store = empty_store;
    block_ttl = 3_600_000_000_000;
  };
}

abbrev client : IpData (SortedMap ℕ) ℕ ℕ ℕ
client = ip_data (codes "host")

abbrev attempt_of : Option (Attempt Memory ℕ ℕ ℕ ℕ) → Attempt Memory ℕ ℕ ℕ ℕ
attempt_of none = record { blocked = server.blocked; details = client.details; message = none }
attempt_of (some a) = a

abbrev attempt : Attempt Memory ℕ ℕ ℕ ℕ
attempt = attempt_of (block_client json (λ t. "") (λ g. g) 110 server.blocked client.details)

block_client-IsHandled_example :
    IsHandled json (λ t. "") (λ g. g) 110 server.blocked client.details attempt
    × (attempt.details.is_blocked ≡ true)
unfolding block_client
block_client-IsHandled_example =
    block_client-IsHandled json (λ t. "") (λ g. g) 110 server.blocked client.details attempt refl

block_asn_nets_lem_example :
    block_asn_nets env net registry json (λ i. 110) server
    ≡ History.update env net true
        (λ i. 110)
        (map
          (λ (e : String × IpData (SortedMap ℕ) ℕ ℕ ℕ). client_stats e.1.details)
          (select (is_missing registry json server.blocked) server.history.clients))
        server.history
unfolding botex.Block.Lookup.is_blocked_by_asn botex.Block.Lookup.reason_or
    botex.Block.Lookup.get_asn botex.Block.decode_stored botex.Store.Badger.get
    botex.Store.Badger.item_value botex.Store.Badger.find_key botex.Block.Lookup.network_reason
    botex.Block.Lookup.get_network
block_asn_nets_lem_example =
    block_asn_nets_lem env net registry json (λ i. 110) server ((false, refl), tt)

abbrev handled_of :
    Option (Handled (SortedMap ℕ) (SortedMap Stats) Memory ℕ ℕ ℕ)
    → Handled (SortedMap ℕ) (SortedMap Stats) Memory ℕ ℕ ℕ
handled_of none = record { botex = server; new_ip = none; request = request; sent = none }
handled_of (some h) = h

abbrev handled : Handled (SortedMap ℕ) (SortedMap Stats) Memory ℕ ℕ ℕ
handled = handled_of (handle_request env net encode false (λ i. 105) (λ i. 105) 106 request server)

handle_request-IsAnnounced_example : IsAnnounced env net encode "192" history handled
unfolding handle_request bytes_eq botex.History.add lookup
handle_request-IsAnnounced_example =
    handle_request-IsAnnounced env net encode false (λ i. 105) (λ i. 105) 106 request server handled
      (192 ∷ []) refl refl

abbrev events : List (Event ℕ ℕ ℕ)
events =
    requests false (λ i. 105) (λ i. 105) 106 request
    ∷ updates (λ i. 107) (stats_of 5 ∷ [])
    ∷ asn_blocks (λ i. 108)
    ∷ blocks 109 (192 ∷ []) none
    ∷ blocks 109 (10 ∷ []) (some client.details)
    ∷ ticks 110 (λ key i. 110)
    ∷ []

abbrev last_of :
    Option (Botex (SortedMap ℕ) (SortedMap Stats) Memory ℕ ℕ ℕ)
    → Botex (SortedMap ℕ) (SortedMap Stats) Memory ℕ ℕ ℕ
last_of none = server
last_of (some b) = b

abbrev last : Botex (SortedMap ℕ) (SortedMap Stats) Memory ℕ ℕ ℕ
last = last_of (run env net encode registry json (λ t. "") (λ g. g) events server)

run-IsKeyed_example :
    All
      (λ (e : String × IpData (SortedMap ℕ) ℕ ℕ ℕ). e.0 ≡ net.ip_string e.1.details.ip)
      last.history.clients
unfolding run bytes_eq lookup handle_request botex.History.add botex.History.update
    botex.Prelude.insert botex.IpData.update botex.IpData.add botex.Whitelist.is_whitelisted
    botex.Whitelist.or_next botex.Whitelist.find_number botex.Whitelist.first_match
    botex.Botex.block_asn_nets botex.Block.Lookup.is_blocked_by_asn botex.Block.Lookup.reason_or
    botex.Block.Lookup.get_asn botex.Block.decode_stored botex.Store.Badger.get
    botex.Store.Badger.item_value botex.Store.Badger.find_key botex.Block.Lookup.network_reason
    botex.Block.Lookup.get_network botex.Botex.block_one botex.History.expire botex.StatsWindows.add
    botex.Treemap.Ascent.get_at botex.StatsWindows.new_stats_windows botex.StatsWindows.add_bucket
    botex.StatsWindows.store_latest botex.Treemap.Ascent.last_entry
run-IsKeyed_example =
    run-IsKeyed env net encode registry json (λ t. "") (λ g. g) events server last (refl, tt) refl
