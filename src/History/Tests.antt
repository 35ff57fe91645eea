-- ===== src/History/Tests.antt =====
-- Addresses are texts of one byte; two of the three clients that are updated are in the map.
use botex.Prelude.{
  List, not, map, select, ℕ, ◌≡◌, inl, refl, String, Option, none, some, false, [], ◌∷◌, ◌++◌,
  if◌then◌else◌, lookup, str_eq, sum_of, count_if,
}
use botex.Data.{Bytes, Request, IpStats}
use botex.Store.Prefix.{bytes_eq}
use botex.Treemap.Sorted.{SortedMap, sorted_map}
use botex.Store.Badger.{badger_store}
use botex.Store.Badger.Memory.{Memory, memory_db}
use botex.StatsWindows.{Stats, new_stats_windows}
use botex.Requests.Tests.{whole}
use botex.Requests
use botex.Requests.{Requests, new_requests}
use botex.Requests.Balance.{Hit, hit_of, left_hits, new_requests-Balanced, add-Balanced}
use mathlib.Core.List.Perm
use botex.History.Order.{total_stats_in_any_order}
use botex.History.Expiry.{is_gone, settle, expire_lem, expire-keeps_recent}
use botex.IpData.{IpData, new_ip_data}
use botex.IpData
use botex.IpData.Tests.{env, stats_of, ip_data}
use botex.History.{Net, History, Added, no_effects, update_from, add, total_stats, expire}
use botex.History.Updates.{Entry, is_named, total_stats_lem, update_from-Stops}
use botex.History.Clients.{IsClient, add_lem}

abbrev text_of : Bytes → String
text_of ip = if bytes_eq ip (192 ∷ []) then "192" else "other"

abbrev parse : String → Option Bytes
parse text = if str_eq text "nobody" then none else some (192 ∷ [])

abbrev pub net : Net ℕ ℕ
net = record {
  parse_ip = parse;
  ip_string = text_of;
  find_asn = λ ip. some 3;
  find_geo = λ ip. some 1;
}

abbrev pub history : History (SortedMap ℕ) (SortedMap Stats) ℕ ℕ ℕ
history = record { clients = ("192", ip_data []) ∷ []; stats = new_stats_windows 10 3 }

abbrev unknown : IpStats ℕ ℕ Bytes
unknown = record (stats_of 7) { ip = 10 ∷ [] }

total_stats_lem_run :
    let r = total_stats whole history in
    (r.total ≡ sum_of (λ (e : Entry (SortedMap ℕ) ℕ ℕ ℕ). e.1.details.total) history.clients)
    × (r.app ≡ sum_of (λ (e : Entry (SortedMap ℕ) ℕ ℕ ℕ). e.1.details.app) history.clients)
    × (r.other ≡ sum_of (λ (e : Entry (SortedMap ℕ) ℕ ℕ ℕ). e.1.details.other) history.clients)
    × (r.with_hostname ≡ count_if is_named history.clients)
    × (r.ratio ≡ whole.div (whole.of_int r.app) (whole.of_int r.total))
total_stats_lem_run = total_stats_lem whole history

-- The client 192 has its first statistics; its second, behind an unknown address, are lost.
update_from-Stops_example :
    update_from env net false
      (λ i. 105)
      ((stats_of 5 ∷ []) ++ unknown ∷ stats_of 6 ∷ [])
      history
      no_effects
    ≡ update_from env net false (λ i. 105) (stats_of 5 ∷ []) history no_effects
unfolding lookup bytes_eq
update_from-Stops_example =
    update_from-Stops env net false (λ i. 105) (stats_of 5 ∷ []) unknown (stats_of 6 ∷ []) history
      no_effects (inl refl)

abbrev pub empty_store : Memory
empty_store = record { held = []; ordered = tt }

abbrev pub encode : Stats → Option Bytes
encode s = some (s.counters.total ∷ [])

abbrev pub request : Request ℕ
request = record {
  url = [];
  host = "test.scw";
  user_agent = "test/1.0";
  source = "192";
  method = "GET";
  seq = 0;
  timestamp = 105;
  time = 105;
  asn = none;
  is_app = false;
}

abbrev out_of :
    Option (Added (SortedMap ℕ) (SortedMap Stats) Memory ℕ ℕ ℕ)
    → Added (SortedMap ℕ) (SortedMap Stats) Memory ℕ ℕ ℕ
out_of none = record {
  history = history;
  store = empty_store;
  client = none;
  is_new = false;
  sent = none;
}
out_of (some a) = a

abbrev added : Added (SortedMap ℕ) (SortedMap Stats) Memory ℕ ℕ ℕ
added = out_of (add env net encode false (λ i. 105) (λ i. 105) 106 request empty_store history)

add_lem_example :
    (held : IpData (SortedMap ℕ) ℕ ℕ ℕ) × IsClient env net
      (λ i. 105)
      (192 ∷ [])
      history
      held
      added.is_new
    × (added.client ≡ some (IpData.add env.float false (λ i. 105) held request).0)
    × ((other : String)
        → lookup other added.history.clients
          ≡ (if str_eq "192" other then added.client else lookup other history.clients))
unfolding add lookup bytes_eq
add_lem_example =
    add_lem env net encode false (λ i. 105) (λ i. 105) 106 request empty_store history added
      (192 ∷ []) refl refl

abbrev window_config : Requests.Config
window_config = record { window_size = 10; num_windows = 3; keep_requests = 5 }

abbrev fresh : Requests (SortedMap ℕ) Bytes ℕ
fresh = new_requests (λ i. 90) (192 ∷ []) window_config

-- A client with one request, at 105.
abbrev busy : IpData (SortedMap ℕ) ℕ ℕ ℕ
busy = record (ip_data []) { requests = (Requests.add whole false (λ i. 105) fresh request).0 }

abbrev two_clients : History (SortedMap ℕ) (SortedMap Stats) ℕ ℕ ℕ
two_clients = record {
  clients = ("192", busy) ∷ ("193", ip_data []) ∷ [];
  stats = new_stats_windows 10 3;
}

abbrev hits : List Hit
hits = hit_of request ∷ left_hits 10 3 105 [] fresh

expire_lem_example :
    ((expire 130 (λ key i. 130) two_clients).0.clients
      ≡ map
          (settle (λ key i. 130))
          (select (λ e. not (is_gone (λ key i. 130) e)) two_clients.clients))
    × ((expire 130 (λ key i. 130) two_clients).1
        ≡ map (λ e. e.0) (select (is_gone (λ key i. 130)) two_clients.clients))
expire_lem_example = expire_lem 130 (λ key i. 130) two_clients

expire-keeps_recent_example :
    lookup "192" (expire 130 (λ key i. 130) two_clients).0.clients
    ≡ some (settle (λ key i. 130) ("192", busy)).1
unfolding lookup hit_of botex.Window.bucket_start
expire-keeps_recent_example =
    expire-keeps_recent 130 (λ key i. 130) two_clients 10 3 "192" busy hits 130 refl (λ i. refl)
      (add-Balanced 10 3 whole false (λ i. 105) 105 [] fresh request (λ i. refl)
        (let ip : Bytes = 192 ∷ [] in new_requests-Balanced 10 3 (λ i. 90) ip 5)).0
      (λ e. cc)

-- The same clients in the other order.
abbrev turned : History (SortedMap ℕ) (SortedMap Stats) ℕ ℕ ℕ
turned = record two_clients { clients = ("193", ip_data []) ∷ ("192", busy) ∷ [] }

total_stats_in_any_order_example :
    let r = total_stats whole turned in
    (r.total ≡ sum_of (λ (e : Entry (SortedMap ℕ) ℕ ℕ ℕ). e.1.details.total) two_clients.clients)
    × (r.app ≡ sum_of (λ (e : Entry (SortedMap ℕ) ℕ ℕ ℕ). e.1.details.app) two_clients.clients)
    × (r.other ≡ sum_of (λ (e : Entry (SortedMap ℕ) ℕ ℕ ℕ). e.1.details.other) two_clients.clients)
    × (r.with_hostname ≡ count_if is_named two_clients.clients)
    × (r.ratio ≡ whole.div (whole.of_int r.app) (whole.of_int r.total))
    × (r ≡ total_stats whole two_clients)
total_stats_in_any_order_example =
    total_stats_in_any_order whole turned two_clients (Perm.swap _ _ _)
