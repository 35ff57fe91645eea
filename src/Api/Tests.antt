-- ===== src/Api/Tests.antt =====
-- A client with two requests, in buckets of 10 ns.
use mathlib.Core.List.{Perm, foldl}
use botex.Prelude.{
  Bool, ◌||◌, ℕ, suc, ◌+◌, ◌≡◌, ◌≤◌, ◌↔◌, ◌⊎◌, refl, none, some, true, false, List, [], ◌∷◌,
  if◌then◌else◌, ltb, ◌==◌, str_eq, lookup, select,
}
use mathlib.Core.Option
use botex.Prelude.Atoi
use botex.Prelude.Atoi.{pos, atoi}
use botex.Prelude.Sort.{IsDescending}
use botex.Data.{Bytes}
use botex.Treemap.Sorted.{SortedMap, sorted_map}
use botex.Window
use botex.Requests
use botex.StatsWindows.{Stats, new_stats_windows}
use botex.Store.Prefix.{bytes_eq}
use botex.Whitelist.{IpDetails}
use botex.IpData.{IpData}
use botex.IpData.Tests.{ip_data}
use botex.Block.{done}
use botex.History.{History}
use botex.History.Tests.{net}
use botex.History
use botex.Api.{ok}
use botex.Api.RequestStats.{RequestWindow, epoch, stats_of, get_request_stats}
use botex.Api.Buckets.{counted, IsCounted}
use botex.Api.Windows.{panics, get_request_stats-none_iff, get_request_stats_lem}
use botex.Api.Pages.{Filters, ip_key, get_ips}
use botex.Api.Listing.{lacks_asn, details_of, is_shown, get_ips_lem}
use botex.Api.Sockets.{no_sockets, SocketEvent, connects, items, sends, stops, socket_step, times}
use botex.Api.Pool.{has_no_items, run-IsPooled}

abbrev visitor : IpData (SortedMap ℕ) ℕ ℕ ℕ
visitor =
    let ipd = ip_data [] in
    record ipd {
      requests = record ipd.requests {
        all_window = Window.add (Window.add ipd.requests.all_window 105) 117;
      };
    }

abbrev visited : History (SortedMap ℕ) (SortedMap Stats) ℕ ℕ ℕ
visited = record { clients = ("192", visitor) ∷ []; stats = new_stats_windows 10 3 }

-- The request of the latest moment is in the window that starts first.
abbrev two_windows : List RequestWindow
two_windows =
    record { time = epoch + 105; count = 1 } ∷ record { time = epoch + 110; count = 1 } ∷ []

atoi_signs :
    (atoi (b'-' ∷ b'1' ∷ b'2' ∷ []) ≡ some (Atoi.negsuc 11))
    × (atoi (b'+' ∷ b'7' ∷ []) ≡ some (pos 7))
    × (atoi (b'7' ∷ b'x' ∷ []) ≡ none)
    × (atoi (b'-' ∷ []) ≡ none)
unfolding atoi
atoi_signs = (refl, refl, refl, refl)

visited-two_windows :
    get_request_stats net 1000 112 "192" (b'2' ∷ []) "all" visited ≡ some (ok two_windows)
unfolding get_request_stats atoi History.ip_data lookup bytes_eq Requests.total_stats
    Window.bucket_map Window.add botex.Treemap.Ascent.put_at Requests.new_requests Window.new_window
    botex.Treemap.Ascent.first_above botex.Treemap.Ascent.get_at
visited-two_windows = refl

get_request_stats_lem_example :
    (n : ℕ) × (ipd : IpData (SortedMap ℕ) ℕ ℕ ℕ) × (atoi (b'2' ∷ []) ≡ some (pos (suc n)))
    × (suc n ≤ 1000)
    × (History.ip_data net visited (Option.get_or (net.parse_ip "192") []) ≡ some ipd)
    × IsCounted 112 n (stats_of "all" ipd.requests) two_windows
    × (counted two_windows
        ≡ (if str_eq "all" "app" then Requests.app ipd.requests else Requests.total ipd.requests))
get_request_stats_lem_example =
    get_request_stats_lem net 1000 112 "192" (b'2' ∷ []) "all" visited two_windows
      visited-two_windows

get_request_stats-none_iff_example :
    (get_request_stats net 1000 112 "192" (b'0' ∷ []) "all" visited ≡ none) ↔ (
      panics 1000 112 "all"
        (atoi (b'0' ∷ []))
        (History.ip_data net visited (Option.get_or (net.parse_ip "192") []))
      ≡ true)
get_request_stats-none_iff_example =
    get_request_stats-none_iff net 1000 112 "192" (b'0' ∷ []) "all" visited

abbrev filters : Filters Bytes ℕ
filters = record { asn_number = λ a. a; parse_cidr = λ c. some c; contains = bytes_eq }

get_ips_lem_example :
    ((ips : List (IpDetails ℕ ℕ ℕ)) × (lacks_asn 3 visited.clients ≡ false)
      × (get_ips filters "total" (b'3' ∷ []) [] visited ≡ some (ok ips))
      × Perm ips (details_of (select (is_shown filters 3 none) visited.clients))
      × IsDescending (ip_key "total") ips)
    ⊎ ((lacks_asn 3 visited.clients ≡ true)
        × (get_ips filters "total" (b'3' ∷ []) [] visited ≡ none))
unfolding atoi
get_ips_lem_example = get_ips_lem filters "total" (b'3' ∷ []) [] visited

abbrev events : List (SocketEvent ℕ)
events = connects true (done 1) ∷ connects true (done 2) ∷ items (λ k. k == 0) ∷ sends 3 ∷ []

abbrev late : List (SocketEvent ℕ)
late = connects true (done 4) ∷ items (λ k. false) ∷ []

run-IsPooled_example :
    let s = foldl socket_step no_sockets events in
    let t = foldl socket_step (socket_step s stops) late in
    ((k : ℕ) → times k s.clients + times k s.ended ≡ (if ltb k s.next then 1 else 0))
    × ((writes : ℕ → Bool) (k : ℕ)
        → times k (socket_step s (items writes)).clients
          ≡ (if has_no_items s.websocket_chan || writes k then times k s.clients else 0))
    × ((k : ℕ) → times k t.ended ≡ (if ltb k s.next then 1 else 0))
    × ((k : ℕ) → times k t.clients ≡ (if ltb k s.next then 0 else if ltb k t.next then 1 else 0))
unfolding socket_step
run-IsPooled_example = run-IsPooled events late refl

one_ended :
    (foldl
      (socket_step {X = ℕ})
      no_sockets
      (connects true (done 1) ∷ connects true (done 2) ∷ items (λ k. k == 0) ∷ [])).ended
    ≡ 1 ∷ []
unfolding socket_step
one_ended = refl
