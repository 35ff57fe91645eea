-- ===== src/History.antt =====
-- history.go: all clients, by the text of their address, and the statistics of the server. A Go map
-- is an association list in an arbitrary order. `Net` is the package net; the databases of
-- autonomous systems and places are functions. A call of a method of a client that would
-- dereference nil ends the program: none. What a client sends on the update channel is returned,
-- and so are the messages for the websocket, the texts of the addresses that have expired.
pub mod Clients
pub mod Updates
pub mod Expiry
pub mod Order
pub mod Tests
use mathlib.Core.Option
use botex.Prelude.{
  ℕ, zero, suc, ◌+◌, String, Option, none, some, Bool, true, false, List, [], ◌∷◌, if◌then◌else◌,
  ltb, length, lookup, insert, delete,
}
use botex.Data.{Bytes, Request, Stats, IpStats}
use botex.Float64.{Float64}
use botex.Treemap.{Treemap}
use botex.Window.{Time}
use botex.MapWindow.{Clock}
use botex.Store.{KvStore}
use botex.Store.Prefix.{bytes_eq}
use botex.Requests.{can_be_expired}
use botex.StatsWindows
use botex.StatsWindows.{Decision, StatsWindows, new_stats_windows}
use botex.IpData.{Env, IpData, Updated, new_ip_data}
use botex.IpData

-- `ParseIP` and `String` of net.IP, and what the two databases know of an address.
pub record Net (A G : Type 0) : Type 0 where
  pub parse_ip : String → Option Bytes
  pub ip_string : Bytes → String
  pub find_asn : Bytes → Option A
  pub find_geo : Bytes → Option G

pub record History (M W A G F : Type 0) : Type 0 where
  pub clients : List (String × IpData M A G F)
  pub stats : StatsWindows W

-- What one `Add` did.
pub record Added (M W S A G F : Type 0) : Type 0 where
  pub history : History M W A G F
  pub store : S
  pub client : Option (IpData M A G F)
  pub is_new : Bool
  pub sent : Option (IpStats A F Bytes)

-- The clients that were sent to BlockChan, and those whose names are to be looked up.
pub record Effects : Type 0 where
  pub blocks : List Bytes
  pub lookups : List Bytes

pub record Changed (M W A G F : Type 0) : Type 0 where
  pub history : History M W A G F
  pub effects : Effects

abbrev pub no_effects : Effects
no_effects = record { blocks = []; lookups = [] }

abbrev pub note_if : Bool → Bytes → List Bytes → List Bytes
note_if true ip ips = ip ∷ ips
note_if false ip ips = ips

abbrev pub no_stats : {A F : Type 0} → Float64 F → IpStats A F Bytes
no_stats fl = record {
  stats = record { total = 0; app = 0; other = 0; ratio = fl.of_int 0; ips = 0; asn = none };
  ip = [];
  with_hostname = 0;
}

module _ {M A G F : Type 0} where
  -- The loop of `TotalStats`.
  unfoldable pub sum_clients :
      Float64 F → List (String × IpData M A G F) → IpStats A F Bytes → IpStats A F Bytes
  sum_clients fl [] st = st
  sum_clients fl ((key, ipd) ∷ rest) st =
      let d = ipd.details in
      sum_clients fl rest (record st {
        stats = record st.stats {
          total = st.total + d.total;
          app = st.app + d.app;
          other = st.other + d.other;
        };
        with_hostname = if bytes_eq d.hostname [] then st.with_hostname else st.with_hostname + 1;
      })

module _ {M W A G F : Type 0} where
  abbrev pub put_client : History M W A G F → String → IpData M A G F → History M W A G F
  put_client h key ipd = record h { clients = insert key ipd h.clients }

  -- `IPData`, and with it `IPDetails`: no client is a nil pointer.
  unfoldable pub ip_data : Net A G → History M W A G F → Bytes → Option (IpData M A G F)
  ip_data net h ip = lookup (net.ip_string ip) h.clients

  unfoldable pub size : History M W A G F → ℕ
  size h = length h.clients

  -- The callback of `Each` gets the clients in this order.
  abbrev pub each_client : History M W A G F → List (String × IpData M A G F)
  each_client h = h.clients

  unfoldable pub total_stats : Float64 F → History M W A G F → IpStats A F Bytes
  unfolding sum_clients
  total_stats fl h =
      let sums = sum_clients fl h.clients (no_stats fl) in
      record sums {
        stats = record sums.stats { ratio = fl.div (fl.of_int sums.app) (fl.of_int sums.total) };
      }

  -- `SetHostname`: the statistics that the client sends, if there is one.
  unfoldable pub set_hostname :
      Float64 F
      → Net A G
      → Bytes
      → Bytes
      → History M W A G F
      → History M W A G F × Option (IpStats A F Bytes)
  set_hostname fl net ip hostname h = elim (lookup (net.ip_string ip) h.clients) [
    | none ↦ (h, none)
    | some ipd ↦
        let (named, sent) = IpData.set_hostname fl hostname ipd in
        (put_client h (net.ip_string ip) named, some sent)
  ]

module _ {M W R N A G F : Type 0} (env : Env R N A F) (net : Net A G) where
  -- One round of `update`, for a client that is there.
  unfoldable pub take_update :
      History M W A G F → Effects → Bytes → Option (Updated M A G F) → Option (Changed M W A G F)
  take_update h effects ip none = none
  take_update h effects ip (some u) = some record {
    history = put_client h (net.ip_string ip) u.ipd;
    effects = record {
      blocks = note_if u.sent ip effects.blocks;
      lookups = note_if u.resolves ip effects.lookups;
    };
  }

  -- One round of `update`; the call ends at an address that is not known, or has no requests.
  unfoldable pub update_one :
      Bool
      → Clock
      → IpStats A F Bytes
      → History M W A G F
      → Effects
      → Option (Option (Changed M W A G F))
  unfolding take_update
  update_one force clock st h effects = elim (lookup (net.ip_string st.ip) h.clients) [
    | none ↦ none
    | some ipd ↦
        if ltb 0 st.total
        then some (take_update h effects st.ip (IpData.update env force clock st ipd))
        else none
  ]

  -- `update`: each round that calls `Update` reads the clock twice. The effects come latest first.
  unfoldable pub update_from :
      Bool
      → Clock
      → List (IpStats A F Bytes)
      → History M W A G F
      → Effects
      → Option (Changed M W A G F)
  unfolding update_one
  update_from force clock [] h effects = some record { history = h; effects = effects }
  update_from force clock (st ∷ rest) h effects = elim (update_one force clock st h effects) [
    | none ↦ some record { history = h; effects = effects }
    | some none ↦ none
    | some (some c) ↦ update_from force (λ i. clock (i + 2)) rest c.history c.effects
  ]

  unfoldable pub update :
      Bool → Clock → List (IpStats A F Bytes) → History M W A G F → Option (Changed M W A G F)
  unfolding update_from
  update force clock sts h = update_from force clock sts h no_effects

module _ {M A G F : Type 0} ⦃tm : Treemap M ℕ⦄ where
  -- The loop of `expire`: the clients that are left, and the addresses that are gone. The readings
  -- of the clock are those of the client's own calls.
  unfoldable pub expire_clients :
      (String → Clock)
      → List (String × IpData M A G F)
      → List (String × IpData M A G F) × List String
  expire_clients clocks [] = ([], [])
  expire_clients clocks ((key, ipd) ∷ rest) =
      let clock = clocks key in
      let (left, gone) = expire_clients clocks rest in
      let (expired, count) = IpData.expire (λ i. clock (i + 1)) ipd in
      if can_be_expired (clock 0) ipd.requests
      then (if ltb 0 count then ((key, expired) ∷ left, gone) else (left, key ∷ gone))
      else ((key, ipd) ∷ left, gone)

module _ {M W A G F : Type 0} ⦃tm : Treemap M ℕ⦄ ⦃wm : Treemap W StatsWindows.Stats⦄ where
  -- `expire`; `now` is the reading of the clock for the statistics.
  unfoldable pub expire :
      Time → (String → Clock) → History M W A G F → History M W A G F × List String
  unfolding expire_clients
  expire now clocks h =
      let (left, gone) = expire_clients clocks h.clients in
      (record { clients = left; stats = StatsWindows.expire now h.stats }, gone)

module _ {M W R N A G F : Type 0} ⦃tm : Treemap M ℕ⦄ (env : Env R N A F) (net : Net A G) where
  -- The client for an address, new or not.
  unfoldable pub find_or_new : Clock → Bytes → History M W A G F → Option (IpData M A G F × Bool)
  find_or_new clock ip h = elim (lookup (net.ip_string ip) h.clients) [
    | some ipd ↦ some (ipd, false)
    | none ↦ elim (new_ip_data env clock ip (net.find_asn ip) (net.find_geo ip)) [
      | none ↦ none
      | some ipd ↦ some (ipd, true)
    ]
  ]

module _ {M W S R N A G F : Type 0} ⦃tm : Treemap M ℕ⦄ ⦃wm : Treemap W StatsWindows.Stats⦄
    ⦃kv : KvStore S⦄ (env : Env R N A F) (net : Net A G)
    (encode : StatsWindows.Stats → Option Bytes) where
  -- `Add` of a request to a client; an error of the statistics is only logged.
  unfoldable pub add_to :
      Bool
      → Clock
      → Time
      → Request A
      → String
      → IpData M A G F
      → Bool
      → S
      → History M W A G F
      → Added M W S A G F
  add_to closed clock now r key ipd is_new store h =
      let (ipd', decision, sent) = IpData.add env.float closed clock ipd r in
      let (stats, store', failed) = StatsWindows.add encode h.stats store decision r.time now in
      record {
        history = record { clients = insert key ipd' h.clients; stats = stats };
        store = store';
        client = some ipd';
        is_new = is_new;
        sent = sent;
      }

  unfoldable pub add_found :
      Bool
      → Clock
      → Time
      → Request A
      → String
      → S
      → History M W A G F
      → Option (IpData M A G F × Bool)
      → Option (Added M W S A G F)
  unfolding add_to
  add_found closed clock now r key store h none = none
  add_found closed clock now r key store h (some (ipd, is_new)) =
      some (add_to closed clock now r key ipd is_new store h)

  -- `Add`, with the readings of the clock for a new client, the request and the statistics.
  unfoldable pub add :
      Bool → Clock → Clock → Time → Request A → S → History M W A G F → Option (Added M W S A G F)
  unfolding find_or_new add_found
  add closed created clock now r store h = elim (net.parse_ip r.source) [
    | none ↦ some record { history = h; store = store; client = none; is_new = false; sent = none }
    | some ip ↦
        add_found closed clock now r (net.ip_string ip) store h (find_or_new env net created ip h)
  ]
