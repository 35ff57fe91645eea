-- ===== src/Botex.antt =====
-- botex.go: what is done with a request, and the bodies of the workers: one message of their channel.
-- The block list and the statistics of the server write to the same store. The channel BlockChan
-- holds pointers to the details of clients; a message comes here with the address of a client in the
-- map, or with the details of one that has left it. Starting the parts and the log lines are left out. A panic ends the program: none.
pub mod Arrivals
pub mod Blocking
pub mod Events
pub mod Clients
pub mod Runs
pub mod Reach
pub mod Totals
pub mod Enforcement
pub mod Trials
pub mod Tests
use mathlib.Core.Option
use botex.Prelude.{
  ℕ, ◌+◌, ◌*◌, String, Option, none, some, Bool, true, false, not, ◌&&◌, ◌||◌, List, [], ◌∷◌, ltb,
  if◌then◌else◌, lookup, insert, str_eq,
}
use botex.Data.{Bytes, Request, IpStats, BlockMessage, IpBlockMessage}
use botex.Float64.{Float64}
use botex.Matchers.{is_asset}
use botex.Treemap.{Treemap}
use botex.Window.{Time}
use botex.MapWindow.{Clock}
use botex.Store.{KvStore}
use botex.StatsWindows
use botex.Whitelist.{IpDetails}
use botex.Block.{Block, Outcome, done, error, Registry, Codec}
use botex.Block.Lookup.{is_blocked_by_asn}
use botex.Block.Change.{block_ip}
use botex.IpData.{Env, IpData, ip_stats, with_details}
use botex.Resolver.{IpResolv}
use botex.History.{Net, History, Added, Changed, put_client}
use botex.History

-- The state: all clients, and the block list with the store.
pub record Botex (M W S A G F : Type 0) : Type 0 where
  pub history : History M W A G F
  pub blocked : Block S

-- What HandleRequest does: the message for the websocket, and the request that the plugins get.
pub record Handled (M W S A G F : Type 0) : Type 0 where
  pub botex : Botex M W S A G F
  pub new_ip : Option (IpData M A G F)
  pub request : Request A
  pub sent : Option (IpStats A F Bytes)

-- What the handling of a message of BlockChan does; `message` goes to the websocket.
pub record Attempt (S A G F C : Type 0) : Type 0 where
  pub blocked : Block S
  pub details : IpDetails A G F
  pub message : Option (IpBlockMessage A F C)

-- The instant of a timestamp: `1<<32` seconds are beyond the year 2100, in nanoseconds they are four
-- seconds after 1970.
unfoldable pub time_of : ℕ → Time
time_of timestamp = if ltb timestamp 4_294_967_296 then timestamp * 1_000_000_000 else timestamp

abbrev or_nil : Option Bytes → Bytes
or_nil none = []
or_nil (some ip) = ip

abbrev when_new : {X : Type 0} → Bool → Option X → Option X
when_new true x = x
when_new false x = none

-- Requests.Add sets IsApp, where there is a client.
abbrev is_app_after : {X A : Type 0} → Option X → Request A → Bool
is_app_after none r = r.is_app
is_app_after (some x) r = not (is_asset r.url)

module _ {M W S A G F : Type 0} where
  -- The part of HandleRequest behind the call of History.Add.
  unfoldable pub after_add :
      Net A G
      → Botex M W S A G F
      → Request A
      → Option (Added M W S A G F)
      → Option (Handled M W S A G F)
  after_add net b r none = none
  after_add net b r (some added) = some record {
    botex = record { history = added.history; blocked = record b.blocked { store = added.store } };
    new_ip = when_new added.is_new added.client;
    request = record r {
      asn = net.find_asn (or_nil (net.parse_ip r.source));
      is_app = is_app_after added.client r;
    };
    sent = added.sent;
  }

  -- One message of `resolvWorker`: the statistics that SetHostname sends.
  unfoldable pub take_name :
      Float64 F
      → Net A G
      → Option IpResolv
      → Botex M W S A G F
      → Botex M W S A G F × Option (IpStats A F Bytes)
  take_name fl net none b = (b, none)
  take_name fl net (some rip) b =
      let (history, sent) = History.set_hostname fl net rip.ip rip.host b.history in
      if str_eq rip.error "" then (record b { history = history }, sent) else (b, none)

module _ {M W S R N A G F : Type 0} ⦃tm : Treemap M ℕ⦄ ⦃wm : Treemap W StatsWindows.Stats⦄
    ⦃kv : KvStore S⦄ (env : Env R N A F) (net : Net A G)
    (encode : StatsWindows.Stats → Option Bytes) where
  unfoldable pub handle_request :
      Bool → Clock → Clock → Time → Request A → Botex M W S A G F → Option (Handled M W S A G F)
  unfolding time_of after_add
  handle_request closed created clock now r b =
      let r' = record r { time = time_of r.timestamp } in
      after_add net b r'
        (History.add env net encode closed created clock now r' b.blocked.store b.history)

-- IsBlockedByASN, which dereferences a system that is nil.
abbrev pub is_asn_blocked : Outcome (Option String) → Option Bool
is_asn_blocked (error e) = none
is_asn_blocked (done none) = some false
is_asn_blocked (done (some reason)) = some true

-- The test of one client by `blockASNNetWorker`.
abbrev pub is_wanted : {A G F : Type 0} → IpDetails A G F → Bool → Bool
is_wanted d by_asn = d.force_block || (not d.is_blocked && by_asn)

abbrev pub client_stats : {A G F : Type 0} → IpDetails A G F → IpStats A F Bytes
client_stats d = record {
  stats = record {
    total = d.total;
    app = d.app;
    other = d.other;
    ratio = d.ratio;
    ips = 0;
    asn = d.asn;
  };
  ip = d.ip;
  with_hostname = 0;
}

abbrev pub take_wanted :
    {A G F : Type 0} → IpDetails A G F → Bool → List (IpStats A F Bytes) → List (IpStats A F Bytes)
take_wanted d by_asn rest = if is_wanted d by_asn then client_stats d ∷ rest else rest

-- The message that BlockIP gets, for a client with a place.
abbrev pub message_of :
    {A G F C : Type 0}
    → (Bytes → String)
    → (G → C)
    → Time
    → IpDetails A G F
    → G
    → IpBlockMessage A F C
message_of text_of city now d geo = record {
  block = record {
    stats = record {
      total = d.total;
      app = d.app;
      other = d.other;
      ratio = d.ratio;
      ips = 0;
      asn = d.asn;
    };
    reason = d.block_reason;
    city = some (city geo);
    blocked_at = now;
  };
  ip = some d.ip;
  hostname = text_of d.hostname;
}

module _ {M S A G F C N P : Type 0} ⦃kv : KvStore S⦄ (registry : Registry A N)
    (codec : Codec A F C N P) where
  -- The clients that `blockASNNetWorker` collects.
  unfoldable pub to_block :
      Block S → List (String × IpData M A G F) → Option (List (IpStats A F Bytes))
  to_block b [] = some []
  to_block b ((key, ipd) ∷ clients) =
      let rest = to_block b clients in
      elim (is_asn_blocked (is_blocked_by_asn registry codec b ipd.details.asn)) [
        | none ↦ none
        | some by_asn ↦ elim rest [
          | none ↦ none
          | some sts ↦ some (take_wanted ipd.details by_asn sts)
        ]
      ]

module _ {S A G F C N P : Type 0} ⦃kv : KvStore S⦄ (codec : Codec A F C N P)
    (text_of : Bytes → String) (city : G → C) where
  -- Behind the first test: a failed BlockIP is only logged.
  unfoldable pub block_with_place :
      Time → Block S → IpDetails A G F → Option G → Option (Attempt S A G F C)
  block_with_place now b d none = none
  block_with_place now b d (some geo) = some record {
    blocked = (block_ip codec b (message_of text_of city now d geo)).0;
    details = record d { is_blocked = true };
    message = some (message_of text_of city now d geo);
  }

  -- One message of `blockWorker`: the details are those of the client as they stand.
  unfoldable pub block_client : Time → Block S → IpDetails A G F → Option (Attempt S A G F C)
  unfolding block_with_place
  block_client now b d =
      if d.is_blocked && not d.force_block
      then some record { blocked = b; details = d; message = none }
      else block_with_place now b d d.geoip

module _ {M W S A G F C : Type 0} where
  -- The details that were changed through the pointer.
  unfoldable pub put_details :
      Botex M W S A G F
      → String
      → IpData M A G F
      → Option (Attempt S A G F C)
      → Option (Botex M W S A G F)
  put_details b key ipd none = none
  put_details b key ipd (some a) = some record {
    history = put_client b.history key (with_details ipd a.details);
    blocked = a.blocked;
  }

  -- The details of a client that is not in the map any more.
  unfoldable pub block_left :
      Botex M W S A G F → Option (Attempt S A G F C) → Option (Botex M W S A G F)
  block_left b none = none
  block_left b (some a) = some record b { blocked = a.blocked }

module _ {M W S A G F C N P : Type 0} ⦃kv : KvStore S⦄ (net : Net A G) (codec : Codec A F C N P)
    (text_of : Bytes → String) (city : G → C) where
  -- A message of BlockChan, for the client in the map under the address, or, with details, for one
  -- that has left it. Without details there is no message for an address that has no client.
  unfoldable pub block_one :
      Time → Bytes → Option (IpDetails A G F) → Botex M W S A G F → Option (Botex M W S A G F)
  unfolding block_client put_details block_left
  block_one now ip (some d) b = block_left b (block_client codec text_of city now b.blocked d)
  block_one now ip none b = elim (lookup (net.ip_string ip) b.history.clients) [
    | none ↦ some b
    | some ipd ↦
        put_details b (net.ip_string ip) ipd
          (block_client codec text_of city now b.blocked ipd.details)
  ]

module _ {M W R N A G F : Type 0} (env : Env R N A F) (net : Net A G) where
  unfoldable pub update_all :
      Clock → History M W A G F → Option (List (IpStats A F Bytes)) → Option (Changed M W A G F)
  update_all clock h none = none
  update_all clock h (some sts) = History.update env net true clock sts h

module _ {M W S R N A G F C P : Type 0} ⦃kv : KvStore S⦄ (env : Env R N A F) (net : Net A G)
    (registry : Registry A N) (codec : Codec A F C N P) where
  -- One message of `blockASNNetWorker`.
  unfoldable pub block_asn_nets : Clock → Botex M W S A G F → Option (Changed M W A G F)
  unfolding to_block update_all
  block_asn_nets clock b =
      update_all env net clock b.history (to_block registry codec b.blocked b.history.clients)
