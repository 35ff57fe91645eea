-- ===== src/Requests.antt =====
-- requests.go: the requests of one client in their windows. `I` is net.IP, `A` is asndb.ASN, `F`
-- is float64 and `M` is the sorted map. A call of `time.Now()` reads the clock; an operation takes
-- the clock whose readings it makes, counted from 0. `Add` returns, beside the new state, the
-- request with `IsApp` set and the message for `updateChan`. The nil tests of `Add` have no
-- counterpart, and neither have the locks: an operation is one step.
pub mod Balance
pub mod Tests
use botex.Prelude.{
  ℕ, suc, ◌+◌, ◌*◌, String, Option, none, some, Bool, true, false, not, ◌&&◌, List, [], ◌∷◌, ltb,
  if◌then◌else◌, length,
}
use botex.Treemap.{Treemap, Entries}
use botex.Float64.{Float64}
use botex.Window.{Time, Duration, Window, new_window, count, bucket_map}
use botex.Window
use botex.Data.{Request, Stats, IpStats}
use botex.RequestsWindow.{RequestsWindow, new_requests_window}
use botex.RequestsWindow
use botex.MapWindow.{Clock, MapWindow, new_map_window, total_map}
use botex.MapWindow
use botex.Matchers.{is_asset}

-- The fields of config.Config that Requests reads.
pub record Config : Type 0 where
  pub window_size : Duration
  pub num_windows : ℕ
  pub keep_requests : ℕ

pub record Requests (M I A : Type 0) : Type 0 where
  pub ip : I
  pub app_window : Window M
  pub other_window : Window M
  pub all_window : Window M
  pub user_agents : MapWindow M
  pub latest : RequestsWindow A
  pub update_chan_is_closed : Bool
  pub created_at : Time
  pub expired_at : Time
  pub window_size : Duration

module _ {M I A : Type 0} ⦃tm : Treemap M ℕ⦄ where
  unfoldable pub new_requests : Clock → I → Config → Requests M I A
  new_requests clock ip config = record {
    ip = ip;
    app_window = new_window config.window_size config.num_windows;
    other_window = new_window config.window_size config.num_windows;
    all_window = new_window config.window_size config.num_windows;
    user_agents = new_map_window config.window_size config.num_windows;
    latest = new_requests_window config.keep_requests config.window_size config.num_windows;
    update_chan_is_closed = false;
    created_at = clock 0;
    expired_at = clock 1;
    window_size = config.window_size;
  }

  unfoldable pub total : Requests M I A → ℕ
  total r = count r.all_window

  unfoldable pub app : Requests M I A → ℕ
  app r = count r.app_window

  unfoldable pub other : Requests M I A → ℕ
  other r = count r.other_window

  -- `now.Sub(t) > windowSize` for both instants.
  unfoldable pub can_be_expired : Time → Requests M I A → Bool
  can_be_expired now r =
      ltb (r.created_at + r.window_size) now && ltb (r.expired_at + r.window_size) now

  -- The body of `Expire` behind its guard. Its readings of the clock start at 1.
  unfoldable pub expire_all : Clock → Requests M I A → Requests M I A × ℕ
  expire_all clock r =
      let (all_window, all_size) = Window.expire (clock 1) r.all_window in
      let (app_window, app_size) = Window.expire (clock 2) r.app_window in
      let (other_window, other_size) = Window.expire (clock 3) r.other_window in
      let (user_agents, ua_size) = MapWindow.expire (λ i. clock (4 + i)) r.user_agents in
      let read = 4 + MapWindow.size r.user_agents in
      let (latest, latest_size) = RequestsWindow.expire (clock read) r.latest in
      (
        record r {
          all_window = all_window;
          app_window = app_window;
          other_window = other_window;
          user_agents = user_agents;
          latest = latest;
          expired_at = clock (read + 1);
        },
        all_size + app_size + other_size + ua_size + latest_size,
      )

  unfoldable pub expire : Clock → Requests M I A → Requests M I A × ℕ
  expire clock r =
      if can_be_expired (clock 0) r then expire_all clock r else (r, length r.latest.requests)

  -- The writes of `Add` behind its call of `Expire`: the new state, and the request with `IsApp`.
  unfoldable pub record_request : Requests M I A → Request A → Requests M I A × Request A
  record_request r req =
      let asset = is_asset req.url in
      let req' = record req { is_app = not asset } in
      (
        record r {
          all_window = Window.add r.all_window req.time;
          other_window = if asset then Window.add r.other_window req.time else r.other_window;
          app_window = if asset then r.app_window else Window.add r.app_window req.time;
          latest = RequestsWindow.add r.latest req';
          user_agents = MapWindow.add r.user_agents req';
        },
        req',
      )

  module _ {F : Type 0} (fl : Float64 F) where
    -- The statistics that `Add` sends.
    unfoldable pub current_stats : Requests M I A → Request A → IpStats A F I
    current_stats r req =
        let total = count r.all_window in
        let app = count r.app_window in
        let other = count r.other_window in
        record {
          stats = record {
            total = total;
            app = app;
            other = other;
            ratio = if ltb 0 total then fl.div (fl.of_int app) (fl.of_int total) else fl.of_int 0;
            ips = 0;
            asn = req.asn;
          };
          ip = r.ip;
          with_hostname = 0;
        }

    -- `closed` says that `updateChan` is closed: the send panics, and the deferred function
    -- recovers and marks the channel.
    unfoldable pub add :
        Bool
        → Clock
        → Requests M I A
        → Request A
        → Requests M I A × Request A × Option (IpStats A F I)
    add closed clock r req =
        let (r', req') = record_request (expire clock r).0 req in
        let stats = current_stats r' req' in
        if closed
        then (record r' { update_chan_is_closed = true }, req', none)
        else (r', req', some stats)

    unfoldable pub ratio : Requests M I A → F
    ratio r = fl.div (fl.of_int (count r.all_window)) (fl.of_int (count r.app_window))

  unfoldable pub latest_requests : Requests M I A → List (Request A)
  latest_requests r = r.latest.requests

  unfoldable pub useragents : Requests M I A → List (String × ℕ)
  useragents r = total_map r.user_agents

  unfoldable pub total_stats : Requests M I A → Entries ℕ
  total_stats r = bucket_map r.all_window

  unfoldable pub app_stats : Requests M I A → Entries ℕ
  app_stats r = bucket_map r.app_window
