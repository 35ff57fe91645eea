-- ===== src/Botex/Totals.antt =====
-- The windows of every client agree, through any events of the server.
use botex.Prelude.{ℕ, ◌+◌, ◌≡◌, subst, sym, String, Option, some, List, [], ◌∷◌, All}
use botex.Data.{Bytes}
use botex.Treemap.{Treemap}
use botex.Window.{Time}
use botex.MapWindow.{Clock}
use botex.Store.{KvStore}
use botex.StatsWindows
use botex.Block.{Registry, Codec}
use botex.IpData.{Env, IpData, with_details}
use botex.History.{Net}
use botex.Botex.{Botex}
use botex.Botex.Events.{Event, run}
use botex.IpData
use botex.IpData.{new_ip_data}
use botex.IpData.Kept.{update-core, new_ip_data-core}
use botex.Requests.{total, app, other}
use botex.Requests
use botex.MapWindow
use botex.Requests.Balance.{
  Hit, Balanced, new_requests-Balanced, add-Balanced, expire-Balanced, totals_agree,
}
use botex.Botex.Clients.{Survives, Holds}
use botex.Botex.Runs.{IsTimed, run-Holds}

-- The clock stands still during a call.
abbrev pub Stands : Clock → Type 0
Stands clock = (now : Time) × ((i : ℕ) → clock i ≡ now)

-- The windows of the client count the same requests.
abbrev pub IsBalanced :
    {M A G F : Type 0} → ⦃tm : Treemap M ℕ⦄ → Requests.Config → String → IpData M A G F → Type 0
IsBalanced config key ipd =
    (hs : List Hit) × Balanced config.window_size config.num_windows hs ipd.requests

module _ {M S R N A G F C P : Type 0} ⦃tm : Treemap M ℕ⦄ ⦃kv : KvStore S⦄ (env : Env R N A F)
    (net : Net A G) (codec : Codec A F C N P) (text_of : Bytes → String) (city : G → C) where
  IsBalanced-Survives :
      Survives S {M = M} env net codec text_of city Stands (IsBalanced env.config.requests)
  unfolding IpData.add IpData.expire IpData.set_hostname
  IsBalanced-Survives =
      let size = env.config.requests.window_size in
      let num = env.config.requests.num_windows in
      record {
        made = λ created ip asn geo ipd e.
            subst (λ c. (hs : List Hit) × Balanced size num hs c.1)
              (sym (new_ip_data-core env created ip asn geo ipd e))
              (
                [],
                new_requests-Balanced size num (λ i. created (i + 1)) ip
                    env.config.requests.keep_requests,
              );
        added = λ closed clock key ipd r (now, still) (hs, b). (
          _,
          (add-Balanced size num env.float closed (λ i. clock (i + 1)) now hs ipd.requests r
              (λ i. still (i + 1)) b).0,
        );
        expired = λ clock key ipd (now, still) (hs, b). (
          _,
          expire-Balanced size num (λ i. clock (i + 1)) now hs ipd.requests (λ i. still (i + 1)) b,
        );
        updated = λ force clock st key old u (hs, b) e.
            subst (λ c. (hs : List Hit) × Balanced size num hs c.1)
              (sym (update-core env force clock st old u e)) (hs, b);
        named = λ hostname key ipd b. b;
        attempted = λ now b key ipd a q e. q;
      }

-- The counts of the client's windows agree.
abbrev pub Agrees : {M A G F : Type 0} → ⦃tm : Treemap M ℕ⦄ → String × IpData M A G F → Type 0
Agrees e =
    (app e.1.requests + other e.1.requests ≡ total e.1.requests)
    × (MapWindow.total e.1.requests.user_agents ≡ total e.1.requests)

module _ {M A G F : Type 0} ⦃tm : Treemap M ℕ⦄ (config : Requests.Config) where
  IsBalanced-Agrees :
      (clients : List (String × IpData M A G F))
      → All (Holds (IsBalanced config)) clients
      → All Agrees clients
  IsBalanced-Agrees [] all = tt
  IsBalanced-Agrees ((key, ipd) ∷ clients) ((hs, b), all) =
      let (_, sums, agents) =
        totals_agree config.window_size config.num_windows hs ipd.requests b in
      ((sums, agents), IsBalanced-Agrees clients all)

module _ {M W S R N A G F C P : Type 0} ⦃tm : Treemap M ℕ⦄ ⦃wm : Treemap W StatsWindows.Stats⦄
    ⦃kv : KvStore S⦄ (env : Env R N A F) (net : Net A G)
    (encode : StatsWindows.Stats → Option Bytes) (registry : Registry A N) (codec : Codec A F C N P)
    (text_of : Bytes → String) (city : G → C) where
  -- From a server without clients, after any requests, statistics, names, ticks and blocks in any
  -- order, where the clock of each request and of each tick stands still during the call: for every
  -- client the app requests and the others add up to all its requests, and so do the requests of all
  -- its user agents.
  pub run-Agrees :
      (events : List (Event A G F)) (b last : Botex M W S A G F)
      → b.history.clients ≡ []
      → All (IsTimed Stands) events
      → run env net encode registry codec text_of city events b ≡ some last
      → All Agrees last.history.clients
  run-Agrees events b last empty still h =
      IsBalanced-Agrees env.config.requests last.history.clients (
        run-Holds (IsBalanced-Survives env net codec text_of city) encode registry events b last
          still (rw empty tt) h)
