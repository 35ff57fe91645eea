-- ===== src/Botex/Reach.antt =====
-- Every client stands under the text of its own address, through any events of the server.
use botex.Prelude.{ℕ, ◌≡◌, sym, ap, ◌∙◌, String, Option, some, List, [], ◌∷◌, All}
use botex.Data.{Bytes}
use botex.Treemap.{Treemap}
use botex.Store.{KvStore}
use botex.StatsWindows
use botex.Block.{Registry, Codec}
use botex.IpData.{Env, IpData, with_details}
use botex.Botex.Blocking.{block_client-ip}
use botex.History.{Net}
use botex.Botex.{Botex}
use botex.Botex.Events.{Event, requests, updates, ticks, names, blocks, asn_blocks, run}
use botex.IpData
use botex.IpData.{new_ip_data}
use botex.IpData.Kept.{update-core, new_ip_data-core}
use botex.Botex.Clients.{Survives}
use botex.Botex.Runs.{IsTimed, run-Holds}

abbrev IsOwn : {M A G F : Type 0} → Net A G → String → IpData M A G F → Type 0
IsOwn net key ipd = key ≡ net.ip_string ipd.details.ip

module _ {M S R N A G F C P : Type 0} ⦃tm : Treemap M ℕ⦄ ⦃kv : KvStore S⦄ (env : Env R N A F)
    (net : Net A G) (codec : Codec A F C N P) (text_of : Bytes → String) (city : G → C) where
  IsOwn-Survives : Survives S {M = M} env net codec text_of city (λ _. Unit) (IsOwn net)
  unfolding IpData.add IpData.expire IpData.set_hostname
  IsOwn-Survives = record {
    made = λ created ip asn geo ipd e.
        ap (λ c. net.ip_string c.0) (sym (new_ip_data-core env created ip asn geo ipd e));
    added = λ closed clock key ipd r still own. own;
    expired = λ clock key ipd still own. own;
    updated = λ force clock st key old u own e.
        own ∙ ap (λ c. net.ip_string c.0) (sym (update-core env force clock st old u e));
    named = λ hostname key ipd own. own;
    attempted = λ now b key ipd a own e.
        own ∙ ap net.ip_string (sym (block_client-ip codec text_of city now b ipd.details a e));
  }

every_clock_one : {A G F : Type 0} (e : Event A G F) → IsTimed (λ _. Unit) e
every_clock_one (requests closed created clock now r) = tt
every_clock_one (updates clock sts) = tt
every_clock_one (ticks now clocks) = λ key. tt
every_clock_one (names rip) = tt
every_clock_one (blocks now ip left) = tt
every_clock_one (asn_blocks clock) = tt

every_clock : {A G F : Type 0} (events : List (Event A G F)) → All (IsTimed (λ _. Unit)) events
every_clock [] = tt
every_clock (e ∷ events) = (every_clock_one e, every_clock events)

module _ {M W S R N A G F C P : Type 0} ⦃tm : Treemap M ℕ⦄ ⦃wm : Treemap W StatsWindows.Stats⦄
    ⦃kv : KvStore S⦄ (env : Env R N A F) (net : Net A G)
    (encode : StatsWindows.Stats → Option Bytes) (registry : Registry A N) (codec : Codec A F C N P)
    (text_of : Bytes → String) (city : G → C) where
  -- Whatever requests, statistics, names, ticks and blocks the server handles, and in whatever order:
  -- every client stands under the text of its own address, if that is so at first.
  pub run-IsKeyed :
      (events : List (Event A G F)) (b last : Botex M W S A G F)
      → All (λ (e : String × IpData M A G F). e.0 ≡ net.ip_string e.1.details.ip) b.history.clients
      → run env net encode registry codec text_of city events b ≡ some last
      → All
          (λ (e : String × IpData M A G F). e.0 ≡ net.ip_string e.1.details.ip)
          last.history.clients
  run-IsKeyed events b last all h =
      run-Holds (IsOwn-Survives env net codec text_of city) encode registry events b last
        (every_clock events) all h
