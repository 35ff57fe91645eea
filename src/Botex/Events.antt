-- ===== src/Botex/Events.antt =====
-- botex.go, history.go: the events of the server, one after the other, as the channels deliver them.
use botex.Prelude.{ℕ, String, Option, none, some, Bool, false, List, [], ◌∷◌}
use botex.Data.{Bytes, Request, IpStats}
use botex.Treemap.{Treemap}
use botex.Window.{Time}
use botex.MapWindow.{Clock}
use botex.Store.{KvStore}
use botex.StatsWindows
use botex.Block.{Registry, Codec}
use botex.Whitelist.{IpDetails}
use botex.IpData.{Env}
use botex.Resolver.{IpResolv}
use botex.History.{Net, Changed}
use botex.History
use botex.Botex.{Botex, Handled, handle_request, take_name, block_one, block_asn_nets}

-- A request, statistics of the update channel, a tick of the clock, a name, a client to be blocked,
-- and a blocked autonomous system, each with the readings of the clock.
pub data Event (A G F : Type 0) : Type 0 where
  requests : Bool → Clock → Clock → Time → Request A → Event A G F
  updates : Clock → List (IpStats A F Bytes) → Event A G F
  ticks : Time → (String → Clock) → Event A G F
  names : Option IpResolv → Event A G F
  blocks : Time → Bytes → Option (IpDetails A G F) → Event A G F
  asn_blocks : Clock → Event A G F

module _ {M W S A G F : Type 0} where
  abbrev pub handled_to : Option (Handled M W S A G F) → Option (Botex M W S A G F)
  handled_to none = none
  handled_to (some h) = some h.botex

  abbrev pub changed_to :
      Botex M W S A G F → Option (Changed M W A G F) → Option (Botex M W S A G F)
  changed_to b none = none
  changed_to b (some c) = some (record b { history = c.history })

module _ {M W S R N A G F C P : Type 0} ⦃tm : Treemap M ℕ⦄ ⦃wm : Treemap W StatsWindows.Stats⦄
    ⦃kv : KvStore S⦄ (env : Env R N A F) (net : Net A G)
    (encode : StatsWindows.Stats → Option Bytes) (registry : Registry A N) (codec : Codec A F C N P)
    (text_of : Bytes → String) (city : G → C) where
  unfoldable pub step : Event A G F → Botex M W S A G F → Option (Botex M W S A G F)
  step (requests closed created clock now r) b =
      handled_to (handle_request env net encode closed created clock now r b)
  step (updates clock sts) b = changed_to b (History.update env net false clock sts b.history)
  step (ticks now clocks) b = some (record b { history = (History.expire now clocks b.history).0 })
  step (names rip) b = some (take_name env.float net rip b).0
  step (blocks now ip left) b = block_one net codec text_of city now ip left b
  step (asn_blocks clock) b = changed_to b (block_asn_nets env net registry codec clock b)

  -- The state after all events, or none if one of them has ended the program.
  unfoldable pub run : List (Event A G F) → Botex M W S A G F → Option (Botex M W S A G F)
  unfolding step
  run [] b = some b
  run (e ∷ events) b = elim (step e b) [ none ↦ none | some b' ↦ run events b' ]
