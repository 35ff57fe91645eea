-- ===== src/Botex/Arrivals.antt =====
-- botex.go: HandleRequest, for a client that is new and for one that is not.
use mathlib.Core.Option.{some-injective, none-ne-some}
use botex.Prelude.{
  ℕ, ◌≡◌, ◌⊎◌, inl, inr, refl, subst, ◌∙◌, String, Option, none, some, Bool, lookup, eq_iff,
}
use botex.Data.{Bytes, Request}
use botex.Treemap.{Treemap}
use botex.Window.{Time}
use botex.MapWindow.{Clock}
use botex.Store.{KvStore}
use botex.StatsWindows
use botex.IpData.{Env, IpData}
use botex.History.{Net, History, Added}
use botex.History.Clients.{Placed, add_lem}
use botex.Botex.{Botex, Handled, time_of, after_add, handle_request}

module _ {M W S R N A G F : Type 0} ⦃tm : Treemap M ℕ⦄ ⦃wm : Treemap W StatsWindows.Stats⦄
    ⦃kv : KvStore S⦄ (env : Env R N A F) (net : Net A G)
    (encode : StatsWindows.Stats → Option Bytes) where
  -- There was a client, and nothing is announced, or there was none, and the client that the map
  -- then has is announced.
  abbrev pub IsAnnounced : String → History M W A G F → Handled M W S A G F → Type 0
  IsAnnounced key before out =
      ((c : IpData M A G F) × (lookup key before.clients ≡ some c) × (out.new_ip ≡ none))
      ⊎ ((lookup key before.clients ≡ none)
          × ((c : IpData M A G F) × (out.new_ip ≡ some c)
              × (lookup key out.botex.history.clients ≡ some c)))

  after_add-IsAnnounced :
      (closed : Bool) (created clock : Clock) (b : Botex M W S A G F) (r : Request A) (ip : Bytes)
      (added : Option (Added M W S A G F)) (out : Handled M W S A G F)
      → ((a : Added M W S A G F)
          → added ≡ some a
          → Placed env net encode closed created clock r ip b.history a)
      → after_add net b r added ≡ some out
      → IsAnnounced (net.ip_string ip) b.history out
  unfolding after_add
  after_add-IsAnnounced closed created clock b r ip none out placed run =
      absurd (none-ne-some out run)
  after_add-IsAnnounced closed created clock b r ip (some a) out placed run =
      let (held, before, client, others) = placed a refl in
      let own : lookup (net.ip_string ip) a.history.clients ≡ a.client =
        others (net.ip_string ip)
        ∙ rw ((eq_iff (net.ip_string ip) (net.ip_string ip)).1 refl) refl in
      subst (IsAnnounced (net.ip_string ip) b.history) (some-injective _ _ run) (elim before [
        | inl (there, old) ↦ inl (held, there, rw old refl)
        | inr (gone, made, new) ↦ inr (gone, (_, rw new client, own ∙ client))
      ])

  -- HandleRequest of a request with an address: NewIP is sent exactly if there was no client under
  -- the address, and with the client that is there afterwards.
  pub handle_request-IsAnnounced :
      (closed : Bool) (created clock : Clock) (now : Time) (r : Request A) (b : Botex M W S A G F)
      (out : Handled M W S A G F) (ip : Bytes)
      → net.parse_ip r.source ≡ some ip
      → handle_request env net encode closed created clock now r b ≡ some out
      → IsAnnounced (net.ip_string ip) b.history out
  unfolding handle_request
  handle_request-IsAnnounced closed created clock now r b out ip parsed run =
      after_add-IsAnnounced closed created clock b (record r { time = time_of r.timestamp }) ip _
        out
        (λ a e.
          add_lem env net encode closed created clock now (record r { time = time_of r.timestamp })
            b.blocked.store b.history a ip parsed e)
        run
