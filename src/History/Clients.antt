-- ===== src/History/Clients.antt =====
-- The map of clients, as requests arrive and expire.
use mathlib.Core.Option.{some-injective, none-ne-some}
use botex.Prelude.{
  ℕ, ◌≡◌, ◌⊎◌, inl, inr, refl, ◌∙◌, String, Option, none, some, Option-cases, subst, Bool, true,
  false, if◌then◌else◌, lookup, lookup-insert, str_eq,
}
use botex.Data.{Bytes, Request}
use botex.Treemap.{Treemap}
use botex.Window.{Time}
use botex.MapWindow.{Clock}
use botex.Store.{KvStore}
use botex.StatsWindows
use botex.IpData.{Env, IpData, new_ip_data}
use botex.IpData
use botex.History.{Net, History, Added, add, add_to, add_found, find_or_new}

module _ {M W R N A G F : Type 0} ⦃tm : Treemap M ℕ⦄ (env : Env R N A F) (net : Net A G) where
  -- A request's client before it: the one of the map, or a new one.
  abbrev pub IsClient : Clock → Bytes → History M W A G F → IpData M A G F → Bool → Type 0
  IsClient created ip h held is_new =
      ((lookup (net.ip_string ip) h.clients ≡ some held) × (is_new ≡ false))
      ⊎ ((lookup (net.ip_string ip) h.clients ≡ none)
          × (new_ip_data env created ip (net.find_asn ip) (net.find_geo ip) ≡ some held)
          × (is_new ≡ true))

  pub find_or_new_lem :
      (created : Clock) (ip : Bytes) (h : History M W A G F) (held : IpData M A G F) (is_new : Bool)
      → find_or_new env net created ip h ≡ some (held, is_new)
      → IsClient created ip h held is_new
  unfolding find_or_new
  find_or_new_lem created ip h held is_new run =
      elim (Option-cases (lookup (net.ip_string ip) h.clients)) [
        | inr (ipd, e) ↦
            let k : ◌≡◌ {A = Option (IpData M A G F × Bool)} (some (ipd, false))
                (some (held, is_new)) =
              rw (e, find_or_new) at run in
            inl (e ∙ cc, cc)
        | inl e ↦
            elim (Option-cases {A = IpData M A G F}
              (new_ip_data env created ip (net.find_asn ip) (net.find_geo ip))) [
                | inl f ↦
                    let k : ◌≡◌ {A = Option (IpData M A G F × Bool)} none (some (held, is_new)) =
                      rw f at (rw (e, find_or_new) at run) in
                    cc
                | inr (ipd, f) ↦
                    let k : ◌≡◌ {A = Option (IpData M A G F × Bool)} (some (ipd, true))
                        (some (held, is_new)) =
                      rw f at (rw (e, find_or_new) at run) in
                    inr (e, f ∙ cc, cc)
              ]
      ]

module _ {M W S R N A G F : Type 0} ⦃tm : Treemap M ℕ⦄ ⦃wm : Treemap W StatsWindows.Stats⦄
    ⦃kv : KvStore S⦄ (env : Env R N A F) (net : Net A G)
    (encode : StatsWindows.Stats → Option Bytes) where
  abbrev pub Placed :
      Bool → Clock → Clock → Request A → Bytes → History M W A G F → Added M W S A G F → Type 0
  Placed closed created clock r ip h out =
      (held : IpData M A G F) × IsClient env net created ip h held out.is_new
      × (out.client ≡ some (IpData.add env.float closed clock held r).0)
      × ((other : String)
          → lookup other out.history.clients
            ≡ (if str_eq (net.ip_string ip) other then out.client else lookup other h.clients))

  add_to-Placed :
      (closed : Bool) (created clock : Clock) (now : Time) (r : Request A) (store : S)
      (h : History M W A G F) (ip : Bytes) (held : IpData M A G F) (is_new : Bool)
      → IsClient env net created ip h held is_new
      → Placed closed created clock r ip h
          (add_to env net encode closed clock now r (net.ip_string ip) held is_new store h)
  unfolding add_to
  add_to-Placed closed created clock now r store h ip held is_new before =
      (held, before, refl, λ other. lookup-insert (net.ip_string ip) other _ h.clients)

  add_found-Placed :
      (closed : Bool) (created clock : Clock) (now : Time) (r : Request A) (store : S)
      (h : History M W A G F) (out : Added M W S A G F) (ip : Bytes)
      (found : Option (IpData M A G F × Bool))
      → find_or_new env net created ip h ≡ found
      → add_found env net encode closed clock now r (net.ip_string ip) store h found ≡ some out
      → Placed closed created clock r ip h out
  unfolding add_found
  add_found-Placed closed created clock now r store h out ip none e run =
      absurd (none-ne-some out run)
  add_found-Placed closed created clock now r store h out ip (some (held, is_new)) e run =
      subst (Placed closed created clock r ip h) (some-injective _ _ run) (
        add_to-Placed closed created clock now r store h ip held is_new
          (find_or_new_lem env net created ip h held is_new e))

  -- Add of a request with an address: there was a client under the address, or a new one is made,
  -- the second just if the call says so. The client that the call returns is that one after its own
  -- Add of the request. It stands under the address; every other key has the client it had.
  pub add_lem :
      (closed : Bool) (created clock : Clock) (now : Time) (r : Request A) (store : S)
      (h : History M W A G F) (out : Added M W S A G F) (ip : Bytes)
      → net.parse_ip r.source ≡ some ip
      → add env net encode closed created clock now r store h ≡ some out
      → (held : IpData M A G F) × IsClient env net created ip h held out.is_new
        × (out.client ≡ some (IpData.add env.float closed clock held r).0)
        × ((other : String)
            → lookup other out.history.clients
              ≡ (if str_eq (net.ip_string ip) other then out.client else lookup other h.clients))
  unfolding add
  add_lem closed created clock now r store h out ip parsed run =
      add_found-Placed closed created clock now r store h out ip _ refl (rw (parsed, add) at run)
