-- ===== src/Botex/Clients.antt =====
-- A statement about every client and its key, through the calls on the map of clients.
use mathlib.Core.Option.{some-injective, none-ne-some}
use botex.Prelude.{
  ℕ, ◌+◌, ◌≡◌, inl, inr, refl, subst, String, Option, none, some, Option-cases, Bool, Bool-cases,
  List, [], ◌∷◌, All, lookup, insert, str_eq, eq_iff, ltb,
}
use botex.Data.{Bytes, Request, IpStats}
use botex.Treemap.{Treemap}
use botex.Window.{Time}
use botex.MapWindow.{Clock}
use botex.Store.{KvStore}
use botex.StatsWindows
use botex.IpData.{Env, IpData, Updated, with_details, blank, with_verdict, new_ip_data}
use botex.IpData
use botex.Requests.{can_be_expired}
use botex.Block.{Block, Codec}
use botex.Botex.{Attempt, block_client}
use botex.History.{
  Net, History, Added, Changed, Effects, put_client, no_effects, expire_clients, find_or_new,
  take_update, update_one, update_from, add, add_found, add_to,
}
use botex.History.Clients.{IsClient, find_or_new_lem}
use botex.History

-- What a statement about a key and its client has to survive. `Still` is what is asked of the
-- clock of a request or a tick.
pub record Survives (S : Type 0) {M R N A G F C P : Type 0} ⦃tm : Treemap M ℕ⦄ ⦃kv : KvStore S⦄
    (env : Env R N A F) (net : Net A G) (codec : Codec A F C N P) (text_of : Bytes → String)
    (city : G → C) (Still : Clock → Type 0) (Q : String → IpData M A G F → Type 0) : Type 0 where
  pub made :
      (created : Clock) (ip : Bytes) (asn : Option A) (geo : Option G) (ipd : IpData M A G F)
      → new_ip_data env created ip asn geo ≡ some ipd
      → Q (net.ip_string ip) ipd
  pub added :
      (closed : Bool) (clock : Clock) (key : String) (ipd : IpData M A G F) (r : Request A)
      → Still clock
      → Q key ipd
      → Q key (IpData.add env.float closed clock ipd r).0
  pub expired :
      (clock : Clock) (key : String) (ipd : IpData M A G F)
      → Still clock
      → Q key ipd
      → Q key (IpData.expire (λ i. clock (i + 1)) ipd).0
  pub updated :
      (force : Bool) (clock : Clock) (st : IpStats A F Bytes) (key : String) (old : IpData M A G F)
      (u : Updated M A G F)
      → Q key old
      → IpData.update env force clock st old ≡ some u
      → Q key u.ipd
  pub named :
      (hostname : Bytes) (key : String) (ipd : IpData M A G F)
      → Q key ipd
      → Q key (IpData.set_hostname env.float hostname ipd).0
  pub attempted :
      (now : Time) (b : Block S) (key : String) (ipd : IpData M A G F) (a : Attempt S A G F C)
      → Q key ipd
      → block_client codec text_of city now b ipd.details ≡ some a
      → Q key (with_details ipd a.details)

module _ {M A G F : Type 0} (Q : String → IpData M A G F → Type 0) where
  abbrev pub Holds : String × IpData M A G F → Type 0
  Holds e = Q e.0 e.1

  insert-Holds :
      (key : String) (ipd : IpData M A G F) (clients : List (String × IpData M A G F))
      → Q key ipd
      → All Holds clients
      → All Holds (insert key ipd clients)
  unfolding insert
  insert-Holds key ipd [] q all = (q, tt)
  insert-Holds key ipd ((held, old) ∷ rest) q (own, all) = elim (Bool-cases (str_eq held key)) [
    | inl f ↦ rw f (q, all)
    | inr f ↦ rw f (own, insert-Holds key ipd rest q all)
  ]

  pub lookup-Holds :
      (key : String) (ipd : IpData M A G F) (clients : List (String × IpData M A G F))
      → All Holds clients
      → lookup key clients ≡ some ipd
      → Q key ipd
  unfolding lookup
  lookup-Holds key ipd [] all h = absurd (none-ne-some ipd h)
  lookup-Holds key ipd ((held, old) ∷ rest) (own, all) h = elim (Bool-cases (str_eq held key)) [
    | inl f ↦
        subst (λ k. Q k ipd) ((eq_iff held key).0 f)
          (subst (Q held) (some-injective _ _ (rw f at h)) own)
    | inr f ↦ lookup-Holds key ipd rest all (rw f at h)
  ]

  pub put-Holds :
      {W : Type 0} (h : History M W A G F) (key : String) (ipd : IpData M A G F)
      → All Holds h.clients
      → Q key ipd
      → All Holds (put_client h key ipd).clients
  put-Holds h key ipd all q = insert-Holds key ipd h.clients q all

module _ {M S R N A G F C P : Type 0} ⦃tm : Treemap M ℕ⦄ ⦃kv : KvStore S⦄ {env : Env R N A F}
    {net : Net A G} {codec : Codec A F C N P} {text_of : Bytes → String} {city : G → C}
    {Still : Clock → Type 0} {Q : String → IpData M A G F → Type 0}
    (survives : Survives S env net codec text_of city Still Q) where
  pub expire_clients-Holds :
      (clocks : String → Clock) (clients : List (String × IpData M A G F))
      → ((key : String) → Still (clocks key))
      → All (Holds Q) clients
      → All (Holds Q) (expire_clients clocks clients).0
  unfolding expire_clients
  expire_clients-Holds clocks [] still all = tt
  expire_clients-Holds clocks ((key, ipd) ∷ rest) still (own, all) =
      let left = expire_clients-Holds clocks rest still all in
      let clock = clocks key in
      elim (Bool-cases (can_be_expired (clock 0) ipd.requests)) [
        | inr e ↦ rw e (own, left)
        | inl e ↦ elim (Bool-cases (ltb 0 (IpData.expire (λ i. clock (i + 1)) ipd).1)) [
          | inl f ↦ rw (e, f) (survives.expired clock key ipd (still key) own, left)
          | inr f ↦ rw (e, f) left
        ]
      ]

  take_update-Holds :
      {W : Type 0} (h : History M W A G F) (effects : Effects) (ip : Bytes)
      (result : Option (Updated M A G F)) (c : Changed M W A G F)
      → All (Holds Q) h.clients
      → ((u : Updated M A G F) → result ≡ some u → Q (net.ip_string ip) u.ipd)
      → take_update env net h effects ip result ≡ some c
      → All (Holds Q) c.history.clients
  unfolding take_update
  take_update-Holds h effects ip none c all q run = absurd (none-ne-some c run)
  take_update-Holds {W = W} h effects ip (some u) c all q run =
      subst (λ (c : Changed M W A G F). All (Holds Q) c.history.clients) (some-injective _ _ run)
        (put-Holds Q h (net.ip_string ip) u.ipd all (q u refl))

  update_one-Holds :
      {W : Type 0} (force : Bool) (clock : Clock) (st : IpStats A F Bytes) (h : History M W A G F)
      (effects : Effects) (c : Changed M W A G F)
      → All (Holds Q) h.clients
      → update_one env net force clock st h effects ≡ some (some c)
      → All (Holds Q) c.history.clients
  unfolding update_one
  update_one-Holds force clock st h effects c all run =
      let key = net.ip_string st.ip in
      elim (Option-cases (lookup key h.clients)) [
        | inl e ↦ absurd (none-ne-some _ (rw (e, update_one) at run))
        | inr (old, e) ↦ elim (Bool-cases (ltb 0 st.total)) [
          | inr f ↦ absurd (none-ne-some _ (rw f at (rw (e, update_one) at run)))
          | inl f ↦
              take_update-Holds h effects st.ip (IpData.update env force clock st old) c all
                (λ u.
                  survives.updated force clock st key old u
                    (lookup-Holds Q key old h.clients all e))
                (some-injective _ _ (rw f at (rw (e, update_one) at run)))
        ]
      ]

  update_from-Holds :
      {W : Type 0} (force : Bool) (clock : Clock) (sts : List (IpStats A F Bytes))
      (h : History M W A G F) (effects : Effects) (c : Changed M W A G F)
      → All (Holds Q) h.clients
      → update_from env net force clock sts h effects ≡ some c
      → All (Holds Q) c.history.clients
  unfolding update_from
  update_from-Holds {W = W} force clock [] h effects c all run =
      subst (λ (c : Changed M W A G F). All (Holds Q) c.history.clients) (some-injective _ _ run)
        all
  update_from-Holds {W = W} force clock (st ∷ sts) h effects c all run =
      elim (Option-cases (update_one env net force clock st h effects)) [
        | inl e ↦
            subst (λ (c : Changed M W A G F). All (Holds Q) c.history.clients)
              (some-injective _ _ (rw (e, update_from) at run)) all
        | inr (none, e) ↦ absurd (none-ne-some c (rw (e, update_from) at run))
        | inr (some mid, e) ↦
            update_from-Holds force (λ i. clock (i + 2)) sts mid.history mid.effects c
              (update_one-Holds force clock st h effects mid all e) (rw (e, update_from) at run)
      ]

  pub update-Holds :
      {W : Type 0} (force : Bool) (clock : Clock) (sts : List (IpStats A F Bytes))
      (h : History M W A G F) (c : Changed M W A G F)
      → All (Holds Q) h.clients
      → History.update env net force clock sts h ≡ some c
      → All (Holds Q) c.history.clients
  unfolding History.update
  update-Holds force clock sts h c all run =
      update_from-Holds force clock sts h no_effects c all run

  pub set_hostname-Holds :
      {W : Type 0} (ip hostname : Bytes) (h : History M W A G F)
      → All (Holds Q) h.clients
      → All (Holds Q) (History.set_hostname env.float net ip hostname h).0.clients
  unfolding History.set_hostname
  set_hostname-Holds ip hostname h all =
      let key = net.ip_string ip in
      elim (Option-cases (lookup key h.clients)) [
        | inl e ↦ rw (e, History.set_hostname) all
        | inr (old, e) ↦
            rw (e, History.set_hostname)
              (put-Holds Q h key _ all
                (survives.named hostname key old (lookup-Holds Q key old h.clients all e)))
      ]

  -- The client that a request finds, or makes.
  IsClient-Holds :
      {W : Type 0} (created : Clock) (ip : Bytes) (h : History M W A G F) (held : IpData M A G F)
      (is_new : Bool)
      → All (Holds Q) h.clients
      → IsClient env net created ip h held is_new
      → Q (net.ip_string ip) held
  IsClient-Holds created ip h held is_new all (inl (there, e)) =
      lookup-Holds Q (net.ip_string ip) held h.clients all there
  IsClient-Holds created ip h held is_new all (inr (gone, made, e)) =
      survives.made created ip (net.find_asn ip) (net.find_geo ip) held made

  module _ {W : Type 0} ⦃wm : Treemap W StatsWindows.Stats⦄
      (encode : StatsWindows.Stats → Option Bytes) where
    add_found-Holds :
        (closed : Bool) (created clock : Clock) (now : Time) (r : Request A) (store : S)
        (h : History M W A G F) (out : Added M W S A G F) (ip : Bytes)
        (found : Option (IpData M A G F × Bool))
        → Still clock
        → All (Holds Q) h.clients
        → find_or_new env net created ip h ≡ found
        → add_found env net encode closed clock now r (net.ip_string ip) store h found ≡ some out
        → All (Holds Q) out.history.clients
    unfolding add_found add_to
    add_found-Holds closed created clock now r store h out ip none still all e run =
        absurd (none-ne-some out run)
    add_found-Holds closed created clock now r store h out ip (some (held, is_new)) still all e
          run =
        let key = net.ip_string ip in
        subst (λ (out : Added M W S A G F). All (Holds Q) out.history.clients)
          (some-injective _ _ run)
          (insert-Holds Q key _ h.clients
            (survives.added closed clock key held r still (
              IsClient-Holds created ip h held is_new all
                (find_or_new_lem env net created ip h held is_new e)))
            all)

    pub add-Holds :
        (closed : Bool) (created clock : Clock) (now : Time) (r : Request A) (store : S)
        (h : History M W A G F) (out : Added M W S A G F)
        → Still clock
        → All (Holds Q) h.clients
        → History.add env net encode closed created clock now r store h ≡ some out
        → All (Holds Q) out.history.clients
    unfolding History.add
    add-Holds closed created clock now r store h out still all run =
        elim (Option-cases (net.parse_ip r.source)) [
          | inl e ↦
              subst (λ (out : Added M W S A G F). All (Holds Q) out.history.clients)
                (some-injective _ _ (rw (e, History.add) at run)) all
          | inr (ip, e) ↦
              add_found-Holds closed created clock now r store h out ip _ still all refl
                (rw (e, History.add) at run)
        ]
