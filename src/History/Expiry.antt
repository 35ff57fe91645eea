-- ===== src/History/Expiry.antt =====
-- Which clients a tick of the clock removes.
use mathlib.Core.Option.{some-injective, none-ne-some}
use botex.Prelude.{
  ◌≢◌, some, subst, sym, lookup, str_eq, eq_iff, ℕ, ◌+◌, ◌≡◌, refl, ap, ◌∙◌, String, Bool,
  Bool-cases, inl, inr, true, false, not, ◌&&◌, List, [], ◌∷◌, ltb, ◌==◌, if◌then◌else◌, arith, map,
  select,
}
use botex.Treemap.{Treemap}
use botex.Window.{Time, Duration}
use botex.MapWindow.{Clock}
use botex.Requests
use botex.Requests.{can_be_expired}
use botex.Requests.Balance.{Hit, recent_hits, Balanced, expire-stale}
use botex.IpData.{IpData}
use botex.IpData
use botex.StatsWindows
use botex.History.{History, expire_clients}
use botex.History
use botex.History.Updates.{Entry}

module _ {M A G F : Type 0} ⦃tm : Treemap M ℕ⦄ (clocks : String → Clock) where
  -- The windows of the client are due, and nothing is left in them.
  abbrev pub is_gone : Entry M A G F → Bool
  is_gone e =
      can_be_expired (clocks e.0 0) e.1.requests
      && (IpData.expire (λ i. clocks e.0 (i + 1)) e.1).1 == 0

  -- A client after the tick.
  abbrev pub settle : Entry M A G F → Entry M A G F
  settle e = (
    e.0,
    if can_be_expired (clocks e.0 0) e.1.requests
        then (IpData.expire (λ i. clocks e.0 (i + 1)) e.1).0
        else e.1,
  )

  expire_clients_lem :
      (clients : List (Entry M A G F))
      → ((expire_clients clocks clients).0 ≡ map settle (select (λ e. not (is_gone e)) clients))
        × ((expire_clients clocks clients).1 ≡ map (λ e. e.0) (select is_gone clients))
  unfolding expire_clients
  expire_clients_lem [] = (refl, refl)
  expire_clients_lem ((key, ipd) ∷ rest) =
      let (left, gone) = expire_clients_lem rest in
      elim (Bool-cases (can_be_expired (clocks key 0) ipd.requests)) [
        | inr e ↦ rw e (rw left (rw e refl), gone)
        | inl e ↦ elim (Bool-cases (ltb 0 (IpData.expire (λ i. clocks key (i + 1)) ipd).1)) [
          | inl f ↦
              let held : ((IpData.expire (λ i. clocks key (i + 1)) ipd).1 == 0) ≡ false =
                ground (arith, f) in
              rw e (rw f (rw held (rw left (rw e refl), gone)))
          | inr f ↦
              let empty : ((IpData.expire (λ i. clocks key (i + 1)) ipd).1 == 0) ≡ true =
                ground (arith, f) in
              rw e (rw f (rw empty (left, rw gone refl)))
        ]
      ]

  lookup-head :
      (key : String) (ipd : IpData M A G F) (rest : List (Entry M A G F))
      → is_gone (key, ipd) ≡ false
      → lookup key (map settle (select (λ e. not (is_gone e)) ((key, ipd) ∷ rest)))
        ≡ some (settle (key, ipd)).1
  unfolding lookup
  lookup-head key ipd rest stays = rw stays (rw ((eq_iff key key).1 refl) refl)

  is_gone-stale :
      (size : Duration) (num : ℕ) (key : String) (ipd : IpData M A G F) (hs : List Hit) (t : Time)
      → ((i : ℕ) → clocks key i ≡ t)
      → Balanced size num hs ipd.requests
      → is_gone (key, ipd) ≡ true
      → recent_hits t size num hs ≡ []
  unfolding IpData.expire
  is_gone-stale size num key ipd hs t still b gone =
      let due : can_be_expired (clocks key 0) ipd.requests ≡ true = ground (arith, gone) in
      let empty : (Requests.expire (λ i. clocks key (i + 1)) ipd.requests).1 ≡ 0 =
        ground (arith, gone) in
      expire-stale size num (λ i. clocks key (i + 1)) t hs ipd.requests (λ i. still (i + 1)) b
        (ap (λ t. can_be_expired t ipd.requests) (sym (still 0)) ∙ due) empty

  lookup-settle :
      (key : String) (ipd : IpData M A G F) (clients : List (Entry M A G F))
      → lookup key clients ≡ some ipd
      → is_gone (key, ipd) ≡ false
      → lookup key (map settle (select (λ e. not (is_gone e)) clients)) ≡ some (settle (key, ipd)).1
  unfolding lookup
  lookup-settle key ipd [] h stays = absurd (none-ne-some ipd h)
  lookup-settle key ipd ((held, old) ∷ rest) h stays = elim (Bool-cases (str_eq held key)) [
    | inl f ↦
        let same : ◌≡◌ {A = Entry M A G F} (held, old) (key, ipd) =
          cc ((eq_iff held key).0 f, some-injective _ _ (rw f at h)) in
        subst
          (λ e.
            lookup key (map settle (select (λ e. not (is_gone e)) (e ∷ rest)))
            ≡ some (settle (key, ipd)).1)
          (sym same) (lookup-head key ipd rest stays)
    | inr f ↦ elim (Bool-cases (is_gone (held, old))) [
      | inl g ↦ rw g (lookup-settle key ipd rest (rw f at h) stays)
      | inr g ↦ rw g (rw f (lookup-settle key ipd rest (rw f at h) stays))
    ]
  ]

module _ {M W A G F : Type 0} ⦃tm : Treemap M ℕ⦄ ⦃wm : Treemap W StatsWindows.Stats⦄ (now : Time)
    (clocks : String → Clock) (h : History M W A G F) where
  -- `expire`: the clients that are due and have nothing left in their windows are removed, and their
  -- keys are those that are announced; every other client stays, expired if it is due.
  pub expire_lem :
      ((History.expire now clocks h).0.clients
        ≡ map (settle clocks) (select (λ e. not (is_gone clocks e)) h.clients))
      × ((History.expire now clocks h).1 ≡ map (λ e. e.0) (select (is_gone clocks) h.clients))
  unfolding History.expire
  expire_lem = expire_clients_lem clocks h.clients

  -- A client whose windows count the hits `hs`, of which some are in recent buckets, is still there
  -- after a tick whose clock stands still for it, expired if it is due.
  pub expire-keeps_recent :
      (size : Duration) (num : ℕ) (key : String) (ipd : IpData M A G F) (hs : List Hit) (t : Time)
      → lookup key h.clients ≡ some ipd
      → ((i : ℕ) → clocks key i ≡ t)
      → Balanced size num hs ipd.requests
      → recent_hits t size num hs ≢ []
      → lookup key (History.expire now clocks h).0.clients ≡ some (settle clocks (key, ipd)).1
  expire-keeps_recent size num key ipd hs t there still b recent =
      elim (Bool-cases (is_gone clocks (key, ipd))) [
        | inl e ↦ absurd (recent (is_gone-stale clocks size num key ipd hs t still b e))
        | inr e ↦ rw expire_lem.0 (lookup-settle clocks key ipd h.clients there e)
      ]
