-- ===== src/IpData/Cooldown.antt =====
-- How often a client is sent to be blocked.
use botex.Prelude.{
  String, ℕ, ◌+◌, ◌<◌, ◌≡◌, ◌⊎◌, inl, inr, refl, subst, ◌∙◌, Option, none, some, Option-cases, Bool,
  true, false, ◌&&◌, ◌||◌, List, [], ◌∷◌, arith, Bool-cases,
}
use botex.Data.{Bytes, Request, IpStats}
use botex.Treemap.{Treemap}
use botex.Window.{Time, Duration}
use botex.MapWindow.{Clock}
use botex.Whitelist.{Whitelist}
use botex.IpData.Kept.{should_be_blocked-Keeps}
use botex.IpData.{
  Env, IpData, ShouldBlock, Updated, with_details, should_be_blocked, send_client, send_block,
  take_stats, update, set_hostname, is_due, add,
}

module _ {M R N A G F : Type 0} (env : Env R N A F) where
  -- A call of `Update` that sends the client does so at the instant it records, and if it is not
  -- forced, later than the time to live of a block after the one recorded before.
  abbrev pub IsSpacedFrom : Duration → Bool → Time → Updated M A G F → Type 0
  IsSpacedFrom before force now u =
      ((u.sent ≡ false) × (u.ipd.details.last_block_at ≡ before))
      ⊎ ((u.sent ≡ true)
          × (u.ipd.details.last_block_at ≡ now)
          × (force ≡ false → before + env.config.block_ttl < now))

  send_client-IsSpacedFrom :
      (force : Bool) (now : Time) (s : ShouldBlock M A G F) (u : Updated M A G F) (geo : Option G)
      → send_client force now s geo ≡ some u
      → (force ≡ false → s.ipd.details.last_block_at + env.config.block_ttl < now)
      → IsSpacedFrom s.ipd.details.last_block_at force now u
  unfolding send_client
  send_client-IsSpacedFrom force now s u none h due = absurd (cc)
  send_client-IsSpacedFrom force now s u (some geo) h due = inr (cc, cc, due)

  send_block-IsSpacedFrom :
      (force : Bool) (now : Time) (s : ShouldBlock M A G F) (u : Updated M A G F)
      → send_block env.config force now s ≡ some u
      → IsSpacedFrom s.ipd.details.last_block_at force now u
  unfolding send_block
  send_block-IsSpacedFrom force now s u h =
      elim (Bool-cases (s.blocked && (force || is_due env.config now s.ipd.details))) [
        | inl e ↦
            send_client-IsSpacedFrom force now s u s.ipd.details.geoip (rw (e, send_block) at h)
              (λ f. ground arith)
        | inr e ↦
            let k : ◌≡◌ {A = Option (Updated M A G F)}
                (some (record { ipd = s.ipd; sent = false; resolves = s.resolves })) (some u) =
              rw (e, send_block) at h in
            inl (cc, cc)
      ]

  pub update-IsSpacedFrom :
      (force : Bool) (clock : Clock) (st : IpStats A F Bytes) (ipd : IpData M A G F)
      (u : Updated M A G F)
      → update env force clock st ipd ≡ some u
      → IsSpacedFrom ipd.details.last_block_at force (clock 0) u
  unfolding update
  update-IsSpacedFrom force clock st ipd u h =
      elim (Option-cases (should_be_blocked env (clock 1) (take_stats env st ipd))) [
        | inl e ↦
            absurd
              (let k : ◌≡◌ {A = Option (Updated M A G F)} none (some u) = rw (e, update) at h in cc)
        | inr (s, e) ↦
            subst (λ t. IsSpacedFrom t force (clock 0) u)
              (should_be_blocked-Keeps env (clock 1) (take_stats env st ipd) s e).1
              (send_block-IsSpacedFrom force (clock 0) s u (rw (e, update) at h))
      ]

-- What happens to a client: `Update` under the whitelist and the plugins of that moment, a name, a
-- request, and the flag that the worker sets once the address is on the block list.
pub data Op (R N A F : Type 0) : Type 0 where
  updates :
      Whitelist R N
      → List (IpStats A F Bytes → Option String)
      → Bool
      → Clock
      → IpStats A F Bytes
      → Op R N A F
  names : Bytes → Op R N A F
  adds : Bool → Clock → Request A → Op R N A F
  marks : Op R N A F

-- The instants at which the client was sent, the latest first, and whether that was forced.
abbrev pub Log : Type 0
Log = List (Time × Bool)

abbrev pub latest_of : Time → Log → Time
latest_of start [] = start
latest_of start ((t, f) ∷ log) = t

-- Each block that is not forced comes later than the time to live after the one before it.
abbrev pub IsSpaced : Duration → Time → Log → Type 0
IsSpaced age start [] = Unit {0}
IsSpaced age start ((t, f) ∷ log) =
    (f ≡ false → latest_of start log + age < t) × IsSpaced age start log

abbrev pub log_send : Bool → Time → Bool → Log → Log
log_send true now force log = (now, force) ∷ log
log_send false now force log = log

log_send-IsSpaced :
    (sent force : Bool) (age start before last now : Time) (log : Log)
    → (((sent ≡ false) × (last ≡ before))
        ⊎ ((sent ≡ true) × (last ≡ now) × (force ≡ false → before + age < now)))
    → before ≡ latest_of start log
    → IsSpaced age start log
    → (last ≡ latest_of start (log_send sent now force log))
      × IsSpaced age start (log_send sent now force log)
log_send-IsSpaced true force age start before last now log (inl p) l s = absurd (cc)
log_send-IsSpaced true force age start before last now log (inr p) l s =
    (p.1, (λ f. let d = p.2 f in omega (arith, l), s))
log_send-IsSpaced false force age start before last now log (inl p) l s = (p.1 ∙ l, s)
log_send-IsSpaced false force age start before last now log (inr p) l s = absurd (cc)

module _ {M R N A G F : Type 0} ⦃tm : Treemap M ℕ⦄ (env : Env R N A F) where
  -- `none` once the program has ended.
  unfoldable pub step : Op R N A F → IpData M A G F × Log → Option (IpData M A G F × Log)
  step (updates wl plugins force clock st) (ipd, log) =
      elim (update (record env { whitelist = wl; plugins = plugins }) force clock st ipd) [
        | none ↦ none
        | some u ↦ some (u.ipd, log_send u.sent (clock 0) force log)
      ]
  step (names host) (ipd, log) = some ((set_hostname env.float host ipd).0, log)
  step (adds closed clock req) (ipd, log) =
      let (ipd', decision, sent) = add env.float closed clock ipd req in some (ipd', log)
  step marks (ipd, log) = some (with_details ipd (record ipd.details { is_blocked = true }), log)

  -- The operations, the latest first.
  unfoldable pub run : List (Op R N A F) → IpData M A G F → Option (IpData M A G F × Log)
  run [] ipd = some (ipd, [])
  run (op ∷ ops) ipd = elim (run ops ipd) [ none ↦ none | some s ↦ step op s ]

  step-IsSpaced :
      (start : Time) (op : Op R N A F) (ipd ipd' : IpData M A G F) (log log' : Log)
      → step op (ipd, log) ≡ some (ipd', log')
      → ipd.details.last_block_at ≡ latest_of start log
      → IsSpaced env.config.block_ttl start log
      → (ipd'.details.last_block_at ≡ latest_of start log')
        × IsSpaced env.config.block_ttl start log'
  unfolding step set_hostname add
  step-IsSpaced start (updates wl plugins force clock st) ipd ipd' log log' h l s =
      let env' = record env { whitelist = wl; plugins = plugins } in
      elim (Option-cases (update env' force clock st ipd)) [
        | inl e ↦ absurd (
            let k : ◌≡◌ {A = Option (IpData M A G F × Log)} none (some (ipd', log')) =
              rw (e, step) at h in
            cc)
        | inr (u, e) ↦
            let k : ◌≡◌ {A = Option (IpData M A G F × Log)}
                (some (u.ipd, log_send u.sent (clock 0) force log)) (some (ipd', log')) =
              rw (e, step) at h in
            let same : ◌≡◌ {A = IpData M A G F × Log} (u.ipd, log_send u.sent (clock 0) force log)
                (ipd', log') =
              cc in
            let spaced = update-IsSpacedFrom env' force clock st ipd u e in
            subst
              (λ (p : IpData M A G F × Log).
                (p.0.details.last_block_at ≡ latest_of start p.1)
                × IsSpaced env.config.block_ttl start p.1)
              same
              (log_send-IsSpaced u.sent force env.config.block_ttl start ipd.details.last_block_at
                u.ipd.details.last_block_at (clock 0) log spaced l s)
      ]
  step-IsSpaced start (names host) ipd ipd' log log' h l s = (cc, ground arith)
  step-IsSpaced start (adds closed clock req) ipd ipd' log log' h l s = (cc, ground arith)
  step-IsSpaced start marks ipd ipd' log log' h l s = (cc, ground arith)

  -- Whatever happens to a client while the program runs, in any order, whatever the whitelist and
  -- the plugins are in each call: two times at which it is sent to be blocked, the later of which is
  -- not forced, are more than the time to live of a block apart. The first is as far from the block
  -- that the client starts with.
  pub run-IsSpaced :
      (ops : List (Op R N A F)) (ipd ipd' : IpData M A G F) (log : Log)
      → run ops ipd ≡ some (ipd', log)
      → IsSpaced env.config.block_ttl ipd.details.last_block_at log
        × (ipd'.details.last_block_at ≡ latest_of ipd.details.last_block_at log)
  unfolding run
  run-IsSpaced [] ipd ipd' log h =
      let k : ◌≡◌ {A = IpData M A G F × Log} (ipd, []) (ipd', log) = cc in
      subst
        (λ (p : IpData M A G F × Log).
          IsSpaced env.config.block_ttl ipd.details.last_block_at p.1
          × (p.0.details.last_block_at ≡ latest_of ipd.details.last_block_at p.1))
        k (tt, refl)
  run-IsSpaced (op ∷ ops) ipd ipd' log h = elim (Option-cases (run ops ipd)) [
    | inl e ↦ absurd (
        let k : ◌≡◌ {A = Option (IpData M A G F × Log)} none (some (ipd', log)) =
          rw (e, run) at h in
        cc)
    | inr ((mid, before), e) ↦
        let (spaced, latest) = run-IsSpaced ops ipd mid before e in
        let (last, all) =
          step-IsSpaced ipd.details.last_block_at op mid ipd' before log (rw (e, run) at h) latest
            spaced in
        (all, last)
  ]
