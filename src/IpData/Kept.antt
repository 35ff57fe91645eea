-- ===== src/IpData/Kept.antt =====
-- What the methods of a client leave as it is: its address and its requests, and until it is sent to be blocked the
-- instant of its latest block.
use mathlib.Core.Option.{some-injective, none-ne-some}
use botex.Prelude.{
  String, ℕ, ◌+◌, ◌≡◌, inl, inr, refl, ap, sym, subst, ◌∙◌, Option, none, some, Option-cases, Bool,
  true, false, ◌&&◌, ◌||◌, [], Bool-cases,
}
use botex.Data.{Bytes, IpStats}
use botex.Treemap.{Treemap}
use botex.Window.{Time}
use botex.MapWindow.{Clock}
use botex.Store.Prefix.{bytes_eq}
use botex.Whitelist.{IpDetails, Verdict, whitelisted_by, not_whitelisted, nil_asn}
use botex.Whitelist
use botex.Requests.{Requests, new_requests}
use botex.IpData.{
  Config, Env, IpData, ShouldBlock, Updated, with_details, resolve_first, blocked_for, is_exempt,
  is_due, reason_to_block, block_unless_whitelisted, should_be_blocked, send_client, send_block,
  take_stats, update, blank, with_verdict, new_ip_data,
}

-- The address of a client, and its requests.
abbrev pub core : {M A G F : Type 0} → IpData M A G F → Bytes × Requests M Bytes A
core ipd = (ipd.details.ip, ipd.requests)

-- The second client has the address, the requests and the latest block of the first.
abbrev pub Keeps : {M A G F : Type 0} → IpData M A G F → IpData M A G F → Type 0
Keeps old new = (core new ≡ core old) × (new.details.last_block_at ≡ old.details.last_block_at)

module _ {M A G F : Type 0} where
  resolve_first-Keeps : (ipd : IpData M A G F) (b : Bool) → Keeps ipd (resolve_first ipd b).ipd
  unfolding resolve_first
  resolve_first-Keeps ipd b = elim (Bool-cases (b && bytes_eq ipd.details.hostname [])) [
    | inl e ↦ rw e (refl, refl)
    | inr e ↦ rw e (refl, refl)
  ]

  blocked_for-Keeps : (ipd : IpData M A G F) (o : Option String) → Keeps ipd (blocked_for ipd o).ipd
  unfolding blocked_for
  blocked_for-Keeps ipd none = resolve_first-Keeps ipd false
  blocked_for-Keeps ipd (some r) =
      resolve_first-Keeps (with_details ipd (record ipd.details { block_reason = r })) true

  send_client-core :
      (force : Bool) (now : Time) (s : ShouldBlock M A G F) (u : Updated M A G F) (geo : Option G)
      → send_client force now s geo ≡ some u
      → core u.ipd ≡ core s.ipd
  unfolding send_client
  send_client-core force now s u none h = absurd (none-ne-some u h)
  send_client-core force now s u (some geo) h = ap (λ u. core u.ipd) (sym (some-injective _ _ h))

  send_block-core :
      (config : Config F) (force : Bool) (now : Time) (s : ShouldBlock M A G F)
      (u : Updated M A G F)
      → send_block config force now s ≡ some u
      → core u.ipd ≡ core s.ipd
  unfolding send_block
  send_block-core config force now s u h =
      elim (Bool-cases (s.blocked && (force || is_due config now s.ipd.details))) [
        | inl e ↦ send_client-core force now s u s.ipd.details.geoip (rw (e, send_block) at h)
        | inr e ↦ ap (λ u. core u.ipd) (sym (some-injective _ _ (rw (e, send_block) at h)))
      ]

module _ {M R N A G F : Type 0} (env : Env R N A F) where
  by_verdict-Keeps :
      (ipd : IpData M A G F) (v : Verdict) (s : ShouldBlock M A G F)
      → block_unless_whitelisted env ipd v ≡ some s
      → Keeps ipd s.ipd
  unfolding block_unless_whitelisted
  by_verdict-Keeps ipd nil_asn s h = absurd (none-ne-some s h)
  by_verdict-Keeps ipd (whitelisted_by d) s h =
      subst (λ s. Keeps ipd s.ipd) (some-injective _ _ h) (refl, refl)
  by_verdict-Keeps ipd not_whitelisted s h =
      subst (λ s. Keeps ipd s.ipd) (some-injective _ _ h)
        (blocked_for-Keeps ipd (reason_to_block env ipd))

  pub should_be_blocked-Keeps :
      (now : Time) (ipd : IpData M A G F) (s : ShouldBlock M A G F)
      → should_be_blocked env now ipd ≡ some s
      → Keeps ipd s.ipd
  unfolding should_be_blocked
  should_be_blocked-Keeps now ipd s h = elim (Bool-cases (is_exempt env.config now ipd.details)) [
    | inl e ↦
        subst (λ s. Keeps ipd s.ipd) (some-injective _ _ (rw (e, should_be_blocked) at h))
          (refl, refl)
    | inr e ↦ by_verdict-Keeps ipd _ s (rw (e, should_be_blocked) at h)
  ]

  pub update-core :
      (force : Bool) (clock : Clock) (st : IpStats A F Bytes) (ipd : IpData M A G F)
      (u : Updated M A G F)
      → update env force clock st ipd ≡ some u
      → core u.ipd ≡ core ipd
  unfolding update
  update-core force clock st ipd u h =
      elim (Option-cases (should_be_blocked env (clock 1) (take_stats env st ipd))) [
        | inl e ↦ absurd (none-ne-some u (rw (e, update) at h))
        | inr (s, e) ↦
            send_block-core env.config force (clock 0) s u (rw (e, update) at h)
            ∙ (should_be_blocked-Keeps (clock 1) (take_stats env st ipd) s e).0
      ]

module _ {M R N A G F : Type 0} ⦃tm : Treemap M ℕ⦄ (env : Env R N A F) where
  with_verdict-core :
      (ipd made : IpData M A G F) (v : Verdict)
      → with_verdict env ipd v ≡ some made
      → core made ≡ core ipd
  unfolding with_verdict
  with_verdict-core ipd made nil_asn h = absurd (none-ne-some made h)
  with_verdict-core ipd made not_whitelisted h = ap (λ c. core c) (sym (some-injective _ _ h))
  with_verdict-core ipd made (whitelisted_by d) h = ap (λ c. core c) (sym (some-injective _ _ h))

  pub new_ip_data-core :
      (clock : Clock) (ip : Bytes) (asn : Option A) (geo : Option G) (made : IpData M A G F)
      → new_ip_data env clock ip asn geo ≡ some made
      → core made ≡ (ip, new_requests (λ i. clock (i + 1)) ip env.config.requests)
  unfolding new_ip_data blank
  new_ip_data-core clock ip asn geo made h =
      let ipd : IpData M A G F = blank env clock ip asn geo in
      with_verdict-core ipd made (Whitelist.is_whitelisted env.patterns env.whitelist ipd.details) h
