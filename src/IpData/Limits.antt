-- ===== src/IpData/Limits.antt =====
-- When a client is blocked, and when its name is looked up first.
use botex.Prelude.{
  ℕ, ◌+◌, ◌≤◌, ◌<◌, ◌≡◌, ◌≢◌, ◌↔◌, ◌⊎◌, inl, inr, refl, subst, String, Option, none, some,
  Option-cases, Bool, true, false, ◌&&◌, List, [], ◌∷◌, ltb, if◌then◌else◌, arith, Bool-cases,
}
use botex.Window.{Time}
use botex.Store.Prefix.{bytes_eq, bytes_eq_iff}
use botex.Whitelist.{
  IpDetails, Patterns, Whitelist, or_next, Verdict, whitelisted_by, not_whitelisted, nil_asn,
}
use botex.Whitelist
use botex.IpData.{
  Config, Env, IpData, ShouldBlock, resolving, first_reason, ip_stats, resolve_first, blocked_for,
  is_exempt, reason_to_block, block_unless_whitelisted, should_be_blocked,
}

-- Some plugin has a reason.
abbrev pub HasReason : {T : Type 0} → List (T → Option String) → T → Type 0
HasReason [] st = ⊥
HasReason (ask ∷ plugins) st = ((r : String) × (ask st ≡ some r)) ⊎ HasReason plugins st

first_reason-some_iff :
    {T : Type 0} (plugins : List (T → Option String)) (st : T)
    → ((r : String) × (first_reason plugins st ≡ some r)) ↔ HasReason plugins st
unfolding first_reason
first_reason-some_iff [] st = (λ p. absurd (let bad = p.1 in cc), λ b. absurd b)
first_reason-some_iff (ask ∷ plugins) st =
    let (sound, complete) = first_reason-some_iff plugins st in
    elim (Option-cases (ask st)) [
      | inl e ↦ (
        λ p. inr (sound (p.0, rw (e, first_reason) at (p.1))),
        λ h. elim h [
          | inl q ↦ absurd (let bad = q.1 in cc)
          | inr q ↦ let (r, f) = complete q in (r, rw (e, first_reason) f)
        ],
      )
      | inr (r, e) ↦ (λ p. inl (r, e), λ h. (r, rw (e, first_reason) refl))
    ]

-- The client may be blocked at all: its name is not being looked up, it is not known to be
-- whitelisted, and it was created or has asked within one window.
pub record IsActive {A G F : Type 0} (config : Config F) (now : Time) (d : IpDetails A G F)
    : Type 0 where
  pub not_resolving : d.hostname ≢ resolving
  pub not_exempt : d.is_whitelisted ≡ false
  pub recent :
      (now ≤ d.updated_at + config.requests.window_size)
      ⊎ (now ≤ d.created_at + config.requests.window_size)

is_exempt_iff :
    {A G F : Type 0} (config : Config F) (now : Time) (d : IpDetails A G F)
    → (is_exempt config now d ≡ false) ↔ IsActive config now d
unfolding is_exempt
is_exempt_iff config now d =
    let same = bytes_eq_iff d.hostname resolving in
    (
      λ h. record {
        not_resolving = λ e. let t = same.1 e in absurd (ground arith);
        not_exempt = ground arith;
        recent = ground arith;
      },
      λ a. elim (Bool-cases (bytes_eq d.hostname resolving)) [
        | inl e ↦ absurd (a.not_resolving (same.0 e))
        | inr e ↦ let x = a.not_exempt in let r = a.recent in ground arith
      ],
    )

ltb_iff : (a b : ℕ) → (ltb a b ≡ true) ↔ (a < b)
ltb_iff a b = ground arith

both_iff : (a b : ℕ) (c : Bool) → ((ltb a b && c) ≡ true) ↔ ((a < b) × (c ≡ true))
both_iff a b c = ground arith

abbrev IsGiven : Option String → Type 0
IsGiven o = (r : String) × (o ≡ some r)

-- A choice of reasons, the first that applies.
choice-some_iff :
    {P Q H : Type 0} (a b : Bool) (x y : String) (o : Option String)
    → (a ≡ true) ↔ P
    → (b ≡ true) ↔ Q
    → IsGiven o ↔ H
    → IsGiven (if a then some x else if b then some y else o) ↔ (P ⊎ (Q ⊎ H))
choice-some_iff true b x y o p q h = (λ g. inl (p.0 refl), λ g. (x, refl))
choice-some_iff false true x y o p q h = (λ g. inr (inl (q.0 refl)), λ g. (y, refl))
choice-some_iff false false x y o p q h = (
  λ g. inr (inr (h.0 g)),
  λ g. elim g [
    | inl e ↦ absurd (let bad = p.1 e in cc)
    | inr (inl e) ↦ absurd (let bad = q.1 e in cc)
    | inr (inr e) ↦ h.1 e
  ],
)

or_next-not_nil : (o : Option String) (v : Verdict) → v ≢ nil_asn → or_next o v ≢ nil_asn
unfolding or_next
or_next-not_nil none v n = n
or_next-not_nil (some d) v n = λ e. cc

pub is_whitelisted-not_nil :
    {R N A G F : Type 0} (lib : Patterns R N A) (w : Whitelist R N) (d : IpDetails A G F) (asn : A)
    → d.asn ≡ some asn
    → Whitelist.is_whitelisted lib w d ≢ nil_asn
unfolding Whitelist.is_whitelisted
is_whitelisted-not_nil lib w d asn e =
    rw (e, Whitelist.is_whitelisted)
      (or_next-not_nil _ _ (
        or_next-not_nil _ _
          (or_next-not_nil _ _ (or_next-not_nil _ _ (or_next-not_nil _ _ (λ e. cc))))))

module _ {M R N A G F : Type 0} (env : Env R N A F) where
  -- One of the limits is passed, or a plugin has a reason.
  abbrev pub IsOverLimit : IpData M A G F → Type 0
  IsOverLimit ipd =
      (env.config.max_app_requests < ipd.details.app)
      ⊎ (((env.config.min_app_requests < ipd.details.app)
            × (env.float.le env.config.max_ratio ipd.details.ratio ≡ true))
          ⊎ HasReason env.plugins (ip_stats ipd))

  reason_to_block-some_iff :
      (ipd : IpData M A G F) → ((r : String) × (reason_to_block env ipd ≡ some r)) ↔ IsOverLimit ipd
  unfolding reason_to_block
  reason_to_block-some_iff ipd =
      choice-some_iff _ _ _ _ _ (ltb_iff env.config.max_app_requests ipd.details.app)
        (both_iff (env.config.min_app_requests) (ipd.details.app)
          (env.float.le env.config.max_ratio ipd.details.ratio))
        (first_reason-some_iff env.plugins (ip_stats ipd))

  -- The client is active, no rule of the whitelist applies to it, and a limit is passed.
  abbrev pub IsSuspect : Time → IpData M A G F → Type 0
  IsSuspect now ipd =
      IsActive env.config now ipd.details
      × (Whitelist.is_whitelisted env.patterns env.whitelist ipd.details ≡ not_whitelisted)
      × IsOverLimit ipd

  blocked_for_iff :
      (ipd : IpData M A G F) (o : Option String)
      → (((blocked_for ipd o).blocked ≡ true) ↔ (IsGiven o × (ipd.details.hostname ≢ [])))
        × (((blocked_for ipd o).resolves ≡ true) ↔ (IsGiven o × (ipd.details.hostname ≡ [])))
  unfolding blocked_for resolve_first
  blocked_for_iff ipd none = (
    (λ h. absurd (cc), λ p. absurd (let bad = p.0.1 in cc)),
    (λ h. absurd (cc), λ p. absurd (let bad = p.0.1 in cc)),
  )
  blocked_for_iff ipd (some r) =
      let same = bytes_eq_iff ipd.details.hostname [] in
      elim (Bool-cases (bytes_eq ipd.details.hostname [])) [
        | inl e ↦ rw e (
          (λ h. absurd (cc), λ p. absurd (p.1 (same.0 e))),
          (λ h. ((r, refl), same.0 e), λ p. refl),
        )
        | inr e ↦ rw e (
          (λ h. ((r, refl), λ f. let t = same.1 f in absurd (cc)), λ p. refl),
          (λ h. absurd (cc), λ p. let t = same.1 p.1 in absurd (cc)),
        )
      ]

  -- What ShouldBeBlocked answers of a suspect depends on its name: a suspect without a name is
  -- looked up, and one with a name is blocked.
  abbrev Answers : Time → IpData M A G F → ShouldBlock M A G F → Type 0
  Answers now ipd s =
      ((s.blocked ≡ true) ↔ (IsSuspect now ipd × (ipd.details.hostname ≢ [])))
      × ((s.resolves ≡ true) ↔ (IsSuspect now ipd × (ipd.details.hostname ≡ [])))

  by_verdict :
      (now : Time) (ipd : IpData M A G F) (v : Verdict) (s : ShouldBlock M A G F)
      → Whitelist.is_whitelisted env.patterns env.whitelist ipd.details ≡ v
      → block_unless_whitelisted env ipd v ≡ some s
      → IsActive env.config now ipd.details
      → Answers now ipd s
  unfolding block_unless_whitelisted
  by_verdict now ipd nil_asn s e h a = absurd (cc)
  by_verdict now ipd (whitelisted_by d) s e h a =
      let b : s.blocked ≡ false = cc in
      let r : s.resolves ≡ false = cc in
      (
        (λ t. absurd (cc), λ p. absurd (let v = p.0.1 in cc)),
        (λ t. absurd (cc), λ p. absurd (let v = p.0.1 in cc)),
      )
  by_verdict now ipd not_whitelisted s e h a =
      let same : blocked_for ipd (reason_to_block env ipd) ≡ s = cc in
      let (reasons, over) = reason_to_block-some_iff ipd in
      let (blocks, resolves) = blocked_for_iff ipd (reason_to_block env ipd) in
      subst (Answers now ipd) same (
        (λ t. let (g, n) = blocks.0 t in ((a, e, reasons g), n), λ p. blocks.1 (over p.0.2, p.1)),
        (
          λ t. let (g, n) = resolves.0 t in ((a, e, reasons g), n),
          λ p. resolves.1 (over p.0.2, p.1),
        ),
      )

  should_be_blocked-Answers :
      (now : Time) (ipd : IpData M A G F) (s : ShouldBlock M A G F)
      → should_be_blocked env now ipd ≡ some s
      → Answers now ipd s
  unfolding should_be_blocked
  should_be_blocked-Answers now ipd s h = elim (Bool-cases (is_exempt env.config now ipd.details)) [
    | inl e ↦
        let k : ◌≡◌ {A = Option (ShouldBlock M A G F)}
            (some (record { ipd = ipd; blocked = false; resolves = false })) (some s) =
          rw (e, should_be_blocked) at h in
        let b : s.blocked ≡ false = cc in
        let r : s.resolves ≡ false = cc in
        let refused = λ (x : IsActive env.config now ipd.details).
          (is_exempt_iff env.config now ipd.details).1 x in
        (
          (λ t. absurd (cc), λ p. absurd (let f = refused p.0.0 in cc)),
          (λ t. absurd (cc), λ p. absurd (let f = refused p.0.0 in cc)),
        )
    | inr e ↦
        by_verdict now ipd _ s refl (rw (e, should_be_blocked) at h)
          ((is_exempt_iff env.config now ipd.details).0 e)
  ]

  by_verdict_returns :
      (ipd : IpData M A G F) (v : Verdict)
      → v ≢ nil_asn
      → (s : ShouldBlock M A G F) × (block_unless_whitelisted env ipd v ≡ some s)
  unfolding block_unless_whitelisted
  by_verdict_returns ipd nil_asn n = absurd (n refl)
  by_verdict_returns ipd (whitelisted_by d) n = (_, refl)
  by_verdict_returns ipd not_whitelisted n = (_, refl)

  -- The autonomous system of the client is known.
  abbrev pub IsKnown : IpData M A G F → Type 0
  IsKnown ipd = (asn : A) × (ipd.details.asn ≡ some asn)

  should_be_blocked_returns :
      (now : Time) (ipd : IpData M A G F)
      → (IsActive env.config now ipd.details → IsKnown ipd)
      → (s : ShouldBlock M A G F) × (should_be_blocked env now ipd ≡ some s)
  unfolding should_be_blocked
  should_be_blocked_returns now ipd known =
      elim (Bool-cases (is_exempt env.config now ipd.details)) [
        | inl e ↦ (
          record { ipd = ipd; blocked = false; resolves = false },
          rw (e, should_be_blocked) refl,
        )
        | inr e ↦
            let (asn, a) = known ((is_exempt_iff env.config now ipd.details).0 e) in
            let (s, h) =
              by_verdict_returns ipd _
                (is_whitelisted-not_nil env.patterns env.whitelist ipd.details asn a) in
            (s, rw (e, should_be_blocked) h)
      ]

  -- ShouldBeBlocked of a client that is not active, or whose autonomous system is known, returns.
  -- It answers yes exactly for a client that is active, that no rule of the whitelist applies to, that passes a limit or
  -- for which a plugin has a reason, and whose name is not empty; and it has the name looked up
  -- exactly where all this holds but the name is empty.
  pub should_be_blocked_lem :
      (now : Time) (ipd : IpData M A G F)
      → (IsActive env.config now ipd.details → IsKnown ipd)
      → (s : ShouldBlock M A G F) × (should_be_blocked env now ipd ≡ some s)
        × ((s.blocked ≡ true) ↔ (IsSuspect now ipd × (ipd.details.hostname ≢ [])))
        × ((s.resolves ≡ true) ↔ (IsSuspect now ipd × (ipd.details.hostname ≡ [])))
  should_be_blocked_lem now ipd known =
      let (s, h) = should_be_blocked_returns now ipd known in
      let (b, r) = should_be_blocked-Answers now ipd s h in (s, h, b, r)
