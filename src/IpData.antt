-- ===== src/IpData.antt =====
-- ipdata.go: one client, its details and its requests. A dereference of nil ends the program: none.
-- Parameters: the tests of the whitelist (Whitelist.Patterns), the texts that fmt.Sprintf makes of
-- the reasons (Reasons), and the ShouldBeBlocked of the plugins, each a function from the statistics
-- to a reason, or none. Sending `&ipd.IPDetails` on BlockChan and calling Resolve are flags of the
-- result. An instant that Go has not set is 0. `ip` of Requests is the address of the details.
pub mod Kept
pub mod Limits
pub mod Cooldown
pub mod Tests
use mathlib.Core.Option
use botex.Prelude.{
  ℕ, ◌+◌, String, Option, none, some, Bool, true, false, ◌&&◌, ◌||◌, List, [], ◌∷◌, ltb,
  if◌then◌else◌,
}
use botex.Data.{Bytes, Request, Stats, IpStats}
use botex.Matchers.{codes}
use botex.Float64.{Float64}
use botex.Treemap.{Treemap}
use botex.Window.{Time, Duration}
use botex.MapWindow.{Clock}
use botex.Requests.{Requests, new_requests}
use botex.Requests
use botex.StatsWindows.{Decision, is_blocked, is_human, is_whitelisted}
use botex.Store.Prefix.{bytes_eq}
use botex.Whitelist.{
  IpDetails, Patterns, Whitelist, Verdict, whitelisted_by, not_whitelisted, nil_asn,
}
use botex.Whitelist

-- The fields of config.Config that IPData reads.
pub record Config (F : Type 0) : Type 0 where
  pub requests : Requests.Config
  pub min_app_requests : ℕ
  pub max_app_requests : ℕ
  pub max_ratio : F
  pub block_ttl : Duration

pub record Reasons (F : Type 0) : Type 0 where
  pub too_many : ℕ → ℕ → String
  pub ratio_too_high : ℕ → ℕ → F → F → String

pub record IpData (M A G F : Type 0) : Type 0 where
  pub details : IpDetails A G F
  pub requests : Requests M Bytes A

-- The result of `ShouldBeBlocked`, with the client as it stands then.
pub record ShouldBlock (M A G F : Type 0) : Type 0 where
  pub ipd : IpData M A G F
  pub blocked : Bool
  pub resolves : Bool

-- What `Update` does: the client, whether it is sent to BlockChan, and whether it is resolved.
pub record Updated (M A G F : Type 0) : Type 0 where
  pub ipd : IpData M A G F
  pub sent : Bool
  pub resolves : Bool

abbrev pub resolving : Bytes
resolving = codes "resolving"

-- The asking of the plugins one after the other, up to the first that has a reason.
unfoldable pub first_reason : {T : Type 0} → List (T → Option String) → T → Option String
first_reason [] stats = none
first_reason (ask ∷ plugins) stats =
    let rest = first_reason plugins stats in elim (ask stats) [ none ↦ rest | some r ↦ some r ]

-- The resources and the configuration as they stand in a call.
pub record Env (R N A F : Type 0) : Type 0 where
  pub float : Float64 F
  pub patterns : Patterns R N A
  pub reasons : Reasons F
  pub config : Config F
  pub whitelist : Whitelist R N
  pub plugins : List (IpStats A F Bytes → Option String)

module _ {A G F : Type 0} where
  -- What `Add` answers.
  unfoldable pub decision_of : IpDetails A G F → Decision
  decision_of d =
      if d.is_blocked then is_blocked else if d.is_whitelisted then is_whitelisted else is_human

  -- `LastBlockAt.Add(BlockTTL).Before(now)`
  abbrev pub is_due : Config F → Time → IpDetails A G F → Bool
  is_due config now d = ltb (d.last_block_at + config.block_ttl) now

  -- The tests before the whitelist's: the name is being looked up, the client is known to be
  -- whitelisted, or there has been no request in the latest window.
  unfoldable pub is_exempt : Config F → Time → IpDetails A G F → Bool
  is_exempt config now d =
      bytes_eq d.hostname resolving
      || d.is_whitelisted
      || (ltb (d.updated_at + config.requests.window_size) now
          && ltb (d.created_at + config.requests.window_size) now)

module _ {M A G F : Type 0} where
  unfoldable pub stats : IpData M A G F → Stats A F
  stats ipd = record {
    total = ipd.details.total;
    app = ipd.details.app;
    other = ipd.details.other;
    ratio = ipd.details.ratio;
    ips = 0;
    asn = ipd.details.asn;
  }

  unfoldable pub ip_stats : IpData M A G F → IpStats A F Bytes
  unfolding stats
  ip_stats ipd = record {
    stats = stats ipd;
    ip = ipd.details.ip;
    with_hostname =
        if bytes_eq ipd.details.hostname []
        then 0
        else if bytes_eq ipd.details.hostname resolving
        then 0
        else 1;
  }

  abbrev pub with_details : IpData M A G F → IpDetails A G F → IpData M A G F
  with_details ipd details = record ipd { details = details }

  -- `RESOLVE`
  unfoldable pub resolve_first : IpData M A G F → Bool → ShouldBlock M A G F
  resolve_first ipd decision =
      if decision && bytes_eq ipd.details.hostname []
      then record {
        ipd = with_details ipd (record ipd.details { hostname = resolving });
        blocked = false;
        resolves = true;
      }
      else record { ipd = ipd; blocked = decision; resolves = false }

  -- Behind the tests: a reason to block is recorded.
  unfoldable pub blocked_for : IpData M A G F → Option String → ShouldBlock M A G F
  unfolding resolve_first
  blocked_for ipd none = resolve_first ipd false
  blocked_for ipd (some reason) =
      resolve_first (with_details ipd (record ipd.details { block_reason = reason })) true

  -- `SetHostname`: the client, and the statistics that it sends.
  unfoldable pub set_hostname :
      Float64 F → Bytes → IpData M A G F → IpData M A G F × IpStats A F Bytes
  set_hostname fl hostname ipd =
      let details = record ipd.details { hostname = hostname } in
      (
        with_details ipd details,
        record {
          stats = record {
            total = 0;
            app = 0;
            other = 0;
            ratio = fl.of_int 0;
            ips = 0;
            asn = details.asn;
          };
          ip = details.ip;
          with_hostname = 0;
        },
      )

  -- The log line reads `GeoIP.City` before the client is sent.
  unfoldable pub send_client :
      Bool → Time → ShouldBlock M A G F → Option G → Option (Updated M A G F)
  send_client force now s none = none
  send_client force now s (some geo) = some record {
    ipd = with_details s.ipd (record s.ipd.details {
      force_block = force || s.ipd.details.force_block;
      last_block_at = now;
    });
    sent = true;
    resolves = s.resolves;
  }

  -- The end of `Update`.
  unfoldable pub send_block :
      Config F → Bool → Time → ShouldBlock M A G F → Option (Updated M A G F)
  unfolding send_client
  send_block config force now s =
      if s.blocked && (force || is_due config now s.ipd.details)
      then send_client force now s s.ipd.details.geoip
      else some record { ipd = s.ipd; sent = false; resolves = s.resolves }

module _ {M A G F : Type 0} ⦃tm : Treemap M ℕ⦄ where
  -- `Expire`
  unfoldable pub expire : Clock → IpData M A G F → IpData M A G F × ℕ
  expire clock ipd =
      let (requests, left) = Requests.expire clock ipd.requests in
      (record ipd { requests = requests }, left)

  -- `Add`: the client, the decision, and what Requests.Add sends; `clock 0` is UpdatedAt.
  unfoldable pub add :
      Float64 F
      → Bool
      → Clock
      → IpData M A G F
      → Request A
      → IpData M A G F × Decision × Option (IpStats A F Bytes)
  unfolding decision_of
  add fl closed clock ipd req =
      let (requests, req', sent) = Requests.add fl closed (λ i. clock (i + 1)) ipd.requests req in
      let details = record ipd.details { updated_at = clock 0 } in
      (record { details = details; requests = requests }, decision_of details, sent)

module _ {M R N A G F : Type 0} (env : Env R N A F) where
  -- The reason of the first limit that is passed, or of the first plugin that has one.
  unfoldable pub reason_to_block : IpData M A G F → Option String
  unfolding first_reason
  reason_to_block ipd =
      let d = ipd.details in
      if ltb env.config.max_app_requests d.app
      then some (env.reasons.too_many d.app env.config.max_app_requests)
      else if ltb env.config.min_app_requests d.app && env.float.le env.config.max_ratio d.ratio
      then some (
          env.reasons.ratio_too_high d.app env.config.min_app_requests d.ratio env.config.max_ratio)
      else first_reason env.plugins (ip_stats ipd)

  unfoldable pub block_unless_whitelisted : IpData M A G F → Verdict → Option (ShouldBlock M A G F)
  unfolding blocked_for reason_to_block
  block_unless_whitelisted ipd nil_asn = none
  block_unless_whitelisted ipd (whitelisted_by reason) = some record {
    ipd =
        with_details ipd (record ipd.details { is_whitelisted = true; whitelist_reason = reason });
    blocked = false;
    resolves = false;
  }
  block_unless_whitelisted ipd not_whitelisted = some (blocked_for ipd (reason_to_block ipd))

  unfoldable pub should_be_blocked : Time → IpData M A G F → Option (ShouldBlock M A G F)
  unfolding is_exempt block_unless_whitelisted
  should_be_blocked now ipd =
      if is_exempt env.config now ipd.details
      then some record { ipd = ipd; blocked = false; resolves = false }
      else block_unless_whitelisted ipd
          (Whitelist.is_whitelisted env.patterns env.whitelist ipd.details)

  -- The cached numbers.
  abbrev pub take_stats : IpStats A F Bytes → IpData M A G F → IpData M A G F
  take_stats st ipd =
      with_details ipd
        (record ipd.details { total = st.total; app = st.app; other = st.other; ratio = st.ratio })

  unfoldable pub update :
      Bool → Clock → IpStats A F Bytes → IpData M A G F → Option (Updated M A G F)
  unfolding should_be_blocked send_block
  update force clock st ipd = elim (should_be_blocked (clock 1) (take_stats st ipd)) [
    | none ↦ none
    | some s ↦ send_block env.config force (clock 0) s
  ]

module _ {M R N A G F : Type 0} ⦃tm : Treemap M ℕ⦄ (env : Env R N A F) where
  -- A client that no rule has been asked about; `clock 0` is CreatedAt.
  unfoldable pub blank : Clock → Bytes → Option A → Option G → IpData M A G F
  unfolding new_requests
  blank clock ip asn geo = record {
    details = record {
      ip = ip;
      hostname = [];
      asn = asn;
      geoip = geo;
      total = 0;
      app = 0;
      other = 0;
      ratio = env.float.of_int 0;
      is_blocked = false;
      block_reason = "";
      is_whitelisted = false;
      whitelist_reason = "";
      created_at = clock 0;
      updated_at = 0;
      last_block_at = 0;
      force_block = false;
    };
    requests = new_requests (λ i. clock (i + 1)) ip env.config.requests;
  }

  unfoldable pub with_verdict : IpData M A G F → Verdict → Option (IpData M A G F)
  with_verdict ipd nil_asn = none
  with_verdict ipd not_whitelisted = some ipd
  with_verdict ipd (whitelisted_by reason) =
      some
        (with_details ipd (record ipd.details { is_whitelisted = true; whitelist_reason = reason }))

  -- `asn` and `geo` are what the databases know of the address.
  unfoldable pub new_ip_data : Clock → Bytes → Option A → Option G → Option (IpData M A G F)
  unfolding blank with_verdict
  new_ip_data clock ip asn geo =
      let ipd = blank clock ip asn geo in
      with_verdict ipd (Whitelist.is_whitelisted env.patterns env.whitelist ipd.details)
