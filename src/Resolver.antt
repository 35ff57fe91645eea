-- ===== src/Resolver.antt =====
-- resolver.go: the lookup of the names of addresses, with a cache in the key/value store and a queue
-- of the addresses that are to be looked up (the NATS topic `resolv`). Parameters: `lookup_dns`,
-- which is `reverseDNSLookup` (Resolver.Dns), a function of the number of the call, since the
-- name server answers differently over time; the text of an address; and whether Publish fails. What
-- is sent on the output channel and what is published are results. outChanIsClosed is never set.
pub mod Queue
pub mod Cache
pub mod Dns
pub mod Tests
use mathlib.Core.Option
use botex.Prelude.{
  ℕ, zero, suc, ◌+◌, ◌-◌, String, Option, none, some, Bool, true, false, List, [], ◌∷◌, ◌++◌, ltb,
  if◌then◌else◌,
}
use botex.Data.{Bytes}
use botex.Matchers.{codes}
use botex.Window.{Time, Duration}
use botex.Store.{StoreError, not_found, failed, Result, ok, err, KvStore}

-- The instant of NewIPResolv; an end that Go has not set is 0.
pub record IpResolv : Type 0 where
  pub ip : Bytes
  pub host : Bytes
  pub error : String
  pub tries : ℕ
  pub t_end : Time
  pub t_start : Time

pub record Config : Type 0 where
  pub tries : ℕ
  pub ttl : Duration

-- What one call does: the store, what goes to the output channel, and what is published.
pub record Looked (S : Type 0) : Type 0 where
  pub store : S
  pub sent : Option IpResolv
  pub published : Option IpResolv

unfoldable pub new_ip_resolv : Time → Bytes → IpResolv
new_ip_resolv now ip = record {
  ip = ip;
  host = [];
  error = "";
  tries = 0;
  t_end = 0;
  t_start = now;
}

-- `TimeTaken`, for clocks that do not run backwards: `TEnd - TStart`, or the time until now.
unfoldable pub time_taken : Time → IpResolv → Duration
time_taken now rip =
    if ltb rip.t_start rip.t_end then rip.t_end - rip.t_start else now - rip.t_start

unfoldable pub resolve_namespace : Bytes → Bytes
resolve_namespace ip = codes "rl:ip:" ++ ip

-- `Resolve`: the address is published once more, unless it has been too often, or Publish fails.
unfoldable pub resolve : Config → (IpResolv → Bool) → IpResolv → Option IpResolv
resolve config publishes rip =
    let rip' = record rip { tries = rip.tries + 1; error = "" } in
    if ltb config.tries rip'.tries then none else if publishes rip' then some rip' else none

module _ {S : Type 0} ⦃kv : KvStore S⦄ (config : Config) (publishes : IpResolv → Bool)
    (ip_text : Bytes → Bytes) where
  abbrev pub try_again : S → IpResolv → Looked S
  try_again store rip = record {
    store = store;
    sent = none;
    published = resolve config publishes rip;
  }

  -- Behind the DNS lookup: a failed write to the cache is only logged.
  unfoldable pub after_lookup : S → IpResolv → Bytes → Option Bytes → Looked S
  unfolding resolve
  after_lookup store rip key none = try_again store rip
  after_lookup store rip key (some hostname) = record {
    store = (kv.set_ex store (resolve_namespace key) hostname config.ttl).0;
    sent = some (record rip { host = hostname });
    published = none;
  }

  -- What is cached decides: a name is sent; no entry leads to the DNS lookup; an empty name, and an
  -- error, lead to another try.
  unfoldable pub with_cached :
      (Bytes → Option Bytes) → S → IpResolv → Bytes → Result Bytes → Looked S
  unfolding after_lookup
  with_cached lookup_dns store rip key (ok []) = try_again store rip
  with_cached lookup_dns store rip key (ok (c ∷ cs)) = record {
    store = store;
    sent = some (record rip { host = c ∷ cs });
    published = none;
  }
  with_cached lookup_dns store rip key (err (failed n)) = try_again store rip
  with_cached lookup_dns store rip key (err not_found) =
      after_lookup store rip key (lookup_dns rip.ip)

  unfoldable pub reverse_lookup : (Bytes → Option Bytes) → S → IpResolv → Looked S
  unfolding with_cached resolve_namespace
  reverse_lookup lookup_dns store rip =
      let key = ip_text rip.ip in
      with_cached lookup_dns store rip key (kv.get store (resolve_namespace key))
