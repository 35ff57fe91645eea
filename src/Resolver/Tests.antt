-- ===== src/Resolver/Tests.antt =====
-- Addresses whose names are in the cache, or not; the name server fails at first.
use botex.Prelude.{◌+◌, ◌≤◌, ◌≡◌, refl, none, some, true, [], ◌∷◌, arith, length}
use botex.Data.{Bytes}
use botex.Matchers.{codes}
use botex.Store.Badger.{badger_store, get, item_value, find_key, set_ex, after_commit}
use botex.Store.Badger.Laws.{badger_laws}
use botex.Store.Badger.Memory.{Memory, memory_db}
use botex.Block.Tests.{healthy, local}
use botex.Resolver.{
  IpResolv, Config, Looked, new_ip_resolv, resolve_namespace, resolve, after_lookup, with_cached,
  reverse_lookup,
}
use botex.Resolver.Queue.{
  Resolver, takes, Run, stays, goes, all_left, look_up, after, run-bounded, work, run-drains,
}
use botex.Resolver.Cache.{named, reverse_lookup-twice}

abbrev config : Config
config = record { tries = 3; ttl = 3_600_000_000_000 }

abbrev empty_store : Memory
empty_store = record { held = []; ordered = tt }

abbrev rip : IpResolv
rip = new_ip_resolv 100 local

abbrev again : IpResolv
again = new_ip_resolv 200 local

abbrev key : Bytes
key = resolve_namespace local

abbrev cached : Memory
cached = (set_ex empty_store key (codes "host") config.ttl).0

reverse_lookup-twice_example :
    (reverse_lookup config (λ m. true) (λ ip. ip) (λ ip. some (codes "host")) empty_store rip
      ≡ named config (λ m. true) (λ ip. ip) cached rip (codes "host"))
    × (reverse_lookup config (λ m. true) (λ ip. ip) (λ ip. none) cached again
        ≡ named config (λ m. true) (λ ip. ip) cached again (codes "host"))
unfolding get item_value find_key set_ex after_commit new_ip_resolv
reverse_lookup-twice_example =
    reverse_lookup-twice config (λ m. true) (λ ip. ip) (λ ip. some (codes "host")) (λ ip. none)
      empty_store cached rip again b'h' (codes "ost") badger_laws (healthy _) (healthy _)
      (omega arith) refl refl refl refl

abbrev start : Resolver Memory
start = record { store = empty_store; queue = record rip { tries = 1 } ∷ []; sent = [] }

abbrev failing : Looked Memory
failing = look_up config (λ m. true) (λ ip. ip) (λ ip. none) empty_store (record rip { tries = 1 })

abbrev second : Resolver Memory
second = after config (λ m. true) (λ ip. ip) start [] [] failing

run : Run config (λ m. true) (λ ip. ip) 1 start second
run = goes (takes (λ ip. none) [] (record rip { tries = 1 }) [] refl refl) (stays second)

-- The failed lookup is tried again.
tries_again : length second.queue ≡ 1
unfolding reverse_lookup with_cached after_lookup resolve get item_value find_key
tries_again = refl

run-bounded_example :
    (1 + all_left config second.queue ≤ all_left config start.queue)
    × (length second.sent + length second.queue ≤ length start.sent + length start.queue)
run-bounded_example = run-bounded config (λ m. true) (λ ip. ip) 1 start second run

run-drains_example :
    (work config
      (λ m. true)
      (λ ip. ip)
      (λ i ip. none)
      (λ i. i)
      (all_left config start.queue)
      start).queue
    ≡ []
run-drains_example =
    run-drains config (λ m. true) (λ ip. ip) (λ i ip. none) (λ i. i) _ start (omega arith)
