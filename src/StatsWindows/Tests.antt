-- ===== src/StatsWindows/Tests.antt =====
-- Runs with buckets of 10 ns that observe 30 ns, over a database in memory.
use mathlib.Core.List.{foldl}
use mathlib.Core.Option.{some-injective}
use botex.StatsWindows.Json.{
  StatsData, StatsJson, marshal_json, unmarshal_json, ReadsBack, unmarshal_json-marshal_json,
}
use botex.Prelude.{
  ℕ, ap, sym, none, false, ◌+◌, ◌*◌, ◌≡◌, refl, Option, some, List, [], ◌∷◌, map, select,
}
use botex.Data.{Bytes}
use botex.Treemap.Sorted.{SortedMap, sorted_map, sorted_run}
use botex.Store.Badger.{badger_store}
use botex.Store.Badger.Memory.{Memory, memory_db}
use botex.StatsWindows.{
  is_blocked, is_human, is_whitelisted, Stats, StatsWindows, is_past, new_stats_windows, all_stats,
  add, add_bucket, store_latest, put_stats, key_for, expire,
}
use botex.StatsWindows.Sums.{sum_stats, Op, adds, expires, IsBalanced}
use botex.StatsWindows.Runs.{step, run_sums}

abbrev encode : Stats → Option Bytes
encode s = some (s.counters.total ∷ [])

abbrev empty_store : Memory
empty_store = record { held = []; ordered = tt }

abbrev ops : List Op
ops =
    adds is_human 100 101
    ∷ adds is_blocked 105 106
    ∷ adds is_whitelisted 117 117
    ∷ expires 135
    ∷ adds is_human 139 140
    ∷ []

abbrev windows : StatsWindows (SortedMap Stats)
windows = (foldl (step encode) (new_stats_windows 10 3, empty_store) ops).0

run : map (λ e. e.0) (all_stats windows) ≡ 110 ∷ 130 ∷ []
unfolding step all_stats add expire new_stats_windows add_bucket store_latest put_stats key_for
    sorted_run
run = refl

run_sums_example :
    let past =
      select
        (λ e. is_past 145 (windows.window_size * windows.num_windows) e.0)
        windows.stats_map.held in
    (windows.totals.total ≡ sum_stats (λ c. c.total) windows.stats_map.held)
    × (windows.totals.whitelisted ≡ sum_stats (λ c. c.whitelisted) windows.stats_map.held)
    × (windows.totals.blocked ≡ sum_stats (λ c. c.blocked) windows.stats_map.held)
    × (windows.totals.human ≡ sum_stats (λ c. c.human) windows.stats_map.held)
    × IsBalanced windows.totals
    × ((expire 145 windows).totals.total + sum_stats (λ c. c.total) past ≡ windows.totals.total)
run_sums_example = run_sums (SortedMap Stats) encode 10 3 empty_store ops 145

-- A struct of bytes, with times that are their own texts.
abbrev write_bytes : StatsData ℕ → Option Bytes
write_bytes d = some (
    d.counters.total ∷ d.counters.whitelisted ∷ d.counters.blocked ∷ d.counters.human ∷ d.time
    ∷ d.updated_at ∷ [])

abbrev read_bytes : Bytes → Option (StatsData ℕ)
read_bytes (t ∷ w ∷ b ∷ h ∷ time ∷ updated ∷ rest) = some record {
  counters = record { total = t; whitelisted = w; blocked = b; human = h };
  time = time;
  updated_at = updated;
}
read_bytes v = none

abbrev plain_json : StatsJson ℕ
plain_json = record { marshal = write_bytes; unmarshal = read_bytes; format = λ t. t; parse = some }

plain_json-ReadsBack : ReadsBack plain_json
plain_json-ReadsBack = record {
  times = λ t. refl;
  structs = λ d v h. ap read_bytes (sym (some-injective _ _ h));
}

abbrev updated_stats : Stats
updated_stats = record {
  counters = record { total = 3; whitelisted = 0; blocked = 1; human = 2 };
  time = 100;
  updated_at = 117;
}

unmarshal_json-marshal_json_example :
    unmarshal_json plain_json (3 ∷ 0 ∷ 1 ∷ 2 ∷ 100 ∷ 100 ∷ []) updated_stats
    ≡ (record updated_stats { updated_at = 100 }, false)
unfolding marshal_json
unmarshal_json-marshal_json_example =
    unmarshal_json-marshal_json plain_json updated_stats updated_stats _ plain_json-ReadsBack refl
