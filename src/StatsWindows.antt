-- ===== src/StatsWindows.antt =====
-- stats.go: how many requests were blocked, whitelisted and human, in buckets of one window size
-- and in all of them. `M` is the sorted map and `S` the key/value store of the resources; `encode`
-- is json.Marshal on a Stats. The times of the totals, which no code writes, are left out. A
-- subtraction in `Expire` stops at 0. StatsWindows.Json has the JSON methods.
pub mod Sums
pub mod Runs
pub mod Json
pub mod Tests
use mathlib.Core.Option
use botex.Prelude.{
  ℕ, ◌+◌, ◌-◌, ◌*◌, ◌%◌, Option, none, some, Bool, true, false, List, [], ◌∷◌, ◌++◌, ltb, leb,
  if◌then◌else◌,
}
use botex.Data.{Bytes}
use botex.Matchers.{codes}
use botex.Window.{Time, Duration}
use botex.Treemap.{Treemap, Entries, put_at}
use botex.Treemap.Loop.{each}
use botex.Store.{KvStore}
use botex.Block.{decimal}

-- history.go
pub data Decision : Type 0 where
  is_blocked is_human is_whitelisted : Decision

pub record Counters : Type 0 where
  pub total : ℕ
  pub whitelisted : ℕ
  pub blocked : ℕ
  pub human : ℕ

pub record Stats : Type 0 where
  pub counters : Counters
  pub time : Time
  pub updated_at : Time

pub record StatsWindows (M : Type 0) : Type 0 where
  pub totals : Counters
  pub stats_map : M
  pub window_size : Duration
  pub num_windows : ℕ

abbrev pub no_requests : Counters
no_requests = record { total = 0; whitelisted = 0; blocked = 0; human = 0 }

-- The switch of `Add` and the increment of the total.
unfoldable pub count_decision : Decision → Counters → Counters
count_decision is_blocked c = record c { total = c.total + 1; blocked = c.blocked + 1 }
count_decision is_whitelisted c = record c { total = c.total + 1; whitelisted = c.whitelisted + 1 }
count_decision is_human c = record c { total = c.total + 1; human = c.human + 1 }

abbrev pub less : Counters → Counters → Counters
less a b = record {
  total = a.total - b.total;
  whitelisted = a.whitelisted - b.whitelisted;
  blocked = a.blocked - b.blocked;
  human = a.human - b.human;
}

-- The nanoseconds from January 1 of the year 1, where `time.Truncate` starts to count, to 1970.
abbrev pub zero_time_to_epoch : ℕ
zero_time_to_epoch = 62_135_596_800 * 1_000_000_000

-- `t.Truncate(size)`
unfoldable pub truncate : Duration → Time → Time
truncate size t = if ltb 0 size then t - (t + zero_time_to_epoch) % size else t

unfoldable pub stats_key : ℕ → Bytes
unfolding decimal
stats_key k = codes "stats:" ++ decimal k

-- `key.After(threshold)` does not hold, for the threshold `now - age`.
abbrev pub is_past : Time → Duration → ℕ → Bool
is_past now age key = leb (key + age) now

-- `time.Hour * 24`
abbrev pub one_day : Duration
one_day = 86_400 * 1_000_000_000

module _ {M : Type 0} ⦃tm : Treemap M Stats⦄ where
  unfoldable pub new_stats_windows : Duration → ℕ → StatsWindows M
  new_stats_windows window_size num_windows = record {
    totals = no_requests;
    stats_map = tm.new;
    window_size = window_size;
    num_windows = num_windows;
  }

  -- `All()`: the keys before they are formatted, in their order.
  unfoldable pub all_stats : StatsWindows M → Entries Stats
  unfolding each
  all_stats w = each (λ (_ : Entries Stats). w.stats_map) (λ res k v. some (put_at k v res)) []

  unfoldable pub key_for : StatsWindows M → Time → ℕ
  unfolding truncate
  key_for w t = truncate w.window_size t

  -- The end of `Add`, with the item of the request's bucket.
  unfoldable pub put_stats : StatsWindows M → ℕ → Decision → Time → Stats → StatsWindows M
  unfolding count_decision
  put_stats w key d now stats = record w {
    totals = count_decision d w.totals;
    stats_map =
        tm.put w.stats_map key
          (record stats { counters = count_decision d stats.counters; updated_at = now });
  }

  abbrev pub new_stats : StatsWindows M → Time → Stats
  new_stats w t = record { counters = no_requests; time = truncate w.window_size t; updated_at = 0 }

  abbrev pub expire_past : Time → Duration → StatsWindows M → ℕ → Stats → StatsWindows M
  expire_past now age w key stats = record w {
    totals = less w.totals stats.counters;
    stats_map = tm.remove w.stats_map key;
  }

  unfoldable pub expire : Time → StatsWindows M → StatsWindows M
  unfolding each
  expire now w =
      let age = w.window_size * w.num_windows in
      each {V = Stats} (λ (w : StatsWindows M). w.stats_map)
        (λ w k v. if is_past now age k then some (expire_past now age w k v) else none) w

module _ {S : Type 0} ⦃kv : KvStore S⦄ (encode : Stats → Option Bytes) where
  -- Stores the previous item: the store, or none if its encoding fails. An error of `SetEx` is
  -- not looked at.
  unfoldable pub store_latest : Option (ℕ × Stats) → S → Option S
  store_latest none store = some store
  store_latest (some (key, stats)) store = elim (encode stats) [
    | none ↦ none
    | some value ↦ some (kv.set_ex store (stats_key key) value one_day).0
  ]

module _ {M S : Type 0} ⦃tm : Treemap M Stats⦄ ⦃kv : KvStore S⦄
    (encode : Stats → Option Bytes) where
  -- `Add` of a request at `t` where there is no item for its bucket; true is an error.
  unfoldable pub add_bucket :
      StatsWindows M → Decision → Time → Time → S → Option S → StatsWindows M × S × Bool
  add_bucket w d t now store none = (w, store, true)
  add_bucket w d t now store (some store') =
      (put_stats w (key_for w t) d now (new_stats w t), store', false)

  unfoldable pub add : StatsWindows M → S → Decision → Time → Time → StatsWindows M × S × Bool
  add w store d t now = elim (tm.get w.stats_map (key_for w t)) [
    | some stats ↦ (put_stats w (key_for w t) d now stats, store, false)
    | none ↦ add_bucket w d t now store (store_latest encode (tm.max w.stats_map) store)
  ]
