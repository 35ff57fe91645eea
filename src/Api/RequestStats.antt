-- ===== src/Api/RequestStats.antt =====
-- getRequestStats: the requests of one client in a number of windows. Parameter: the greatest length
-- of a slice of windows that `make` accepts.
use mathlib.Core.Option
use botex.Prelude.{
  ℕ, zero, suc, ◌+◌, ◌-◌, ◌*◌, ◌/◌, ◌%◌, String, Option, none, some, ◌||◌, List, [], ◌∷◌, ltb, leb,
  ◌==◌, if◌then◌else◌, str_eq,
}
use botex.Prelude.Atoi.{ℤ, pos, negsuc, atoi}
use botex.Data.{Bytes}
use botex.Treemap.{Treemap, Entries}
use botex.Window.{Time, Duration}
use botex.Requests.{Requests, total_stats, app_stats}
use botex.IpData.{IpData}
use botex.History.{Net, History, ip_data}
use botex.Api.{Answer, ok, not_found, not_acceptable}

-- `time` is in nanoseconds since the year 1, from which `Truncate` counts.
pub record RequestWindow : Type 0 where
  pub time : ℕ
  pub count : ℕ

-- The nanoseconds from the year 1 to 1970.
abbrev pub epoch : ℕ
epoch = 62_135_596_800_000_000_000

-- The loop that finds the least and the greatest instant; 0 stands for none.
unfoldable pub span : Entries ℕ → ℕ × ℕ → ℕ × ℕ
span [] (ts_min, ts_max) = (ts_min, ts_max)
span ((ts, n) ∷ rest) (ts_min, ts_max) = span rest (
  if ts_min == 0 || ltb ts ts_min then ts else ts_min,
  if ts_max == 0 || ltb ts_max ts then ts else ts_max,
)

-- The greatest instant is not before the least.
unfoldable pub window_size : ℕ → Entries ℕ → Duration
unfolding span
window_size windows stats =
    let (ts_min, ts_max) = span stats (0, 0) in
    let size = (ts_max - ts_min) / windows in if size == 0 then 1_000_000_000 else size

-- `t.Truncate(size)`
abbrev pub truncate : Duration → ℕ → ℕ
truncate size t = t - t % size

abbrev pub window_start : Time → Duration → ℕ → ℕ
window_start now size i = truncate size (now + epoch - i * size)

-- The loop over `i`, which fills the windows from the last to the first.
unfoldable pub empty_windows : Time → Duration → ℕ → ℕ → List RequestWindow → List RequestWindow
empty_windows now size zero i windows = windows
empty_windows now size (suc left) i windows =
    empty_windows now size left (suc i)
      (record { time = window_start now size i; count = 0 } ∷ windows)

-- The index of the window that an instant is counted in; a negative index is none.
unfoldable pub window_index : Time → Duration → ℕ → Time → Option ℕ
window_index now size windows ts =
    let idx = (now - ts) / size in
    if ltb now ts
    then (if leb size (ts - now) then none else some 0)
    else some (if leb windows idx then windows - 1 else idx)

-- `stats[idx].Count += count`
unfoldable pub add_count : ℕ → ℕ → List RequestWindow → Option (List RequestWindow)
add_count idx n [] = none
add_count zero n (w ∷ windows) = some (record w { count = w.count + n } ∷ windows)
add_count (suc idx) n (w ∷ windows) = elim (add_count idx n windows) [
  | none ↦ none
  | some rest ↦ some (w ∷ rest)
]

unfoldable pub add_at : Option ℕ → ℕ → List RequestWindow → Option (List RequestWindow)
unfolding add_count
add_at none n windows = none
add_at (some idx) n windows = add_count idx n windows

-- The loop over the instants.
unfoldable pub add_counts :
    Time → Duration → ℕ → Entries ℕ → List RequestWindow → Option (List RequestWindow)
unfolding add_at window_index
add_counts now size windows [] stats = some stats
add_counts now size windows ((ts, n) ∷ rest) stats =
    elim (add_at (window_index now size windows ts) n stats) [
      | none ↦ none
      | some stats' ↦ add_counts now size windows rest stats'
    ]

-- Behind the guards: a division by 0 panics, and so does `make` of a negative length, or of one that
-- is greater than `limit`.
unfoldable pub count_windows : ℕ → Time → ℤ → Entries ℕ → Option (List RequestWindow)
unfolding window_size empty_windows add_counts
count_windows limit now (negsuc n) stats = none
count_windows limit now (pos zero) stats = none
count_windows limit now (pos (suc n)) stats =
    let size = window_size (suc n) stats in
    if ltb limit (suc n)
    then none
    else add_counts now size (suc n) stats (empty_windows now size (suc n) 0 [])

unfoldable pub to_answer : {X : Type 0} → Option X → Option (Answer X)
to_answer none = none
to_answer (some x) = some (ok x)

module _ {M A : Type 0} ⦃tm : Treemap M ℕ⦄ where
  unfoldable pub stats_of : String → Requests M Bytes A → Entries ℕ
  stats_of type r = if str_eq type "app" then app_stats r else total_stats r

module _ {M A G F : Type 0} ⦃tm : Treemap M ℕ⦄ where
  unfoldable pub client_windows :
      ℕ → Time → ℤ → String → Option (IpData M A G F) → Option (Answer (List RequestWindow))
  unfolding to_answer count_windows stats_of
  client_windows limit now windows type none = some not_found
  client_windows limit now windows type (some ipd) =
      to_answer (count_windows limit now windows (stats_of type ipd.requests))

module _ {M W A G F : Type 0} ⦃tm : Treemap M ℕ⦄ where
  -- `ip`, `windows` and `type` are the parameters of the request.
  unfoldable pub get_request_stats :
      Net A G
      → ℕ
      → Time
      → String
      → Bytes
      → String
      → History M W A G F
      → Option (Answer (List RequestWindow))
  unfolding client_windows
  get_request_stats net limit now ip windows type h = elim (atoi windows) [
    | none ↦ some not_acceptable
    | some n ↦ client_windows limit now n type (ip_data net h (Option.get_or (net.parse_ip ip) []))
  ]
