-- ===== src/Window.antt =====
-- window.go: a rolling window, which counts requests in buckets of one window size.
-- An instant is the number of nanoseconds since 1970, so a model value stands for an instant from
-- 1970 on; a duration is a number of nanoseconds. The threshold `now - windowSize * numWindows` of
-- the source is moved to the other side of each comparison, where it cannot go below 0. A counter
-- stands for an int64 that has not overflowed. The Go program panics in `keyFor` for a window size
-- of 0 (and before that in `time.NewTicker`), so the theorems ask for a positive size where it matters.
-- The nil receiver test of `Count` has no counterpart: a window is never nil here.
pub mod Tally
pub mod Rolling
pub mod Tests
use mathlib.Core.Option
use botex.Prelude.{ℕ, ◌+◌, ◌-◌, ◌*◌, ◌%◌, Option, none, some, Bool, List, [], ltb, if◌then◌else◌}
use botex.Treemap.{Treemap, Entries, put_at}
use botex.Treemap.Loop.{each}

abbrev pub Time : Type 0
Time = ℕ

abbrev pub Duration : Type 0
Duration = ℕ

pub record Window (M : Type 0) : Type 0 where
  pub buckets : M
  pub window_size : Duration
  pub num_windows : ℕ

-- The start of the bucket that an instant falls into.
unfoldable pub bucket_start : Duration → Time → ℕ
bucket_start size t = t - t % size

-- `key < threshold`, for the threshold `now - ttl`.
abbrev pub is_old : Time → Duration → ℕ → Bool
is_old now age key = ltb (key + age) now

module _ {M : Type 0} ⦃tm : Treemap M ℕ⦄ where
  unfoldable pub new_window : Duration → ℕ → Window M
  new_window window_size num_windows = record {
    buckets = tm.new;
    window_size = window_size;
    num_windows = num_windows;
  }

  unfoldable pub key_for : Window M → Time → ℕ
  unfolding bucket_start
  key_for w t = bucket_start w.window_size t

  abbrev pub ttl : Window M → Duration
  ttl w = w.window_size * w.num_windows

  unfoldable pub add : Window M → Time → Window M
  unfolding key_for
  add w t =
      let key = key_for w t in
      let val : ℕ = Option.get_or (tm.get w.buckets key) 0 in
      record w { buckets = tm.put w.buckets key (val + 1) }

  unfoldable pub count : Window M → ℕ
  unfolding each
  count w = each (λ (_ : ℕ). w.buckets) (λ total k v. some (total + v)) 0

  -- The loop of `Expire`.
  unfoldable pub expire_buckets : Time → Duration → M → M
  unfolding each
  expire_buckets now age m =
      each {V = ℕ} (λ (m : M). m) (λ m k v. if is_old now age k then some (tm.remove m k) else none)
        m

  -- The window, and the number of buckets that are left.
  unfoldable pub expire : Time → Window M → Window M × ℕ
  unfolding expire_buckets
  expire now w =
      let rest = expire_buckets now (ttl w) w.buckets in (record w { buckets = rest }, tm.size rest)

  -- `Map()`. A Go map with integer keys, in the order of its keys.
  unfoldable pub bucket_map : Window M → Entries ℕ
  unfolding each
  bucket_map w = each (λ (_ : Entries ℕ). w.buckets) (λ res k v. some (put_at k v res)) []
