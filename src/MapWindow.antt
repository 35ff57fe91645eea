-- ===== src/MapWindow.antt =====
-- mapwindow.go: one rolling window for each user agent. The clock gives the instants of successive
-- `time.Now()` calls: each window's `Expire` reads it anew, and the number of the next reading is
-- passed along.
pub mod Totals
pub mod Rolling
pub mod Agents
pub mod Tests
use botex.Prelude.{
  ℕ, zero, suc, ◌+◌, String, Option, none, some, List, [], ◌∷◌, ◌==◌, if◌then◌else◌, length, lookup,
  insert,
}
use botex.Treemap.{Treemap}
use botex.Window.{Time, Duration, Window, new_window, count}
use botex.Window
use botex.Data.{Request}

abbrev pub Clock : Type 0
Clock = ℕ → Time

pub record MapWindow (M : Type 0) : Type 0 where
  pub window_size : Duration
  pub num_windows : ℕ
  pub windows : List (String × Window M)

module _ {M : Type 0} ⦃tm : Treemap M ℕ⦄ where
  unfoldable pub new_map_window : Duration → ℕ → MapWindow M
  new_map_window window_size num_windows = record {
    window_size = window_size;
    num_windows = num_windows;
    windows = [];
  }

  -- The window that `mw.data[req.UserAgent]` has after the first statement of `Add`.
  unfoldable pub window_for : MapWindow M → Option (Window M) → Window M
  window_for mw none = new_window mw.window_size mw.num_windows
  window_for mw (some w) = w

  unfoldable pub add : {A : Type 0} → MapWindow M → Request A → MapWindow M
  unfolding window_for
  add mw req =
      let w = window_for mw (lookup req.user_agent mw.windows) in
      record mw { windows = insert req.user_agent (Window.add w req.time) mw.windows }

  unfoldable pub total_of : List (String × Window M) → ℕ
  total_of [] = 0
  total_of ((k, w) ∷ ws) = count w + total_of ws

  unfoldable pub total : MapWindow M → ℕ
  unfolding total_of
  total mw = total_of mw.windows

  unfoldable pub total_map_of : List (String × Window M) → List (String × ℕ)
  total_map_of [] = []
  total_map_of ((k, w) ∷ ws) = (k, count w) ∷ total_map_of ws

  unfoldable pub total_map : MapWindow M → List (String × ℕ)
  unfolding total_map_of
  total_map mw = total_map_of mw.windows

  unfoldable pub size : MapWindow M → ℕ
  size mw = length mw.windows

  -- The loop of `Expire`: the windows that are left, and the sum of their sizes.
  unfoldable pub expire_windows : Clock → List (String × Window M) → List (String × Window M) × ℕ
  expire_windows clock [] = ([], 0)
  expire_windows clock ((k, w) ∷ ws) =
      let (w', left) = Window.expire (clock 0) w in
      let (ws', count) = expire_windows (λ i. clock (suc i)) ws in
      (if left == 0 then ws' else (k, w') ∷ ws', left + count)

  unfoldable pub expire : Clock → MapWindow M → MapWindow M × ℕ
  unfolding expire_windows
  expire clock mw =
      let (ws, count) = expire_windows clock mw.windows in (record mw { windows = ws }, count)
