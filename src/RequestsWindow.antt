-- ===== src/RequestsWindow.antt =====
-- requestwindow.go: the latest requests of one client, newest at the front. `container/list` is a
-- list with its front at the head. The nil tests of `Expire` have no counterpart: the list and
-- its elements are never nil here.
pub mod Latest
pub mod Tests
use botex.Prelude.{
  ℕ, zero, suc, ◌+◌, ◌*◌, Option, none, some, List, [], ◌∷◌, ltb, leb, if◌then◌else◌, length,
}
use botex.Window.{Time, Duration}
use botex.Data.{Request}

pub record RequestsWindow (A : Type 0) : Type 0 where
  pub requests : List (Request A)
  pub max_size : ℕ
  pub ttl : Duration
  pub window_size : Duration
  pub num_windows : ℕ

module _ {R : Type 0} where
  -- `Back()`
  unfoldable pub back : List R → Option R
  back [] = none
  back (r ∷ []) = some r
  back (r ∷ s ∷ rs) = back (s ∷ rs)

  -- `Remove(Back())`
  unfoldable pub remove_back : List R → List R
  remove_back [] = []
  remove_back (r ∷ []) = []
  remove_back (r ∷ s ∷ rs) = r ∷ remove_back (s ∷ rs)

module _ {A : Type 0} where
  unfoldable pub new_requests_window : ℕ → Duration → ℕ → RequestsWindow A
  new_requests_window max_requests window_size num_windows = record {
    requests = [];
    max_size = max_requests;
    ttl = window_size * num_windows;
    window_size = window_size;
    num_windows = num_windows;
  }

  unfoldable pub add : RequestsWindow A → Request A → RequestsWindow A
  unfolding remove_back
  add rw r =
      let pushed = r ∷ rw.requests in
      record rw {
        requests = if ltb rw.max_size (length pushed) then remove_back pushed else pushed;
      }

  -- The loop of `Expire`; the fuel is the length of the list, as each round but the last removes
  -- one element.
  unfoldable pub expire_back : ℕ → Time → Duration → List (Request A) → List (Request A)
  unfolding back remove_back
  expire_back zero now ttl rs = rs
  expire_back (suc fuel) now ttl rs = elim (back rs) [
    | none ↦ rs
    | some oldest ↦
        let rest = expire_back fuel now ttl (remove_back rs) in
        if leb now (oldest.time + ttl) then rs else rest
  ]

  -- The window, and the number of requests that are left.
  unfoldable pub expire : Time → RequestsWindow A → RequestsWindow A × ℕ
  unfolding expire_back
  expire now rw =
      let rest = expire_back (length rw.requests) now rw.ttl rw.requests in
      (record rw { requests = rest }, length rest)
