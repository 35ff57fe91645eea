-- ===== src/RequestsWindow/Tests.antt =====
-- Runs of a window that keeps two requests, for 30 ns.
use mathlib.Core.List.{foldl}
use botex.Prelude.{ℕ, String, ◌≡◌, refl, none, false, List, [], ◌∷◌, length, take}
use botex.Data.{Request}
use botex.RequestsWindow.{RequestsWindow, new_requests_window, add, expire}
use botex.RequestsWindow.Latest.{newest_first, Trimmed, adds_keep_newest, expire-Trimmed}

abbrev pub request_at : ℕ → Request String
request_at t = record {
  url = [];
  host = "test.scw";
  user_agent = "test/1.0";
  source = "192.0.2.1";
  method = "GET";
  seq = 0;
  timestamp = t;
  time = t;
  asn = none;
  is_app = false;
}

abbrev three : List (Request String)
three = request_at 100 ∷ request_at 105 ∷ request_at 117 ∷ []

abbrev window : RequestsWindow String
window = foldl add (new_requests_window 2 10 3) three

run : window.requests ≡ request_at 117 ∷ request_at 105 ∷ []
unfolding new_requests_window add
run = refl

run_expire : (expire 140 window).0.requests ≡ request_at 117 ∷ []
unfolding new_requests_window add expire
run_expire = refl

adds_keep_newest_run : window.requests ≡ take 2 (newest_first [] three)
adds_keep_newest_run = adds_keep_newest 2 10 3 three

expire-Trimmed_run :
    Trimmed 140 window.ttl window.requests (expire 140 window).0.requests
    × ((expire 140 window).1 ≡ length (expire 140 window).0.requests)
expire-Trimmed_run = expire-Trimmed 140 window
