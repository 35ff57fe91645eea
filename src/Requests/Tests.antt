-- ===== src/Requests/Tests.antt =====
-- A client that asks for a page and an image, with buckets of 10 ns over 30 ns.
use mathlib.Core.List.{foldl}
use botex.Prelude.{
  ℕ, String, ◌+◌, ◌/◌, ◌≡◌, ◌⊎◌, refl, some, none, true, false, not, List, [], ◌∷◌, ltb, leb,
  length, count_if,
}
use botex.Treemap.Sorted.{SortedMap, sorted_map, sorted_run}
use botex.Float64.{Float64}
use botex.Data.{Request, IpStats}
use botex.Matchers.{codes, is_asset}
use botex.MapWindow
use botex.Window
use botex.Window.{count, new_window}
use botex.MapWindow.{Clock}
use botex.Requests.{
  Config, Requests, new_requests, total, app, can_be_expired, expire_all, other, expire,
  record_request, add,
}
use botex.Requests.Balance.{
  hit_of, is_app, left_hits, Balanced, Op, adds, expires, step, new_requests-Balanced, add-Balanced,
  run_totals_agree,
}
use botex.RequestsWindow.Tests.{request_at}

-- Whole numbers in place of floats, for the runs.
abbrev pub whole : Float64 ℕ
whole = record { of_int = λ n. n; add = λ a b. a + b; div = λ a b. a / b; lt = ltb; le = leb }

abbrev page : Request String
page = record (request_at 100) { url = codes "/index.html" }

abbrev image : Request String
image = record (request_at 117) { url = codes "/logo.png" }

abbrev config : Config
config = record { window_size = 10; num_windows = 3; keep_requests = 50 }

abbrev client : Requests (SortedMap ℕ) ℕ String
client = new_requests (λ _. 90) 7 config

abbrev ops : List (Op String)
ops = adds false 100 page ∷ adds false 117 image ∷ expires 140 ∷ adds true 141 page ∷ []

run :
    app (
      foldl
        (step (SortedMap ℕ) ℕ String ℕ whole)
        client
        (adds false 100 page ∷ adds false 117 image ∷ []))
    ≡ 1
unfolding step add new_requests record_request expire can_be_expired expire_all app is_asset
    sorted_run count Window.expire Window.add new_window
run = refl

run_totals_agree_example :
    (app (foldl (step (SortedMap ℕ) ℕ String ℕ whole) client ops)
        + other (foldl (step (SortedMap ℕ) ℕ String ℕ whole) client ops)
      ≡ total (foldl (step (SortedMap ℕ) ℕ String ℕ whole) client ops))
    × (MapWindow.total (foldl (step (SortedMap ℕ) ℕ String ℕ whole) client ops).user_agents
        ≡ total (foldl (step (SortedMap ℕ) ℕ String ℕ whole) client ops))
run_totals_agree_example = run_totals_agree (SortedMap ℕ) ℕ String ℕ whole 10 3 50 (λ _. 90) 7 ops

add-Balanced_run :
    let hs' = hit_of page ∷ left_hits 10 3 100 [] client in
    let (r', req', sent) = add whole false (λ _. 100) client page in
    Balanced 10 3 hs' r'
    × (req'.is_app ≡ not (is_asset page.url))
    × ((false ≡ true) × (sent ≡ none) × (r'.update_chan_is_closed ≡ true)
        ⊎ ((st : IpStats String ℕ ℕ) × (false ≡ false)
            × (sent ≡ some st)
            × (st.total ≡ length hs')
            × (st.app ≡ count_if is_app hs')
            × (st.other ≡ count_if (λ h. h.asset) hs')
            × (st.app + st.other ≡ st.total)))
add-Balanced_run =
    add-Balanced 10 3 whole false (λ _. 100) 100 [] client page (λ i. refl)
      (new_requests-Balanced 10 3 (λ _. 90) 7 50)
