-- ===== src/NetworkData/Totals.antt =====
-- The counters of a network against the requests that it has handled.
use botex.Prelude.{
  ℕ, ◌+◌, ◌-◌, ◌*◌, ◌^◌, ◌≤◌, ◌≡◌, refl, ◌∙◌, String, Bool, true, not, List, [], ◌∷◌, arith,
  Bool-cases, inl, inr, if◌then◌else◌, length, count_if, some,
}
use botex.Float64.{Float64}
use botex.Treemap.{Treemap}
use botex.Data.{Bytes, Request}
use botex.Matchers.{is_asset}
use botex.Window.{Time, Duration, bucket_start, count}
use botex.Window.Tally.{tally}
use botex.Window.Rolling.{count-Counts}
use botex.NetworkData.{
  BidiMap, NetworkData, increment, update_count, update_stats, count_request, new_network_data,
  handle_request, number_of_ips, host_count,
}

-- The instants of the requests for which the test is true.
abbrev times_of : {A : Type 0} → (Request A → Bool) → List (Request A) → List Time
times_of p [] = []
times_of p (r ∷ rs) = if p r then r.time ∷ times_of p rs else times_of p rs

length-times_of :
    {A : Type 0} (p : Request A → Bool) (rs : List (Request A))
    → length (times_of p rs) ≡ count_if p rs
length-times_of p [] = refl
length-times_of p (r ∷ rs) = ground (arith, length-times_of p rs)

module _ {M : Type 0} ⦃tm : Treemap M ℕ⦄ where
  increment-tally :
      (m : M) (size : Duration) (t : Time) (ts : List Time)
      → tm.entries m ≡ tally size ts
      → tm.entries (increment m (bucket_start size t)) ≡ tally size (t ∷ ts)
  unfolding increment tally
  increment-tally m size t ts e = tm.entries_put m _ _ ∙ rw (tm.get_lem, e) refl

  update_count-tally :
      (m : M) (size : Duration) (ts : List Time)
      → tm.entries m ≡ tally size ts
      → update_count m ≡ length ts
  unfolding update_count count
  update_count-tally m size ts e =
      count-Counts size 0 ts (record { buckets = m; window_size = size; num_windows = 0 })
        (record { same_size = refl; same_num = refl; histogram = e })

abbrev pub asset : {A : Type 0} → Request A → Bool
asset r = is_asset r.url

abbrev pub page : {A : Type 0} → Request A → Bool
page r = not (is_asset r.url)

abbrev pub requests_of : {A : Type 0} → List (Request A × Time) → List (Request A)
requests_of [] = []
requests_of ((r, now) ∷ rs) = r ∷ requests_of rs

module _ {M I A N F : Type 0} ⦃tm : Treemap M ℕ⦄ ⦃bidi : BidiMap I⦄ ⦃float : Float64 F⦄ where
  -- The three maps are the histograms of all requests, of those of pages and of those of assets.
  record Tracks (size : Duration) (rs : List (Request A)) (nd : NetworkData M I A N F)
      : Type 0 where
    same_size : nd.window_size ≡ size
    all : tm.entries nd.total_map ≡ tally size (times_of (λ r. true) rs)
    pages : tm.entries nd.app_map ≡ tally size (times_of page rs)
    assets : tm.entries nd.other_map ≡ tally size (times_of asset rs)

  handle_request-Tracks :
      (ip_text : String → Bytes) (size : Duration) (rs : List (Request A))
      (nd : NetworkData M I A N F)
      → (r : Request A) (now : Time) → Tracks size rs nd
      → Tracks size (r ∷ rs) (handle_request ip_text nd r now)
  unfolding handle_request update_stats count_request
  handle_request-Tracks ip_text size rs nd r now t = elim (Bool-cases (is_asset r.url)) [
    | inl e ↦ record {
      same_size = t.same_size;
      all = rw (t.same_size) (increment-tally nd.total_map size r.time _ t.all);
      pages = rw (e) (t.pages);
      assets = rw (e, t.same_size) (increment-tally nd.other_map size r.time _ t.assets);
    }
    | inr e ↦ record {
      same_size = t.same_size;
      all = rw (t.same_size) (increment-tally nd.total_map size r.time _ t.all);
      pages = rw (e, t.same_size) (increment-tally nd.app_map size r.time _ t.pages);
      assets = rw (e) (t.assets);
    }
  ]

  -- What a network is after the requests of a list, the newest first, each with the clock's reading.
  unfoldable pub handle_all :
      (String → Bytes) → NetworkData M I A N F → List (Request A × Time) → NetworkData M I A N F
  handle_all ip_text nd [] = nd
  handle_all ip_text nd ((r, now) ∷ earlier) =
      handle_request ip_text (handle_all ip_text nd earlier) r now

  handle_all-Tracks :
      (ip_text : String → Bytes) (size : Duration) (nd : NetworkData M I A N F)
      (rs : List (Request A × Time))
      → Tracks size [] nd
      → Tracks size (requests_of rs) (handle_all ip_text nd rs)
  unfolding handle_all
  handle_all-Tracks ip_text size nd [] t = t
  handle_all-Tracks ip_text size nd ((r, now) ∷ rs) t =
      handle_request-Tracks ip_text size (requests_of rs) (handle_all ip_text nd rs) r now
        (handle_all-Tracks ip_text size nd rs t)

  new_network_data-Tracks :
      (network : N) (size : Duration) (num : ℕ) (now : Time)
      → Tracks size [] (new_network_data {M = M} {I = I} {A = A} {F = F} network size num now)
  unfolding new_network_data tally
  new_network_data-Tracks network size num now = record {
    same_size = refl;
    all = tm.entries_new;
    pages = tm.entries_new;
    assets = tm.entries_new;
  }

  handle_request-counts :
      (ip_text : String → Bytes) (size : Duration) (rs : List (Request A))
      (nd : NetworkData M I A N F)
      → (r : Request A) (now : Time) → Tracks size rs (handle_request ip_text nd r now)
      → let nd' = handle_request ip_text nd r now in
        (nd'.total ≡ length (times_of (λ r. true) rs))
        × (nd'.app ≡ length (times_of page rs))
        × (nd'.other ≡ length (times_of asset rs))
  unfolding handle_request update_stats
  handle_request-counts ip_text size rs nd r now t = (
    update_count-tally _ size _ t.all,
    update_count-tally _ size _ t.pages,
    update_count-tally _ size _ t.assets,
  )

pages_and_assets :
    {A : Type 0} (rs : List (Request A))
    → (count_if (λ (r : Request A). true) rs ≡ length rs)
      × (count_if page rs + count_if asset rs ≡ length rs)
pages_and_assets [] = (refl, refl)
pages_and_assets (r ∷ rs) = ground (arith, pages_and_assets rs)

module _ (M I A N F : Type 0) ⦃tm : Treemap M ℕ⦄ ⦃bidi : BidiMap I⦄ ⦃float : Float64 F⦄ where
  -- A new network that has then handled a request, and others before it: its total is the number of
  -- these requests, and of them it counts as other exactly those for assets and as app the rest, so
  -- that app and other requests add up to the total.
  pub handle_all-totals :
      (ip_text : String → Bytes) (network : N) (size : Duration) (num : ℕ) (start : Time)
      → (r : Request A) (now : Time) (earlier : List (Request A × Time))
      → let new : NetworkData M I A N F = new_network_data network size num start in
        let rs = r ∷ requests_of earlier in
        let nd = handle_all ip_text new ((r, now) ∷ earlier) in
        (nd.total ≡ length rs)
        × (nd.app ≡ count_if page rs)
        × (nd.other ≡ count_if asset rs)
        × (nd.total ≡ nd.app + nd.other)
  unfolding handle_all
  handle_all-totals ip_text network size num start r now earlier =
      let new : NetworkData M I A N F = new_network_data network size num start in
      let rs = r ∷ requests_of earlier in
      let tracks =
        handle_all-Tracks ip_text size new ((r, now) ∷ earlier)
          (new_network_data-Tracks network size num start) in
      let (total, app, other) =
        handle_request-counts ip_text size rs (handle_all ip_text new earlier) r now tracks in
      let (all, split) = pages_and_assets rs in
      let t = total ∙ length-times_of (λ r. true) rs ∙ all in
      let a = app ∙ length-times_of page rs in
      let o = other ∙ length-times_of asset rs in (t, a, o, omega (arith, t, a, o, split))

-- The number that NumberOfIPs returns for a mask of four bytes lacks the first byte: with that byte
-- it is the largest host number of the network, which is 2 ^ 32 - 1 less the mask. So it is exact
-- for a mask that starts with 255.
pub number_of_ips_lem :
    (a b c d : ℕ)
    → a ≤ 255
    → b ≤ 255
    → c ≤ 255
    → d ≤ 255
    → (n : ℕ) × (number_of_ips (a ∷ b ∷ c ∷ d ∷ []) ≡ some n)
      × (n + (255 - a) * 2 ^ 24 + (a * 2 ^ 24 + b * 2 ^ 16 + c * 2 ^ 8 + d) ≡ 2 ^ 32 - 1)
unfolding number_of_ips host_count
number_of_ips_lem a b c d ha hb hc hd =
    ((255 - b) * 2 ^ 16 + (255 - c) * 2 ^ 8 + (255 - d), refl, omega arith)
