-- ===== src/Api/Windows.antt =====
-- getRequestStats: when it panics, and what it answers.
use mathlib.Core.Option
use mathlib.Core.Option.{some-injective, none-ne-some}
use botex.Prelude.{
  ◌≢◌, ◌≤◌, ltb, ◌||◌, ℕ, zero, suc, ◌≡◌, ◌↔◌, inl, inr, refl, ap, ◌∙◌, String, Option, none, some,
  Bool, Bool-cases, true, false, List, [], if◌then◌else◌, str_eq, arith, Option-cases,
}
use botex.Prelude.Atoi.{ℤ, pos, negsuc, atoi}
use botex.Data.{Bytes}
use botex.Requests.{Requests, app_stats, total_stats}
use botex.Requests
use botex.IpData.{IpData}
use botex.History.{Net, History, ip_data}
use botex.Treemap.{Treemap, Entries}
use botex.Window.{Time}
use botex.Window.Tally.{total}
use botex.Window.Rolling.{total-bucket_map}
use botex.Api.{ok, not_acceptable}
use botex.Api.RequestStats.{
  RequestWindow, empty_windows, window_size, count_windows, to_answer, stats_of, client_windows,
  get_request_stats,
}
use botex.Api.Buckets.{
  counted, IsCounted, count_windows_lem, is_ahead, add_counts-none_iff, empty_windows-length,
}

-- What `count_windows` cannot answer.
abbrev pub is_refused : ℕ → Time → ℤ → Entries ℕ → Bool
is_refused limit now (negsuc n) es = true
is_refused limit now (pos zero) es = true
is_refused limit now (pos (suc n)) es =
    ltb limit (suc n) || is_ahead now (window_size (suc n) es) es

count_windows-none_iff :
    (limit : ℕ) (now : Time) (windows : ℤ) (es : Entries ℕ)
    → (count_windows limit now windows es ≡ none) ↔ (is_refused limit now windows es ≡ true)
unfolding count_windows
count_windows-none_iff limit now (negsuc n) es = (λ _. refl, λ _. refl)
count_windows-none_iff limit now (pos zero) es = (λ _. refl, λ _. refl)
count_windows-none_iff limit now (pos (suc n)) es =
    let size = window_size (suc n) es in
    elim (Bool-cases (ltb limit (suc n))) [
      | inl e ↦ rw e (λ _. refl, λ _. refl)
      | inr e ↦ rw e (
          add_counts-none_iff now size n es (empty_windows now size (suc n) 0 [])
            (omega (arith, empty_windows-length now size (suc n) 0 [])))
    ]

to_answer-none_iff : {X : Type 0} (x : Option X) → (to_answer x ≡ none) ↔ (x ≡ none)
unfolding to_answer
to_answer-none_iff none = (λ _. refl, λ _. refl)
to_answer-none_iff (some x) = (λ h. absurd (cc), λ h. absurd (cc))

-- The number is one, the client is there, and its windows cannot be counted.
abbrev pub panics :
    {M A G F : Type 0}
    → ⦃tm : Treemap M ℕ⦄ → ℕ
    → Time
    → String
    → Option ℤ
    → Option (IpData M A G F)
    → Bool
panics limit now type none client = false
panics limit now type (some windows) none = false
panics limit now type (some windows) (some ipd) =
    is_refused limit now windows (stats_of type ipd.requests)

module _ {M A G F : Type 0} ⦃tm : Treemap M ℕ⦄ where
  client_windows-none_iff :
      (limit : ℕ) (now : Time) (windows : ℤ) (type : String) (client : Option (IpData M A G F))
      → (client_windows limit now windows type client ≡ none)
        ↔ (panics limit now type (some windows) client ≡ true)
  unfolding client_windows
  client_windows-none_iff limit now windows type none = (λ h. absurd (cc), λ h. absurd (cc))
  client_windows-none_iff limit now windows type (some ipd) =
      let es = stats_of type ipd.requests in
      let (to, from) = to_answer-none_iff (count_windows limit now windows es) in
      let (to', from') = count_windows-none_iff limit now windows es in
      (λ h. to' (to h), λ h. from (from' h))

module _ {M W A G F : Type 0} ⦃tm : Treemap M ℕ⦄ (net : Net A G) where
  -- getRequestStats panics exactly for a client that is there, and a number of windows that is
  -- not positive, that is greater than what `make` accepts, or for which some instant of the
  -- statistics lies a window or more ahead of the clock.
  pub get_request_stats-none_iff :
      (limit : ℕ) (now : Time) (ip : String) (text : Bytes) (type : String) (h : History M W A G F)
      → (get_request_stats net limit now ip text type h ≡ none) ↔ (
          panics limit now type (atoi text) (ip_data net h (Option.get_or (net.parse_ip ip) []))
          ≡ true)
  unfolding get_request_stats
  get_request_stats-none_iff limit now ip text type h = elim (Option-cases (atoi text)) [
    | inl e ↦ rw (e, get_request_stats) (λ h. absurd (cc), λ h. absurd (cc))
    | inr (windows, e) ↦
        rw (e, get_request_stats) (client_windows-none_iff limit now windows type _)
  ]

module _ {M A : Type 0} ⦃tm : Treemap M ℕ⦄ where
  -- The statistics add up to the client's `App()` or `Total()`.
  total-stats_of :
      (type : String) (r : Requests M Bytes A)
      → total (stats_of type r) ≡ (if str_eq type "app" then Requests.app r else Requests.total r)
  unfolding stats_of app_stats total_stats Requests.app Requests.total
  total-stats_of type r = elim (Bool-cases (str_eq type "app")) [
    | inl e ↦ rw e (total-bucket_map r.app_window)
    | inr e ↦ rw e (total-bucket_map r.all_window)
  ]

to_answer_ok : {X : Type 0} (x : Option X) (y : X) → to_answer x ≡ some (ok y) → x ≡ some y
unfolding to_answer
to_answer_ok none y h = absurd (cc)
to_answer_ok (some x) y h = cc

answer-ne : {X : Type 0} (y : X) → some not_acceptable ≢ some (ok y)
answer-ne y h = cc

count_windows-pos :
    (limit : ℕ) (now : Time) (windows : ℤ) (es : Entries ℕ) (ws : List RequestWindow)
    → count_windows limit now windows es ≡ some ws
    → (n : ℕ) × (windows ≡ pos (suc n)) × (suc n ≤ limit) × IsCounted now n es ws
unfolding count_windows
count_windows-pos limit now (negsuc n) es ws h = absurd (none-ne-some ws h)
count_windows-pos limit now (pos zero) es ws h = absurd (none-ne-some ws h)
count_windows-pos limit now (pos (suc n)) es ws h =
    let (fits, c) = count_windows_lem limit now n es ws h in (n, refl, fits, c)

module _ {M A G F : Type 0} ⦃tm : Treemap M ℕ⦄ where
  client_windows_lem :
      (limit : ℕ) (now : Time) (windows : ℤ) (type : String) (client : Option (IpData M A G F))
      (ws : List RequestWindow)
      → client_windows limit now windows type client ≡ some (ok ws)
      → (n : ℕ) × (ipd : IpData M A G F) × (windows ≡ pos (suc n))
        × (suc n ≤ limit)
        × (client ≡ some ipd)
        × IsCounted now n (stats_of type ipd.requests) ws
  unfolding client_windows
  client_windows_lem limit now windows type none ws h = absurd (cc)
  client_windows_lem limit now windows type (some ipd) ws h =
      let (n, e, fits, c) = count_windows-pos limit now windows _ ws (to_answer_ok _ ws h) in
      (n, ipd, e, fits, refl, c)

module _ {M W A G F : Type 0} ⦃tm : Treemap M ℕ⦄ (net : Net A G) where
  -- An answer of getRequestStats: the number of windows is a positive number that `make` accepts, and
  -- the client is there. There are as many windows as asked for, and their counts add up to the client's App() for
  -- the type "app", and to its Total() for any other. The window at index `j` starts as many
  -- window sizes ago as there are windows behind it, cut to a whole window size, and counts the
  -- requests whose age is `j` window sizes; the last window counts also all that are older.
  pub get_request_stats_lem :
      (limit : ℕ) (now : Time) (ip : String) (text : Bytes) (type : String) (h : History M W A G F)
      (ws : List RequestWindow)
      → get_request_stats net limit now ip text type h ≡ some (ok ws)
      → (n : ℕ) × (ipd : IpData M A G F) × (atoi text ≡ some (pos (suc n)))
        × (suc n ≤ limit)
        × (ip_data net h (Option.get_or (net.parse_ip ip) []) ≡ some ipd)
        × IsCounted now n (stats_of type ipd.requests) ws
        × (counted ws ≡ (
            if str_eq type "app" then Requests.app ipd.requests else Requests.total ipd.requests))
  unfolding get_request_stats
  get_request_stats_lem limit now ip text type h ws run = elim (Option-cases (atoi text)) [
    | inl e ↦ absurd (answer-ne ws (rw (e, get_request_stats) at run))
    | inr (windows, e) ↦
        let (n, ipd, w, fits, there, c) =
          client_windows_lem limit now windows type _ ws (rw (e, get_request_stats) at run) in
        (n, ipd, e ∙ ap some w, fits, there, c, c.1 ∙ total-stats_of type ipd.requests)
  ]
