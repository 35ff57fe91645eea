-- ===== src/Requests/Balance.antt =====
-- The windows of one client agree: all requests are the app requests and the others, and also the
-- requests of all its user agents.
use mathlib.Core.List.{foldl}
use botex.Prelude.{
  ℕ, suc, ◌+◌, ◌≡◌, refl, ap, ◌∙◌, sym, String, none, some, Bool, true, false, not, List, [], ◌∷◌,
  arith, if◌then◌else◌, length, select, count_if, Bool-cases, inl, inr, count_if-true, ◌⊎◌,
}
use botex.Treemap.{Treemap}
use botex.Float64.{Float64}
use botex.Window.{Time, Duration, Window, count}
use botex.Window
use botex.Window.Rolling.{
  Counts, new_window-Counts, add-Counts, expire-Counts, count-Counts, expire-empty,
}
use botex.Data.{Request, IpStats}
use botex.MapWindow.{Clock}
use botex.MapWindow
use botex.MapWindow.Totals.{is_recent}
use botex.MapWindow.Rolling.{Seen, Follows, new-Follows, add-Follows, expire-Follows, total-Follows}
use botex.Matchers.{is_asset}
use botex.Requests.{
  Config, Requests, new_requests, total, app, other, can_be_expired, expire_all, expire,
  record_request, current_stats, add,
}

-- A request as the windows see it.
pub record Hit : Type 0 where
  pub agent : String
  pub time : Time
  pub asset : Bool

unfoldable pub hit_of : {A : Type 0} → Request A → Hit
hit_of r = record { agent = r.user_agent; time = r.time; asset = is_asset r.url }

abbrev pub is_app : Hit → Bool
is_app h = not h.asset

-- The instants of the hits that pass a test.
abbrev pub times_if : (Hit → Bool) → List Hit → List Time
times_if p [] = []
times_if p (h ∷ hs) = let rest = times_if p hs in if p h then h.time ∷ rest else rest

abbrev pub seen : List Hit → List Seen
seen [] = []
seen (h ∷ hs) = (h.agent, h.time) ∷ seen hs

-- The hits that are still counted after an `Expire`.
abbrev pub recent_hits : Time → Duration → ℕ → List Hit → List Hit
recent_hits now size num = select (λ h. is_recent now size num h.time)

times_if-recent :
    (q : Time → Bool) (p : Hit → Bool) (hs : List Hit)
    → select q (times_if p hs) ≡ times_if p (select (λ h. q h.time) hs)
times_if-recent q p [] = refl
times_if-recent q p (h ∷ hs) = ground (arith, times_if-recent q p hs)

seen-recent :
    (q : Time → Bool) (hs : List Hit)
    → select (λ r. q r.1) (seen hs) ≡ seen (select (λ h. q h.time) hs)
seen-recent q [] = refl
seen-recent q (h ∷ hs) = ground (arith, seen-recent q hs)

times_if-nil : (hs : List Hit) → times_if (λ _. true) hs ≡ [] → hs ≡ []
times_if-nil [] h = refl
times_if-nil (x ∷ hs) h = absurd (cc)

length-times_if : (p : Hit → Bool) (hs : List Hit) → length (times_if p hs) ≡ count_if p hs
length-times_if p [] = refl
length-times_if p (h ∷ hs) = ground (arith, length-times_if p hs)

length-seen : (hs : List Hit) → length (seen hs) ≡ length hs
length-seen [] = refl
length-seen (h ∷ hs) = ap suc (length-seen hs)

app-add-other : (hs : List Hit) → count_if is_app hs + count_if (λ h. h.asset) hs ≡ length hs
app-add-other [] = refl
app-add-other (h ∷ hs) = ground (arith, app-add-other hs)

module _ {M : Type 0} ⦃tm : Treemap M ℕ⦄ (size : Duration) (num : ℕ) where
  expire_window :
      (clock : Clock) (now : Time) (i : ℕ) (p : Hit → Bool) (hs : List Hit) (w : Window M)
      → ((i : ℕ) → clock i ≡ now)
      → Counts size num (times_if p hs) w
      → Counts size num (times_if p (recent_hits now size num hs)) (Window.expire (clock i) w).0
  expire_window clock now i p hs w still c =
      rw (still i, ← times_if-recent (is_recent now size num) p hs)
        (expire-Counts size num (times_if p hs) w now c)

module _ {M I A : Type 0} ⦃tm : Treemap M ℕ⦄ (size : Duration) (num : ℕ) where
  -- The four windows count the same hits.
  pub record Balanced (hs : List Hit) (r : Requests M I A) : Type 0 where
    pub all : Counts size num (times_if (λ _. true) hs) r.all_window
    pub apps : Counts size num (times_if is_app hs) r.app_window
    pub others : Counts size num (times_if (λ h. h.asset) hs) r.other_window
    pub agents : Follows size num (seen hs) r.user_agents

  expire_all-Balanced :
      (clock : Clock) (now : Time) (hs : List Hit) (r : Requests M I A)
      → ((i : ℕ) → clock i ≡ now)
      → Balanced hs r
      → Balanced (recent_hits now size num hs) (expire_all clock r).0
  unfolding expire_all
  expire_all-Balanced clock now hs r still b = record {
    all = expire_window size num clock now 1 (λ _. true) hs r.all_window still b.all;
    apps = expire_window size num clock now 2 is_app hs r.app_window still b.apps;
    others = expire_window size num clock now 3 (λ h. h.asset) hs r.other_window still b.others;
    agents = rw (← seen-recent (is_recent now size num) hs) (
        expire-Follows size num (seen hs) r.user_agents (λ i. clock (4 + i)) now
          (λ i. still (4 + i)) b.agents);
  }

  -- The hits that are left when `Expire` has run, or has declined to.
  abbrev pub left_hits : Time → List Hit → Requests M I A → List Hit
  left_hits now hs r = if can_be_expired now r then recent_hits now size num hs else hs

  pub expire-Balanced :
      (clock : Clock) (now : Time) (hs : List Hit) (r : Requests M I A)
      → ((i : ℕ) → clock i ≡ now)
      → Balanced hs r
      → Balanced (left_hits now hs r) (expire clock r).0
  unfolding expire
  expire-Balanced clock now hs r still b = elim (Bool-cases (can_be_expired now r)) [
    | inl due ↦ rw (still 0, due) (expire_all-Balanced clock now hs r still b)
    | inr early ↦ rw (still 0, early) b
  ]

  expire-due :
      (clock : Clock) (r : Requests M I A)
      → can_be_expired (clock 0) r ≡ true
      → expire clock r ≡ expire_all clock r
  unfolding expire
  expire-due clock r e = rw e refl

  -- `Expire` that has run and leaves nothing has no hit left to count.
  pub expire-stale :
      (clock : Clock) (now : Time) (hs : List Hit) (r : Requests M I A)
      → ((i : ℕ) → clock i ≡ now)
      → Balanced hs r
      → can_be_expired now r ≡ true
      → (expire clock r).1 ≡ 0
      → recent_hits now size num hs ≡ []
  unfolding expire_all
  expire-stale clock now hs r still b due h =
      let runs : can_be_expired (clock 0) r ≡ true = ap (λ t. can_be_expired t r) (still 0) ∙ due in
      let gone : (expire_all clock r).1 ≡ 0 = ap (λ x. x.1) (sym (expire-due clock r runs)) ∙ h in
      let first : (Window.expire (clock 1) r.all_window).1 ≡ 0 = omega (arith, gone) in
      times_if-nil (recent_hits now size num hs) (
        sym (times_if-recent (is_recent now size num) (λ _. true) hs)
        ∙ (expire-empty size num _ r.all_window now b.all).0
            (ap (λ t. (Window.expire t r.all_window).1) (sym (still 1)) ∙ first))

  record_request-Balanced :
      (hs : List Hit) (r : Requests M I A) (req : Request A)
      → Balanced hs r
      → Balanced (hit_of req ∷ hs) (record_request r req).0
  unfolding record_request hit_of
  record_request-Balanced hs r req b = record {
    all = add-Counts size num (times_if (λ _. true) hs) r.all_window req.time b.all;
    apps = elim (Bool-cases (is_asset req.url)) [
      | inl asset ↦ rw asset b.apps
      | inr page ↦ rw page (add-Counts size num (times_if is_app hs) r.app_window req.time b.apps)
    ];
    others = elim (Bool-cases (is_asset req.url)) [
      | inl asset ↦
          rw asset
            (add-Counts size num (times_if (λ h. h.asset) hs) r.other_window req.time b.others)
      | inr page ↦ rw page b.others
    ];
    agents =
        add-Follows size num (seen hs) r.user_agents
          (record req { is_app = not (is_asset req.url) }) b.agents;
  }

  pub new_requests-Balanced :
      (clock : Clock) (ip : I) (keep : ℕ)
      → Balanced [] (
          new_requests clock ip
            (record { window_size = size; num_windows = num; keep_requests = keep }))
  unfolding new_requests
  new_requests-Balanced clock ip keep = record {
    all = new_window-Counts size num;
    apps = new_window-Counts size num;
    others = new_window-Counts size num;
    agents = new-Follows size num;
  }

  pub total-Balanced : (hs : List Hit) (r : Requests M I A) → Balanced hs r → total r ≡ length hs
  unfolding total
  total-Balanced hs r b =
      count-Counts size num _ r.all_window b.all ∙ length-times_if (λ _. true) hs ∙ count_if-true hs

  pub app-Balanced :
      (hs : List Hit) (r : Requests M I A) → Balanced hs r → app r ≡ count_if is_app hs
  unfolding app
  app-Balanced hs r b = count-Counts size num _ r.app_window b.apps ∙ length-times_if is_app hs

  pub other-Balanced :
      (hs : List Hit) (r : Requests M I A) → Balanced hs r → other r ≡ count_if (λ h. h.asset) hs
  unfolding other
  other-Balanced hs r b =
      count-Counts size num _ r.other_window b.others ∙ length-times_if (λ h. h.asset) hs

  agents-Balanced :
      (hs : List Hit) (r : Requests M I A)
      → Balanced hs r
      → MapWindow.total r.user_agents ≡ length hs
  agents-Balanced hs r b = total-Follows size num (seen hs) r.user_agents b.agents ∙ length-seen hs

  is_app-record_request :
      (r : Requests M I A) (req : Request A)
      → (record_request r req).1.is_app ≡ not (is_asset req.url)
  unfolding record_request
  is_app-record_request r req = refl

  -- While the windows count the hits `hs`, the client's total is the number of them and its app and
  -- other counts add up to it, and so do the counts of its user agents.
  pub totals_agree :
      (hs : List Hit) (r : Requests M I A)
      → Balanced hs r
      → (total r ≡ length hs)
        × (app r + other r ≡ total r)
        × (MapWindow.total r.user_agents ≡ total r)
  totals_agree hs r b =
      let t = total-Balanced hs r b in
      (
        t,
        omega (arith, t, app-Balanced hs r b, other-Balanced hs r b, app-add-other hs),
        agents-Balanced hs r b ∙ sym t,
      )

  module _ {F : Type 0} (fl : Float64 F) where
    stats-Balanced :
        (hs : List Hit) (r : Requests M I A) (req : Request A)
        → Balanced hs r
        → let st = current_stats fl r req in
          (st.total ≡ length hs)
          × (st.app ≡ count_if is_app hs)
          × (st.other ≡ count_if (λ h. h.asset) hs)
          × (st.app + st.other ≡ st.total)
    unfolding current_stats total app other
    stats-Balanced hs r req b =
        let t = total-Balanced hs r b in
        let a = app-Balanced hs r b in
        let o = other-Balanced hs r b in (t, a, o, omega (arith, t, a, o, app-add-other hs))

    -- What `Add` records and sends, on a client whose windows count the hits `hs`, with a clock that
    -- stands still during the call. The windows then count the request and, of `hs`, all if `Expire`
    -- declined, else those in recent buckets. Unless the channel is closed, the message that is sent
    -- has the number of these hits as its total, the number of app requests among them as its app
    -- count and of assets as its other count, and the two add up to the total. The request is marked
    -- as an app request exactly when its URL is no asset.
    pub add-Balanced :
        (closed : Bool) (clock : Clock) (now : Time) (hs : List Hit) (r : Requests M I A)
        (req : Request A)
        → ((i : ℕ) → clock i ≡ now)
        → Balanced hs r
        → let hs' = hit_of req ∷ left_hits now hs r in
          let (r', req', sent) = add fl closed clock r req in
          Balanced hs' r'
          × (req'.is_app ≡ not (is_asset req.url))
          × ((closed ≡ true) × (sent ≡ none) × (r'.update_chan_is_closed ≡ true)
              ⊎ ((st : IpStats A F I) × (closed ≡ false)
                  × (sent ≡ some st)
                  × (st.total ≡ length hs')
                  × (st.app ≡ count_if is_app hs')
                  × (st.other ≡ count_if (λ h. h.asset) hs')
                  × (st.app + st.other ≡ st.total)))
    unfolding add
    add-Balanced true clock now hs r req still b =
        let r' = record_request (expire clock r).0 req in
        let b' =
          record_request-Balanced _ (expire clock r).0 req
            (expire-Balanced clock now hs r still b) in
        (
          record { all = b'.all; apps = b'.apps; others = b'.others; agents = b'.agents },
          is_app-record_request (expire clock r).0 req,
          inl (refl, refl, refl),
        )
    add-Balanced false clock now hs r req still b =
        let r' = record_request (expire clock r).0 req in
        let b' =
          record_request-Balanced _ (expire clock r).0 req
            (expire-Balanced clock now hs r still b) in
        let (t, a, o, s) = stats-Balanced _ r'.0 r'.1 b' in
        (
          b',
          is_app-record_request (expire clock r).0 req,
          inr (current_stats fl r'.0 r'.1, refl, refl, t, a, o, s),
        )

-- A call on a client's requests, with the instant at which its clock stands.
pub data Op (A : Type 0) : Type 0 where
  -- with whether `updateChan` is closed
  adds : Bool → Time → Request A → Op A
  expires : Time → Op A

module _ (M I A F : Type 0) ⦃tm : Treemap M ℕ⦄ (fl : Float64 F) where
  unfoldable pub step : Requests M I A → Op A → Requests M I A
  step r (adds closed now req) = (add fl closed (λ _. now) r req).0
  step r (expires now) = (expire (λ _. now) r).0

  run-Balanced :
      (size : Duration) (num : ℕ) (ops : List (Op A)) (hs : List Hit) (r : Requests M I A)
      → Balanced size num hs r
      → (hs' : List Hit) × Balanced size num hs' (foldl step r ops)
  unfolding step
  run-Balanced size num [] hs r b = (hs, b)
  run-Balanced size num (adds closed now req ∷ ops) hs r b =
      run-Balanced size num ops _ (add fl closed (λ _. now) r req).0
        (add-Balanced size num fl closed (λ _. now) now hs r req (λ i. refl) b).0
  run-Balanced size num (expires now ∷ ops) hs r b =
      run-Balanced size num ops _ (expire (λ _. now) r).0
        (expire-Balanced size num (λ _. now) now hs r (λ i. refl) b)

  -- Whatever `Add` and `Expire` calls follow on a new client, on open and closed channels, each with
  -- a clock that stands still during the call: the app requests and the others add up to all the
  -- requests, and so do the requests of all its user agents.
  pub run_totals_agree :
      (size : Duration) (num keep : ℕ) (clock : Clock) (ip : I) (ops : List (Op A))
      → let config : Config = record {
        window_size = size;
        num_windows = num;
        keep_requests = keep;
      } in
        let r : Requests M I A = foldl step (new_requests clock ip config) ops in
        (app r + other r ≡ total r) × (MapWindow.total r.user_agents ≡ total r)
  run_totals_agree size num keep clock ip ops =
      let (hs, b) = run-Balanced size num ops [] _ (new_requests-Balanced size num clock ip keep) in
      let (_, sums, agents) = totals_agree size num hs _ b in (sums, agents)
