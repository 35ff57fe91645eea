-- ===== src/MapWindow/Rolling.antt =====
-- MapWindow against its specification: a flat list of requests, each with its user agent.
use mathlib.Core.Option
use mathlib.Core.List.{foldl}
use botex.Prelude.{
  ℕ, ◌+◌, ◌≡◌, refl, ap, ◌∙◌, sym, String, Bool, true, ◌&&◌, List, [], ◌∷◌, arith, if◌then◌else◌,
  length, select, count_if, lookup, str_eq, count_if-select, count_if-true,
}
use botex.Treemap.{Treemap}
use botex.Window.{Time, Duration}
use botex.Data.{Request}
use botex.MapWindow.{Clock, MapWindow, new_map_window, add, total, total_map, expire}
use botex.MapWindow.Agents.{
  Agents, note_agent, prune, spread, times_of, Distinct, spread-note_agent, spread-prune,
  times_of-note_agent, Distinct-note_agent, Distinct-prune, times_of-prune,
}
use botex.MapWindow.Totals.{
  is_recent, Tracks, add-Tracks, expire-Tracks, total-Tracks, total_map-Tracks,
}

-- A request's user agent and its instant.
abbrev pub Seen : Type 0
Seen = String × Time

pub data Op (A : Type 0) : Type 0 where
  adds : Request A → Op A
  -- `Expire`, with a clock that stands still while it runs
  expires : Time → Op A

unfoldable pub note : {A : Type 0} → Duration → ℕ → List Seen → Op A → List Seen
note size num rs (adds r) = (r.user_agent, r.time) ∷ rs
note size num rs (expires now) = select (λ r. is_recent now size num r.1) rs

abbrev pub agent_times : String → List Seen → List Time
agent_times a [] = []
agent_times a ((b, t) ∷ rs) = let rest = agent_times a rs in if str_eq b a then t ∷ rest else rest

agent_times-select :
    (p : Time → Bool) (a : String) (rs : List Seen)
    → select p (agent_times a rs) ≡ agent_times a (select (λ r. p r.1) rs)
agent_times-select p a [] = refl
agent_times-select p a ((b, t) ∷ rs) = ground (arith, agent_times-select p a rs)

length-agent_times :
    (a : String) (rs : List Seen) → length (agent_times a rs) ≡ count_if (λ r. str_eq r.0 a) rs
length-agent_times a [] = refl
length-agent_times a ((b, t) ∷ rs) = ground (arith, length-agent_times a rs)

pub record Agrees (ags : Agents) (rs : List Seen) : Type 0 where
  pub distinct : Distinct ags
  pub times : (a : String) → times_of a ags ≡ agent_times a rs
  pub spreads : (p : Time → Bool) → spread p ags ≡ count_if (λ r. p r.1) rs

Agrees-nil : Agrees [] []
Agrees-nil = record { distinct = tt; times = λ a. unfold lookup in refl; spreads = λ p. refl }

Agrees-note :
    (a : String) (t : Time) (ags : Agents) (rs : List Seen)
    → Agrees ags rs
    → Agrees (note_agent a t ags) ((a, t) ∷ rs)
Agrees-note a t ags rs g = record {
  distinct = Distinct-note_agent a t ags g.distinct;
  times = λ b. times_of-note_agent a b t ags ∙ rw (g.times b) refl;
  spreads = λ p. spread-note_agent p a t ags ∙ ap (λ n. (if p t then 1 else 0) + n) (g.spreads p);
}

Agrees-prune :
    (p : Time → Bool) (ags : Agents) (rs : List Seen)
    → Agrees ags rs
    → Agrees (prune p ags) (select (λ r. p r.1) rs)
Agrees-prune p ags rs g = record {
  distinct = Distinct-prune p ags g.distinct;
  times = λ a.
      times_of-prune p a ags g.distinct ∙ ap (select p) (g.times a) ∙ agent_times-select p a rs;
  spreads = λ q.
      spread-prune q p ags
      ∙ g.spreads (λ t. p t && q t)
      ∙ sym (count_if-select (λ (r : Seen). q r.1) (λ r. p r.1) rs);
}

module _ {M : Type 0} ⦃tm : Treemap M ℕ⦄ where
  -- The windows are those of the requests' agents, each with its agent's requests.
  pub record Follows (size : Duration) (num : ℕ) (rs : List Seen) (mw : MapWindow M) : Type 0 where
    pub same_size : mw.window_size ≡ size
    pub same_num : mw.num_windows ≡ num
    pub agents : Agents
    pub tracks : Tracks size num mw.windows agents
    pub agrees : Agrees agents rs

  pub new-Follows : (size : Duration) (num : ℕ) → Follows size num [] (new_map_window size num)
  unfolding new_map_window
  new-Follows size num = record {
    same_size = refl;
    same_num = refl;
    agents = [];
    tracks = tt;
    agrees = Agrees-nil;
  }

  pub add-Follows :
      {A : Type 0} (size : Duration) (num : ℕ) (rs : List Seen) (mw : MapWindow M) (r : Request A)
      → Follows size num rs mw
      → Follows size num ((r.user_agent, r.time) ∷ rs) (add mw r)
  add-Follows size num rs mw r f = record {
    same_size = unfold add in f.same_size;
    same_num = unfold add in f.same_num;
    agents = note_agent r.user_agent r.time f.agents;
    tracks = add-Tracks size num mw r f.agents f.same_size f.same_num f.tracks;
    agrees = Agrees-note r.user_agent r.time f.agents rs f.agrees;
  }

  -- `Expire` with a clock that stands still while it runs.
  pub expire-Follows :
      (size : Duration) (num : ℕ) (rs : List Seen) (mw : MapWindow M) (clock : Clock) (now : Time)
      → ((i : ℕ) → clock i ≡ now)
      → Follows size num rs mw
      → Follows size num (select (λ r. is_recent now size num r.1) rs) (expire clock mw).0
  expire-Follows size num rs mw clock now still f = record {
    same_size = unfold expire in f.same_size;
    same_num = unfold expire in f.same_num;
    agents = prune (is_recent now size num) f.agents;
    tracks = unfold expire in expire-Tracks size num now clock mw.windows f.agents still f.tracks;
    agrees = Agrees-prune (is_recent now size num) f.agents rs f.agrees;
  }

  pub total-Follows :
      (size : Duration) (num : ℕ) (rs : List Seen) (mw : MapWindow M)
      → Follows size num rs mw
      → total mw ≡ length rs
  unfolding total
  total-Follows size num rs mw f =
      total-Tracks size num mw.windows f.agents f.tracks
      ∙ f.agrees.spreads (λ _. true)
      ∙ count_if-true rs

  pub total_map-Follows :
      (size : Duration) (num : ℕ) (rs : List Seen) (mw : MapWindow M)
      → Follows size num rs mw
      → (a : String) → Option.get_or (lookup a (total_map mw)) 0 ≡ count_if (λ r. str_eq r.0 a) rs
  unfolding total_map
  total_map-Follows size num rs mw f a =
      total_map-Tracks size num a mw.windows f.agents f.tracks
      ∙ ap length (f.agrees.times a)
      ∙ length-agent_times a rs

module _ (M : Type 0) ⦃tm : Treemap M ℕ⦄ (A : Type 0) where
  unfoldable pub step : MapWindow M → Op A → MapWindow M
  step mw (adds r) = add mw r
  step mw (expires now) = (expire (λ _. now) mw).0

  run-Follows :
      (size : Duration) (num : ℕ) (ops : List (Op A)) (rs : List Seen) (mw : MapWindow M)
      → Follows size num rs mw
      → Follows size num (foldl (note size num) rs ops) (foldl step mw ops)
  unfolding step note
  run-Follows size num [] rs mw f = f
  run-Follows size num (adds r ∷ ops) rs mw f =
      run-Follows size num ops _ (add mw r) (add-Follows size num rs mw r f)
  run-Follows size num (expires now ∷ ops) rs mw f =
      run-Follows size num ops _ (expire (λ _. now) mw).0
        (expire-Follows size num rs mw (λ _. now) now (λ i. refl) f)

  -- Whatever `Add` and `Expire` calls follow on a new MapWindow, let `rs` be the requests that the
  -- specification still holds: those added, less those in buckets that an `Expire` found old, with
  -- a clock that stands still during each `Expire`. Then `Total` is their number, and `TotalMap` has
  -- for each user agent the number of that agent's among them, an agent without an entry having none.
  pub agents_refine :
      (size : Duration) (num : ℕ) (ops : List (Op A))
      → let mw : MapWindow M = foldl step (new_map_window size num) ops in
        let rs = foldl (note size num) [] ops in
        (total mw ≡ length rs)
        × ((a : String)
            → Option.get_or (lookup a (total_map mw)) 0 ≡ count_if (λ r. str_eq r.0 a) rs)
  agents_refine size num ops =
      let f = run-Follows size num ops [] (new_map_window size num) (new-Follows size num) in
      (total-Follows size num _ _ f, total_map-Follows size num _ _ f)
