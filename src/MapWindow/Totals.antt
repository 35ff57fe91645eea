-- ===== src/MapWindow/Totals.antt =====
-- Each user agent's window against that agent's requests, through `Add` and `Expire`.
use mathlib.Core.Option
use botex.Prelude.{
  ℕ, suc, ◌*◌, ◌≡◌, refl, ◌∙◌, sym, String, Option, some, Bool, true, not, List, [], ◌∷◌, arith,
  ◌==◌, length, lookup, insert, str_eq, Bool-cases, count_if-true, inl, inr,
}
use botex.Treemap.{Treemap}
use botex.Window.{Time, Duration, Window, bucket_start, is_old, new_window, count}
use botex.Window
use botex.Window.Rolling.{
  Counts, recent, new_window-Counts, add-Counts, expire-Counts, count-Counts, expire-empty,
}
use botex.Data.{Request}
use botex.MapWindow.{Clock, MapWindow, window_for, add, total_of, total_map_of, expire_windows}
use botex.MapWindow.Agents.{Agents, note_agent, prune, spread, times_of, nil_of_length}

-- A bucket's requests are still counted after `Expire`.
abbrev pub is_recent : Time → Duration → ℕ → Time → Bool
is_recent now size num t = not (is_old now (size * num) (bucket_start size t))

module _ {M : Type 0} ⦃tm : Treemap M ℕ⦄ where
  -- Each agent's window counts that agent's requests.
  abbrev pub Tracks : Duration → ℕ → List (String × Window M) → Agents → Type 0
  Tracks size num [] [] = Unit {0}
  Tracks size num [] (x ∷ ags) = ⊥
  Tracks size num (x ∷ ws) [] = ⊥
  Tracks size num ((k, w) ∷ ws) ((j, ts) ∷ ags) =
      (k ≡ j) × Counts size num ts w × Tracks size num ws ags

  add-Tracks_found :
      (size : Duration) (num : ℕ) (mw : MapWindow M) (a : String) (t : Time)
      (found : Option (Window M)) (ws : List (String × Window M)) (ags : Agents)
      → mw.window_size ≡ size
      → mw.num_windows ≡ num
      → lookup a ws ≡ found
      → Tracks size num ws ags
      → Tracks size num (insert a (Window.add (window_for mw found) t) ws) (note_agent a t ags)
  unfolding insert lookup note_agent window_for
  add-Tracks_found size num mw a t found [] [] es en f track = (
    refl,
    rw (← f) (
        add-Counts size num [] (new_window mw.window_size mw.num_windows) t
          (rw (es, en) (new_window-Counts size num))),
    tt,
  )
  add-Tracks_found size num mw a t found [] (x ∷ ags) es en f track = absurd track
  add-Tracks_found size num mw a t found (x ∷ ws) [] es en f track = absurd track
  add-Tracks_found size num mw a t found ((k, w) ∷ ws) ((j, ts) ∷ ags) es en f track =
      elim (Bool-cases (str_eq k a)) [
        | inl hit ↦
            let same : found ≡ some w = sym f ∙ (rw hit) in
            rw (← track.0) (rw (hit, same) (refl, add-Counts size num ts w t track.1, track.2))
        | inr miss ↦
            let same : lookup a ws ≡ found = rw miss at f in
            rw (← track.0) (
              rw miss
                (refl, track.1, add-Tracks_found size num mw a t found ws ags es en same track.2))
      ]

  pub add-Tracks :
      {A : Type 0} (size : Duration) (num : ℕ) (mw : MapWindow M) (r : Request A) (ags : Agents)
      → mw.window_size ≡ size
      → mw.num_windows ≡ num
      → Tracks size num mw.windows ags
      → Tracks size num (add mw r).windows (note_agent r.user_agent r.time ags)
  unfolding add
  add-Tracks size num mw r ags es en track =
      add-Tracks_found size num mw r.user_agent r.time (lookup r.user_agent mw.windows) mw.windows
        ags es en refl track

  left_zero :
      (size : Duration) (num : ℕ) (now : Time) (ts : List Time) (w : Window M)
      → Counts size num ts w
      → ((Window.expire now w).1 == 0) ≡ (length (recent now size num ts) == 0)
  left_zero size num now ts w c =
      ground (arith, expire-empty size num ts w now c, nil_of_length (recent now size num ts))

  pub expire-Tracks :
      (size : Duration) (num : ℕ) (now : Time) (clock : Clock) (ws : List (String × Window M))
      (ags : Agents)
      → ((i : ℕ) → clock i ≡ now)
      → Tracks size num ws ags
      → Tracks size num (expire_windows clock ws).0 (prune (is_recent now size num) ags)
  unfolding expire_windows prune
  expire-Tracks size num now clock [] [] st track = tt
  expire-Tracks size num now clock [] (x ∷ ags) st track = absurd track
  expire-Tracks size num now clock (x ∷ ws) [] st track = absurd track
  expire-Tracks size num now clock ((k, w) ∷ ws) ((j, ts) ∷ ags) st track =
      let rest = expire-Tracks size num now (λ i. clock (suc i)) ws ags (λ i. st (suc i)) track.2 in
      let same = left_zero size num (clock 0) ts w track.1 in
      elim (Bool-cases (length (recent (clock 0) size num ts) == 0)) [
        | inl gone ↦ rw (← st 0) (rw (gone, same ∙ gone) rest)
        | inr kept ↦
            rw (← st 0) (
              rw (kept, same ∙ kept) (track.0, expire-Counts size num ts w (clock 0) track.1, rest))
      ]

  pub total-Tracks :
      (size : Duration) (num : ℕ) (ws : List (String × Window M)) (ags : Agents)
      → Tracks size num ws ags
      → total_of ws ≡ spread (λ _. true) ags
  unfolding total_of
  total-Tracks size num [] [] track = refl
  total-Tracks size num [] (x ∷ ags) track = absurd track
  total-Tracks size num (x ∷ ws) [] track = absurd track
  total-Tracks size num ((k, w) ∷ ws) ((j, ts) ∷ ags) track = omega (
    arith,
    count-Counts size num ts w track.1,
    total-Tracks size num ws ags track.2,
    count_if-true ts,
  )

  pub total_map-Tracks :
      (size : Duration) (num : ℕ) (a : String) (ws : List (String × Window M)) (ags : Agents)
      → Tracks size num ws ags
      → Option.get_or (lookup a (total_map_of ws)) 0 ≡ length (times_of a ags)
  unfolding total_map_of lookup
  total_map-Tracks size num a [] [] track = refl
  total_map-Tracks size num a [] (x ∷ ags) track = absurd track
  total_map-Tracks size num a (x ∷ ws) [] track = absurd track
  total_map-Tracks size num a ((k, w) ∷ ws) ((j, ts) ∷ ags) track = rw (← track.0) (
      ground
        (arith, count-Counts size num ts w track.1, total_map-Tracks size num a ws ags track.2))
