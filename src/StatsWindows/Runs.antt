-- ===== src/StatsWindows/Runs.antt =====
-- Calls of `Add` and `Expire` in any order.
use mathlib.Core.List.{foldl}
use botex.Prelude.{
  ℕ, ◌+◌, ◌*◌, ◌≡◌, inl, inr, refl, ap, sym, ◌∙◌, Option, none, some, Option-cases, not, List, [],
  ◌∷◌, arith, select,
}
use botex.Data.{Bytes}
use botex.Window.{Time, Duration}
use botex.Treemap.{Treemap}
use botex.Treemap.Loop.{each-drain}
use botex.Store.{KvStore}
use botex.StatsWindows.{
  Decision, is_blocked, is_human, is_whitelisted, Counters, Stats, StatsWindows, count_decision,
  is_past, new_stats_windows, key_for, put_stats, new_stats, expire_past, expire, add_bucket, add,
}
use botex.StatsWindows.Sums.{
  sum_stats, value_at, IsCounter, IsSum, put_stats-IsSum, expire-IsSum, past_older, Op, adds,
  expires, IsBalanced, ItemsBalanced, count_decision-IsBalanced, ItemsBalanced-put_at,
  ItemsBalanced-select, sums_balanced, get_at-IsBalanced,
}

indicator : Decision → Decision → ℕ
indicator is_blocked is_blocked = 1
indicator is_human is_human = 1
indicator is_whitelisted is_whitelisted = 1
indicator is_blocked is_human = 0
indicator is_blocked is_whitelisted = 0
indicator is_human is_blocked = 0
indicator is_human is_whitelisted = 0
indicator is_whitelisted is_blocked = 0
indicator is_whitelisted is_human = 0

total-IsCounter : IsCounter (λ c. c.total) (λ d. 1)
unfolding count_decision
total-IsCounter = (refl, one, λ a b. refl)
  where
    one : (d : Decision) (c : Counters) → (count_decision d c).total ≡ c.total + 1
    one is_blocked c = refl
    one is_human c = refl
    one is_whitelisted c = refl

whitelisted-IsCounter : IsCounter (λ c. c.whitelisted) (indicator is_whitelisted)
unfolding count_decision indicator
whitelisted-IsCounter = (refl, one, λ a b. refl)
  where
    one :
        (d : Decision) (c : Counters)
        → (count_decision d c).whitelisted ≡ c.whitelisted + indicator is_whitelisted d
    one is_blocked c = omega arith
    one is_human c = omega arith
    one is_whitelisted c = omega arith

blocked-IsCounter : IsCounter (λ c. c.blocked) (indicator is_blocked)
unfolding count_decision indicator
blocked-IsCounter = (refl, one, λ a b. refl)
  where
    one :
        (d : Decision) (c : Counters)
        → (count_decision d c).blocked ≡ c.blocked + indicator is_blocked d
    one is_blocked c = omega arith
    one is_human c = omega arith
    one is_whitelisted c = omega arith

human-IsCounter : IsCounter (λ c. c.human) (indicator is_human)
unfolding count_decision indicator
human-IsCounter = (refl, one, λ a b. refl)
  where
    one :
        (d : Decision) (c : Counters) → (count_decision d c).human ≡ c.human + indicator is_human d
    one is_blocked c = omega arith
    one is_human c = omega arith
    one is_whitelisted c = omega arith

-- What holds of the state at any time.
pub record Consistent {M : Type 0} ⦃tm : Treemap M Stats⦄ (w : StatsWindows M) : Type 1 where
  pub sums : (f : Counters → ℕ) (g : Decision → ℕ) → IsCounter f g → IsSum f w
  pub items : ItemsBalanced (tm.entries w.stats_map)

module _ {M : Type 0} ⦃tm : Treemap M Stats⦄ where
  put_stats-Consistent :
      (w : StatsWindows M) (key : ℕ) (d : Decision) (now : Time) (s : Stats)
      → ((f : Counters → ℕ) (g : Decision → ℕ)
          → IsCounter f g
          → f s.counters ≡ value_at f (tm.get w.stats_map key))
      → IsBalanced s.counters
      → Consistent w
      → Consistent (put_stats w key d now s)
  unfolding put_stats
  put_stats-Consistent w key d now s same b c = record {
    sums = λ f g counts.
        put_stats-IsSum f g counts w key d now s (same f g counts) (c.sums f g counts);
    items =
        rw (tm.entries_put)
          (ItemsBalanced-put_at key _ _ (count_decision-IsBalanced d s.counters b) c.items);
  }

  expire-Consistent : (now : Time) (w : StatsWindows M) → Consistent w → Consistent (expire now w)
  unfolding expire
  expire-Consistent now w c =
      let age = w.window_size * w.num_windows in
      let (total, left) =
        each-drain {V = Stats} (λ (w : StatsWindows M). w.stats_map) (is_past now age)
          (expire_past now age) (λ w k v. tm.entries_remove w.stats_map k) (past_older now age) w in
      record {
        sums = λ f g counts. (expire-IsSum f g counts now w (c.sums f g counts)).0;
        items = rw left (ItemsBalanced-select (λ k. not (is_past now age k)) _ c.items);
      }

module _ {M S : Type 0} ⦃tm : Treemap M Stats⦄ ⦃kv : KvStore S⦄
    (encode : Stats → Option Bytes) where
  add_bucket-Consistent :
      (w : StatsWindows M) (d : Decision) (t now : Time) (store : S) (o : Option S)
      → tm.get w.stats_map (key_for w t) ≡ none
      → Consistent w
      → Consistent (add_bucket encode w d t now store o).0
  unfolding add_bucket
  add_bucket-Consistent w d t now store none e c = c
  add_bucket-Consistent w d t now store (some store') e c =
      put_stats-Consistent w (key_for w t) d now (new_stats w t)
        (λ f g counts. counts.0 ∙ ap (value_at f) (sym e)) refl c

  add-Consistent :
      (w : StatsWindows M) (store : S) (d : Decision) (t now : Time)
      → Consistent w
      → Consistent (add encode w store d t now).0
  unfolding add
  add-Consistent w store d t now c = elim (Option-cases (tm.get w.stats_map (key_for w t))) [
    | inl e ↦ rw (e, add) (add_bucket-Consistent w d t now store _ e c)
    | inr (s, e) ↦
        rw (e, add)
          (put_stats-Consistent w (key_for w t) d now s (λ f g counts. ap (value_at f) (sym e))
            (get_at-IsBalanced (key_for w t) s _ c.items
              (sym (tm.get_lem w.stats_map (key_for w t)) ∙ e))
            c)
  ]

  unfoldable pub step : StatsWindows M × S → Op → StatsWindows M × S
  step (w, store) (adds d t now) =
      let (w', store', failed) = add encode w store d t now in (w', store')
  step (w, store) (expires now) = (expire now w, store)

  step-Consistent :
      (w : StatsWindows M) (store : S) (op : Op) → Consistent w → Consistent (step (w, store) op).0
  unfolding step
  step-Consistent w store (adds d t now) c = add-Consistent w store d t now c
  step-Consistent w store (expires now) c = expire-Consistent now w c

  run-Consistent_from :
      (ops : List Op) (w : StatsWindows M) (store : S)
      → Consistent w
      → Consistent (foldl step (w, store) ops).0
  run-Consistent_from [] w store c = c
  run-Consistent_from (op ∷ ops) w store c =
      let (w', store') = step (w, store) op in
      run-Consistent_from ops w' store' (step-Consistent w store op c)

module _ (M : Type 0) {S : Type 0} ⦃tm : Treemap M Stats⦄ ⦃kv : KvStore S⦄
    (encode : Stats → Option Bytes) where
  -- After any calls of `Add` and `Expire` on a new StatsWindows, in any order and whether or not
  -- the previous items could be stored: each of the four totals is the sum of that counter over the
  -- items that are held, and the blocked, whitelisted and human requests add up to the total. In
  -- one more `Expire` the totals lose exactly what the items hold that go, so that no subtraction
  -- goes below 0.
  pub run_sums :
      (size : Duration) (num : ℕ) (store : S) (ops : List Op) (now : Time)
      → let w = (foldl (step encode) (new_stats_windows {M = M} size num, store) ops).0 in
        let past =
          select (λ e. is_past now (w.window_size * w.num_windows) e.0) (tm.entries w.stats_map) in
        (w.totals.total ≡ sum_stats (λ c. c.total) (tm.entries w.stats_map))
        × (w.totals.whitelisted ≡ sum_stats (λ c. c.whitelisted) (tm.entries w.stats_map))
        × (w.totals.blocked ≡ sum_stats (λ c. c.blocked) (tm.entries w.stats_map))
        × (w.totals.human ≡ sum_stats (λ c. c.human) (tm.entries w.stats_map))
        × IsBalanced w.totals
        × ((expire now w).totals.total + sum_stats (λ c. c.total) past ≡ w.totals.total)
  unfolding new_stats_windows
  run_sums size num store ops now =
      let w = (foldl (step encode) (new_stats_windows {M = M} size num, store) ops).0 in
      let c =
        run-Consistent_from encode ops (new_stats_windows {M = M} size num) store
          new_stats_windows-Consistent in
      let t = c.sums _ _ total-IsCounter in
      let wl = c.sums _ _ whitelisted-IsCounter in
      let b = c.sums _ _ blocked-IsCounter in
      let h = c.sums _ _ human-IsCounter in
      let (kept, lost) = expire-IsSum _ _ total-IsCounter now w t in
      (
        t,
        wl,
        b,
        h,
        omega (arith, t, wl, b, h, sums_balanced (tm.entries w.stats_map) c.items),
        lost,
      )
    where
      new_stats_windows-Consistent : Consistent (new_stats_windows {M = M} size num)
      new_stats_windows-Consistent = record {
        sums = λ f g counts. rw (tm.entries_new) (counts.0);
        items = rw (tm.entries_new) tt;
      }
