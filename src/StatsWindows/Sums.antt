-- ===== src/StatsWindows/Sums.antt =====
-- The totals against the items: what they add up to, and what `Expire` leaves.
use mathlib.Core.List.{foldl}
use botex.Prelude.{
  ℕ, suc, ◌+◌, ◌-◌, ◌*◌, ◌≤◌, ◌≡◌, refl, ap, Option, none, some, Bool, true, not, [], ◌∷◌, arith,
  select, sum_of, All,
}
use botex.Window.{Time}
use botex.Treemap.{Treemap, Entries, Ascending, get_at, put_at}
use botex.Treemap.Ascent.{get_at-below}
use botex.Treemap.Loop.{each-drain}
use botex.StatsWindows.{
  Decision, is_blocked, is_human, is_whitelisted, Counters, Stats, StatsWindows, no_requests,
  count_decision, less, is_past, put_stats, expire_past, expire,
}

-- The sum of a counter over the items.
abbrev pub sum_stats : (Counters → ℕ) → Entries Stats → ℕ
sum_stats f = sum_of (λ e. f e.1.counters)

abbrev pub value_at : (Counters → ℕ) → Option Stats → ℕ
value_at f none = 0
value_at f (some s) = f s.counters

sum_stats-put_at :
    (f : Counters → ℕ) (b k : ℕ) (s : Stats) (es : Entries Stats)
    → Ascending b es
    → sum_stats f (put_at k s es) + value_at f (get_at k es) ≡ sum_stats f es + f s.counters
unfolding put_at get_at
sum_stats-put_at f b k s [] a = ground arith
sum_stats-put_at f b k s ((j, w) ∷ es) a =
    ground (arith, sum_stats-put_at f (suc j) k s es, get_at-below (suc j) k es)

-- The items that are taken and those that are left add up to all of them.
sum_stats-select :
    (f : Counters → ℕ) (p : ℕ → Bool) (es : Entries Stats)
    → sum_stats f (select (λ e. p e.0) es) + sum_stats f (select (λ e. not (p e.0)) es)
      ≡ sum_stats f es
sum_stats-select f p [] = refl
sum_stats-select f p (e ∷ es) = ground (arith, sum_stats-select f p es)

pub past_older : (now age j k : ℕ) → j ≤ k → is_past now age k ≡ true → is_past now age j ≡ true
past_older now age j k h o = ground arith

-- A counter of the requests of some of the decisions.
abbrev pub IsCounter : (Counters → ℕ) → (Decision → ℕ) → Type 0
IsCounter f g =
    (f no_requests ≡ 0)
    × ((d : Decision) (c : Counters) → f (count_decision d c) ≡ f c + g d)
    × ((a b : Counters) → f (less a b) ≡ f a - f b)

abbrev pub IsSum : {M : Type 0} → ⦃tm : Treemap M Stats⦄ → (Counters → ℕ) → StatsWindows M → Type 0
IsSum ⦃tm = tm⦄ f w = f w.totals ≡ sum_stats f (tm.entries w.stats_map)

module _ {M : Type 0} ⦃tm : Treemap M Stats⦄ (f : Counters → ℕ) (g : Decision → ℕ)
    (counts : IsCounter f g) where
  pub put_stats-IsSum :
      (w : StatsWindows M) (key : ℕ) (d : Decision) (now : Time) (s : Stats)
      → f s.counters ≡ value_at f (tm.get w.stats_map key)
      → IsSum f w
      → IsSum f (put_stats w key d now s)
  unfolding put_stats
  put_stats-IsSum w key d now s same h =
      let (_, adds, _) = counts in
      let new : Stats = record s { counters = count_decision d s.counters; updated_at = now } in
      rw (tm.entries_put) (
        omega (
          arith,
          h,
          same,
          ap (value_at f) (tm.get_lem w.stats_map key),
          adds d w.totals,
          adds d s.counters,
          sum_stats-put_at f 0 key new (tm.entries w.stats_map) (tm.ascending w.stats_map),
        ))

  drained :
      (now age : ℕ) (es : Entries Stats) (w : StatsWindows M)
      → f (foldl (λ w (e : ℕ × Stats). expire_past now age w e.0 e.1) w es).totals
        ≡ f w.totals - sum_stats f es
  drained now age [] w = omega arith
  drained now age ((k, v) ∷ es) w =
      let (_, _, subtracts) = counts in
      omega (arith, drained now age es (expire_past now age w k v), subtracts w.totals v.counters)

  -- The items that are left add up to the totals, from which the others have been taken.
  pub expire-IsSum :
      (now : Time) (w : StatsWindows M)
      → IsSum f w
      → IsSum f (expire now w)
        × (f (expire now w).totals
              + sum_stats f (
                  select
                    (λ e. is_past now (w.window_size * w.num_windows) e.0)
                    (tm.entries w.stats_map))
            ≡ f w.totals)
  unfolding expire
  expire-IsSum now w h =
      let age = w.window_size * w.num_windows in
      let es = tm.entries w.stats_map in
      let (total, left) =
        each-drain {V = Stats} (λ (w : StatsWindows M). w.stats_map) (is_past now age)
          (expire_past now age) (λ w k v. tm.entries_remove w.stats_map k) (past_older now age) w in
      let taken = drained now age (select (λ e. is_past now age e.0) es) w in
      let split = sum_stats-select f (is_past now age) es in
      (
        rw (left, total, taken) (omega (arith, h, split)),
        rw (total, taken) (omega (arith, h, split)),
      )

-- One call of `Add`, with the reading of the clock in it, or of `Expire`.
pub data Op : Type 0 where
  adds : Decision → Time → Time → Op
  expires : Time → Op

-- The total counts every request once.
abbrev pub IsBalanced : Counters → Type 0
IsBalanced c = c.total ≡ c.blocked + c.whitelisted + c.human

abbrev pub ItemsBalanced : Entries Stats → Type 0
ItemsBalanced = All (λ e. IsBalanced e.1.counters)

pub count_decision-IsBalanced :
    (d : Decision) (c : Counters) → IsBalanced c → IsBalanced (count_decision d c)
unfolding count_decision
count_decision-IsBalanced is_blocked c h = omega arith
count_decision-IsBalanced is_human c h = omega arith
count_decision-IsBalanced is_whitelisted c h = omega arith

pub ItemsBalanced-put_at :
    (k : ℕ) (s : Stats) (es : Entries Stats)
    → IsBalanced s.counters
    → ItemsBalanced es
    → ItemsBalanced (put_at k s es)
unfolding put_at
ItemsBalanced-put_at k s [] h b = (h, tt)
ItemsBalanced-put_at k s ((j, w) ∷ es) h b = ground (arith, ItemsBalanced-put_at k s es)

pub ItemsBalanced-select :
    (p : ℕ → Bool) (es : Entries Stats) → ItemsBalanced es → ItemsBalanced (select (λ e. p e.0) es)
ItemsBalanced-select p [] b = tt
ItemsBalanced-select p (e ∷ es) b = ground (arith, ItemsBalanced-select p es)

pub sums_balanced :
    (es : Entries Stats)
    → ItemsBalanced es
    → sum_stats (λ c. c.total) es
      ≡ sum_stats (λ c. c.blocked) es
        + sum_stats (λ c. c.whitelisted) es
        + sum_stats (λ c. c.human) es
sums_balanced [] b = refl
sums_balanced (e ∷ es) b = omega (arith, sums_balanced es b.1, b.0)

pub get_at-IsBalanced :
    (k : ℕ) (s : Stats) (es : Entries Stats)
    → ItemsBalanced es
    → get_at k es ≡ some s
    → IsBalanced s.counters
unfolding get_at
get_at-IsBalanced k s [] b h = absurd (cc)
get_at-IsBalanced k s ((j, w) ∷ es) b h = ground (arith, get_at-IsBalanced k s es)
