-- ===== src/Window/Tests.antt =====
-- Runs of a window with buckets of 10 ns that observes 30 ns, and the theorems at these runs.
use mathlib.Core.List.{foldl}
use botex.Prelude.{ℕ, ◌+◌, ◌*◌, ◌≤◌, ◌≡◌, refl, List, [], ◌∷◌, arith, leb, count_if}
use botex.Treemap.Sorted.{SortedMap, sorted_map, sorted_run}
use botex.Window.{Window, new_window, add, count, expire, bucket_map}
use botex.Window.Rolling.{Op, adds, expires, note, step, run-Counts, count-expire_bounds}

abbrev ops : List Op
ops = adds 100 ∷ adds 105 ∷ adds 117 ∷ expires 138 ∷ adds 139 ∷ []

abbrev window : Window (SortedMap ℕ)
window = foldl step (new_window 10 3) ops

run : bucket_map window ≡ (110, 1) ∷ (130, 1) ∷ []
unfolding step new_window add bucket_map expire sorted_run
run = refl

run_count : count window ≡ 2
unfolding step new_window add count expire sorted_run
run_count = refl

count-expire_bounds_example :
    (count_if (λ t. leb (145 + 10) (t + 1 + 10 * 3)) (foldl (note 10 3) [] ops)
      ≤ count (expire 145 window).0)
    × (count (expire 145 window).0
        ≤ count_if (λ t. leb 145 (t + 10 * 3)) (foldl (note 10 3) [] ops))
count-expire_bounds_example =
    count-expire_bounds 10 3 (foldl (note 10 3) [] ops) window 145 (omega arith)
      (run-Counts 10 3 ops)
