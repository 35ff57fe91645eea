-- ===== src/MapWindow/Tests.antt =====
-- Two agents, one of which falls silent.
use mathlib.Core.Option
use mathlib.Core.List.{foldl}
use botex.Prelude.{ℕ, String, ◌≡◌, List, [], ◌∷◌, length, count_if, lookup, str_eq}
use botex.Treemap.Sorted.{SortedMap, sorted_map}
use botex.MapWindow.{new_map_window, total, total_map}
use botex.MapWindow.Rolling.{Op, adds, expires, note, step, agents_refine}
use botex.RequestsWindow.Tests.{request_at}

abbrev ops : List (Op String)
ops =
    adds (record (request_at 100) { user_agent = "curl" })
    ∷ adds (request_at 117)
    ∷ expires 138
    ∷ adds (request_at 139)
    ∷ []

agents_refine_example :
    (total (foldl (step (SortedMap ℕ) String) (new_map_window 10 3) ops)
      ≡ length (foldl (note 10 3) [] ops))
    × ((a : String)
        → Option.get_or
            (lookup a (total_map (foldl (step (SortedMap ℕ) String) (new_map_window 10 3) ops)))
            0
          ≡ count_if (λ r. str_eq r.0 a) (foldl (note 10 3) [] ops))
agents_refine_example = agents_refine (SortedMap ℕ) String 10 3 ops
