-- ===== src/MapWindow/Agents.antt =====
-- The specification of MapWindow: for each user agent the instants of its requests.
use mathlib.Core.Option
use botex.Prelude.{
  ℕ, ◌+◌, ◌≡◌, refl, String, none, some, Bool, ◌&&◌, List, [], ◌∷◌, arith, ◌==◌, if◌then◌else◌,
  length, select, count_if, lookup, str_eq, eq_iff, count_if-select,
}
use botex.Window.{Time}

abbrev pub Agents : Type 0
Agents = List (String × List Time)

unfoldable pub note_agent : String → Time → Agents → Agents
note_agent a t [] = (a, t ∷ []) ∷ []
note_agent a t ((j, ts) ∷ ags) =
    if str_eq j a then (a, t ∷ ts) ∷ ags else (j, ts) ∷ note_agent a t ags

-- Forget the instants that fail a test, and the agents with none left.
unfoldable pub prune : (Time → Bool) → Agents → Agents
prune p [] = []
prune p ((j, ts) ∷ ags) =
    let rest = prune p ags in if length (select p ts) == 0 then rest else (j, select p ts) ∷ rest

-- How many instants of all the agents pass a test.
abbrev pub spread : (Time → Bool) → Agents → ℕ
spread p [] = 0
spread p ((j, ts) ∷ ags) = count_if p ts + spread p ags

abbrev pub times_of : String → Agents → List Time
times_of a ags = Option.get_or (lookup a ags) []

abbrev pub Distinct : Agents → Type 0
Distinct [] = Unit {0}
Distinct ((j, ts) ∷ ags) = (lookup j ags ≡ none) × Distinct ags

pub spread-note_agent :
    (p : Time → Bool) (a : String) (t : Time) (ags : Agents)
    → spread p (note_agent a t ags) ≡ (if p t then 1 else 0) + spread p ags
unfolding note_agent
spread-note_agent p a t [] = omega arith
spread-note_agent p a t ((j, ts) ∷ ags) = ground (arith, spread-note_agent p a t ags)

count_if-none :
    (p q : Time → Bool) (ts : List Time)
    → length (select q ts) ≡ 0
    → count_if (λ t. q t && p t) ts ≡ 0
count_if-none p q [] h = refl
count_if-none p q (t ∷ ts) h = ground (arith, count_if-none p q ts)

pub spread-prune :
    (p q : Time → Bool) (ags : Agents) → spread p (prune q ags) ≡ spread (λ t. q t && p t) ags
unfolding prune
spread-prune p q [] = refl
spread-prune p q ((j, ts) ∷ ags) =
    ground (arith, spread-prune p q ags, count_if-none p q ts, count_if-select p q ts)

lookup-note_agent :
    (a b : String) (t : Time) (ags : Agents)
    → lookup b (note_agent a t ags)
      ≡ (if str_eq a b then some (t ∷ times_of a ags) else lookup b ags)
unfolding note_agent lookup
lookup-note_agent a b t [] = refl
lookup-note_agent a b t ((j, ts) ∷ ags) =
    ground (arith, lookup-note_agent a b t ags, eq_iff j a, eq_iff a b, eq_iff j b)

pub times_of-note_agent :
    (a b : String) (t : Time) (ags : Agents)
    → times_of b (note_agent a t ags) ≡ (if str_eq a b then t ∷ times_of b ags else times_of b ags)
times_of-note_agent a b t ags = ground (arith, lookup-note_agent a b t ags, eq_iff a b)

pub Distinct-note_agent :
    (a : String) (t : Time) (ags : Agents) → Distinct ags → Distinct (note_agent a t ags)
unfolding note_agent lookup
Distinct-note_agent a t [] d = (refl, tt)
Distinct-note_agent a t ((j, ts) ∷ ags) d =
    ground (arith, Distinct-note_agent a t ags, lookup-note_agent a j t ags, eq_iff j a, eq_iff a j)

lookup-prune-none :
    (p : Time → Bool) (a : String) (ags : Agents)
    → lookup a ags ≡ none
    → lookup a (prune p ags) ≡ none
unfolding prune lookup
lookup-prune-none p a [] h = refl
lookup-prune-none p a ((j, ts) ∷ ags) h = ground (arith, lookup-prune-none p a ags)

pub Distinct-prune : (p : Time → Bool) (ags : Agents) → Distinct ags → Distinct (prune p ags)
unfolding prune
Distinct-prune p [] d = tt
Distinct-prune p ((j, ts) ∷ ags) d = ground (arith, Distinct-prune p ags, lookup-prune-none p j ags)

pub nil_of_length : (ts : List Time) → length ts ≡ 0 → ts ≡ []
nil_of_length [] h = refl
nil_of_length (t ∷ ts) h = absurd (omega arith)

pub times_of-prune :
    (p : Time → Bool) (a : String) (ags : Agents)
    → Distinct ags
    → times_of a (prune p ags) ≡ select p (times_of a ags)
unfolding prune lookup
times_of-prune p a [] d = refl
times_of-prune p a ((j, ts) ∷ ags) d = ground (
  arith,
  times_of-prune p a ags,
  eq_iff j a,
  lookup-prune-none p a ags,
  nil_of_length (select p ts),
)
