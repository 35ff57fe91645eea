-- ===== src/Treemap/Ascent.antt =====
-- Lists of entries with ascending keys: the view in which a sorted map's laws are stated.
use botex.Prelude.{
  ℕ, suc, ◌≤◌, ◌<◌, ◌≡◌, refl, Option, none, some, List, [], ◌∷◌, Bool, arith, ltb, ◌==◌,
  if◌then◌else◌, select, ap, ◌⊎◌, inl, inr, Bool-cases, true, false,
}

abbrev pub Entries : Type 0 → Type 0
Entries V = List (ℕ × V)

unfoldable pub above : Option ℕ → ℕ → Bool
above none k = Bool.true
above (some j) k = ltb j k

-- The least key that can stand behind a position.
abbrev pub least : Option ℕ → ℕ
least none = 0
least (some j) = suc j

least-le : (from : Option ℕ) (k : ℕ) → above from k ≡ true → least from ≤ k
unfolding above
least-le none k h = omega arith
least-le (some j) k h = ground arith

module _ {V : Type 0} where
  -- The keys are at least the bound and ascend.
  abbrev pub Ascending : ℕ → Entries V → Type 0
  Ascending b [] = Unit {0}
  Ascending b ((k, v) ∷ es) = (b ≤ k) × Ascending (suc k) es

  unfoldable pub get_at : ℕ → Entries V → Option V
  get_at k [] = none
  get_at k ((j, v) ∷ es) = if j == k then some v else get_at k es

  unfoldable pub put_at : ℕ → V → Entries V → Entries V
  put_at k v [] = (k, v) ∷ []
  put_at k v ((j, w) ∷ es) =
      if ltb k j
      then (k, v) ∷ (j, w) ∷ es
      else if j == k
      then (k, v) ∷ es
      else (j, w) ∷ put_at k v es

  unfoldable pub remove_at : ℕ → Entries V → Entries V
  remove_at k [] = []
  remove_at k ((j, w) ∷ es) = if j == k then es else (j, w) ∷ remove_at k es

  -- The first entry behind a position.
  unfoldable pub first_above : Option ℕ → Entries V → Option (ℕ × V)
  unfolding above
  first_above from [] = none
  first_above from ((k, v) ∷ es) = if above from k then some (k, v) else first_above from es

  unfoldable pub last_entry : Entries V → Option (ℕ × V)
  last_entry [] = none
  last_entry (e ∷ []) = some e
  last_entry (e ∷ f ∷ es) = last_entry (f ∷ es)

  pub Ascending-weaken : (b c : ℕ) (es : Entries V) → b ≤ c → Ascending c es → Ascending b es
  Ascending-weaken b c [] h a = tt
  Ascending-weaken b c ((k, v) ∷ es) h a = (omega arith, a.1)

  pub Ascending-put_at :
      (b k : ℕ) (v : V) (es : Entries V) → b ≤ k → Ascending b es → Ascending b (put_at k v es)
  unfolding put_at
  Ascending-put_at b k v [] h a = (h, tt)
  Ascending-put_at b k v ((j, w) ∷ es) h a =
      ground (arith, Ascending-put_at (suc j) k v es, Ascending-weaken (suc k) (suc j) es)

  pub Ascending-remove_at :
      (b k : ℕ) (es : Entries V) → Ascending b es → Ascending b (remove_at k es)
  unfolding remove_at
  Ascending-remove_at b k [] a = tt
  Ascending-remove_at b k ((j, w) ∷ es) a =
      ground (arith, Ascending-remove_at (suc j) k es, Ascending-weaken b (suc j) es)

  -- No key below the bound is found.
  pub get_at-below : (b k : ℕ) (es : Entries V) → Ascending b es → k < b → get_at k es ≡ none
  unfolding get_at
  get_at-below b k [] a h = refl
  get_at-below b k ((j, w) ∷ es) a h = ground (arith, get_at-below (suc j) k es)

  pub get_at-put_at :
      (b k j : ℕ) (v : V) (es : Entries V)
      → Ascending b es
      → get_at j (put_at k v es) ≡ (if k == j then some v else get_at j es)
  unfolding get_at put_at
  get_at-put_at b k j v [] a = ground arith
  get_at-put_at b k j v ((i, w) ∷ es) a = ground (arith, get_at-put_at (suc i) k j v es)

  pub get_at-remove_at :
      (b k j : ℕ) (es : Entries V)
      → Ascending b es
      → get_at j (remove_at k es) ≡ (if k == j then none else get_at j es)
  unfolding get_at remove_at
  get_at-remove_at b k j [] a = ground arith
  get_at-remove_at b k j ((i, w) ∷ es) a =
      ground (arith, get_at-remove_at (suc i) k j es, get_at-below (suc i) j es)

  -- Behind a position all of whose keys are gone, the first entry is the head.
  pub first_above-cons :
      (from : Option ℕ) (k : ℕ) (v : V) (es : Entries V)
      → least from ≤ k
      → first_above from ((k, v) ∷ es) ≡ some (k, v)
  unfolding first_above
  first_above-cons none k v es h = refl
  first_above-cons (some j) k v es h = ground arith

  pub above-Ascending :
      (from : Option ℕ) (b : ℕ) (es : Entries V)
      → least from ≤ b
      → Ascending b es
      → select (λ e. above from e.0) es ≡ es
  unfolding above
  above-Ascending from b [] h a = refl
  above-Ascending none b ((k, v) ∷ es) h a =
      ap (◌∷◌ (k, v)) (above-Ascending none (suc k) es (omega arith) a.1)
  above-Ascending (some j) b ((k, v) ∷ es) h a = ground (arith, above-Ascending (some j) (suc k) es)

  abbrev pub NextOf : Option ℕ → ℕ → Entries V → Type 0
  NextOf from b es =
      ((first_above from es ≡ none) × (select (λ e. above from e.0) es ≡ []))
      ⊎ ((k : ℕ) × (v : V) × (first_above from es ≡ some (k, v))
          × (b ≤ k)
          × (select (λ e. above from e.0) es ≡ (k, v) ∷ select (λ e. above (some k) e.0) es))

  first_above-past :
      (from : Option ℕ) (b k : ℕ) (v : V) (es : Entries V)
      → above from k ≡ false
      → b ≤ k
      → NextOf from (suc k) es
      → NextOf from b ((k, v) ∷ es)
  unfolding first_above above
  first_above-past from b k v es past h (inl (e, f)) = inl (rw past e, rw past f)
  first_above-past from b k v es past h (inr (j, w, e, le, f)) =
      inr (j, w, rw past e, omega arith, rw past (ground arith))

  first_above-here :
      (from : Option ℕ) (k : ℕ) (v : V) (es : Entries V)
      → above from k ≡ true
      → Ascending (suc k) es
      → select (λ e. above from e.0) ((k, v) ∷ es)
        ≡ (k, v) ∷ select (λ e. above (some k) e.0) ((k, v) ∷ es)
  unfolding above
  first_above-here from k v es here a =
      rw (here, above-Ascending from (suc k) es (omega (arith, least-le from k here)) a)
        (ap (◌∷◌ (k, v)) (ground (arith, above-Ascending (some k) (suc k) es)))

  -- What an iterator has still to visit: the next entry, and what is behind that one.
  pub first_above-select :
      (from : Option ℕ) (b : ℕ) (es : Entries V) → Ascending b es → NextOf from b es
  unfolding first_above
  first_above-select from b [] a = inl (refl, refl)
  first_above-select from b ((k, v) ∷ es) a = elim (Bool-cases (above from k)) [
    | inl here ↦ inr (k, v, rw here, a.0, first_above-here from k v es here a.1)
    | inr past ↦ first_above-past from b k v es past a.0 (first_above-select from (suc k) es a.1)
  ]
