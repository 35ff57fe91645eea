-- ===== src/Treemap/Loop.antt =====
-- The loops `for iter.Next() { ... }` over a sorted map, as one combinator. `at` finds the map in
-- the loop's state, and the body returns `none` for `break`. The fuel is the map's size at the
-- start: every round but the last visits one more of the entries that were there.
use mathlib.Core.List.{foldl}
use botex.Prelude.{
  ℕ, zero, suc, ◌≤◌, ◌≡◌, refl, ap, ◌∙◌, Option, none, some, List, [], ◌∷◌, Bool, true, false,
  arith, length, select, if◌then◌else◌, Bool-cases, inl, inr, not,
}
use botex.Treemap.{Treemap, Entries, Ascending, first_above, remove_at}
use botex.Treemap.Ascent.{above, least, first_above-select, first_above-cons, above-Ascending}

empty_of_length : {A : Type 0} (xs : List A) → length xs ≤ 0 → xs ≡ []
empty_of_length [] h = refl
empty_of_length (x ∷ xs) h = absurd (omega arith)

remove_at-head : {V : Type 0} (k : ℕ) (v : V) (es : Entries V) → remove_at k ((k, v) ∷ es) ≡ es
unfolding remove_at
remove_at-head k v es = ground arith

module _ {M V : Type 0} ⦃tm : Treemap M V⦄ where
  next_end : (m : M) (from : Option ℕ) → tm.entries m ≡ [] → tm.next m from ≡ none
  unfolding first_above
  next_end m from e = rw (tm.next_lem m from, e)

  next_head :
      (m : M) (from : Option ℕ) (k : ℕ) (v : V) (es : Entries V)
      → tm.entries m ≡ (k, v) ∷ es
      → least from ≤ k
      → tm.next m from ≡ some (k, v)
  next_head m from k v es e h = rw (tm.next_lem m from, e, first_above-cons from k v es h)

  all_ahead : (m : M) → select (λ (e : ℕ × V). above none e.0) (tm.entries m) ≡ tm.entries m
  all_ahead m = above-Ascending none 0 (tm.entries m) (omega arith) (tm.ascending m)

module _ {M V S : Type 0} ⦃tm : Treemap M V⦄ where
  each_from : ℕ → (S → M) → (S → ℕ → V → Option S) → Option ℕ → S → S
  each_from zero at body from s = s
  each_from (suc fuel) at body from s = elim (tm.next (at s) from) [
    | none ↦ s
    | some (k, v) ↦ elim (body s k v) [ none ↦ s | some s' ↦ each_from fuel at body (some k) s' ]
  ]

  unfoldable pub each : (S → M) → (S → ℕ → V → Option S) → S → S
  unfolding each_from
  each at body s = each_from (tm.size (at s)) at body none s

  -- A loop that leaves the map alone.
  visit_from :
      (m : M) (f : S → ℕ × V → S) (fuel : ℕ) (from : Option ℕ) (s : S)
      → length (select (λ (e : ℕ × V). above from e.0) (tm.entries m)) ≤ fuel
      → each_from fuel (λ _. m) (λ s k v. some (f s (k, v))) from s
        ≡ foldl f s (select (λ e. above from e.0) (tm.entries m))
  unfolding each_from
  visit_from m f zero from s h = rw (empty_of_length _ h)
  visit_from m f (suc fuel) from s h =
      elim (first_above-select from 0 (tm.entries m) (tm.ascending m)) [
        | inl (e, rest) ↦ rw (rest, tm.next_lem m from, e, each_from)
        | inr (k, v, e, _, rest) ↦
            rw (rest, tm.next_lem m from, e, each_from)
              (visit_from m f fuel (some k) (f s (k, v)) (omega (arith, ap length rest)))
      ]

  -- A loop that leaves the map alone visits all its entries, in ascending order.
  pub each-visit :
      (m : M) (f : S → ℕ × V → S) (s : S)
      → each (λ _. m) (λ s k v. some (f s (k, v))) s ≡ foldl f s (tm.entries m)
  unfolding each
  each-visit m f s =
      visit_from m f (tm.size m) none s (rw (all_ahead m) (omega (arith, tm.size_lem m)))
      ∙ ap (foldl f s) (all_ahead m)

module _ {M V S : Type 0} ⦃tm : Treemap M V⦄ (at : S → M) (old : ℕ → Bool) (step : S → ℕ → V → S)
    (removes : (s : S) (k : ℕ) (v : V)
      → tm.entries (at (step s k v)) ≡ remove_at k (tm.entries (at s)))
    (older : (j k : ℕ) → j ≤ k → old k ≡ true → old j ≡ true) where
  abbrev old_entries : Entries V → Entries V
  old_entries = select (λ e. old e.0)

  abbrev young_entries : Entries V → Entries V
  young_entries = select (λ e. not (old e.0))

  all_young :
      (j b : ℕ) (es : Entries V)
      → old j ≡ false
      → j ≤ b
      → Ascending b es
      → (old_entries es ≡ []) × (young_entries es ≡ es)
  all_young j b [] o h a = (refl, refl)
  all_young j b ((k, v) ∷ es) o h a = ground (arith, older j k, all_young j (suc k) es)

  drain_from :
      (fuel : ℕ) (from : Option ℕ) (s : S) (es : Entries V)
      → tm.entries (at s) ≡ es
      → Ascending (least from) es
      → length es ≤ fuel
      → let r = each_from fuel at (λ s k v. if old k then some (step s k v) else none) from s in
        (r ≡ foldl (λ s e. step s e.0 e.1) s (old_entries es))
        × (tm.entries (at r) ≡ young_entries es)
  unfolding each_from
  drain_from zero from s [] e a h = (refl, e)
  drain_from zero from s (x ∷ es) e a h = absurd (omega arith)
  drain_from (suc fuel) from s [] e a h = rw (next_end (at s) from e, each_from) (refl, e)
  drain_from (suc fuel) from s ((k, v) ∷ es) e a h = elim (Bool-cases (old k)) [
    | inl gone ↦
        rw (next_head (at s) from k v es e a.0, each_from, gone)
          (drain_from fuel (some k) (step s k v) es
            (removes s k v ∙ ap (remove_at k) e ∙ remove_at-head k v es) a.1 (omega arith))
    | inr kept ↦
        let (none_old, all_kept) = all_young k (suc k) es kept (omega arith) a.1 in
        rw (next_head (at s) from k v es e a.0, each_from, kept, none_old, all_kept) (refl, e)
  ]

  -- A loop that removes the entries with old keys, and stops at the first key that is not old,
  -- leaves exactly the young entries, and passes the old ones to its steps in ascending order.
  pub each-drain :
      (s : S)
      → let r = each at (λ s k v. if old k then some (step s k v) else none) s in
        (r ≡ foldl (λ s e. step s e.0 e.1) s (old_entries (tm.entries (at s))))
        × (tm.entries (at r) ≡ young_entries (tm.entries (at s)))
  unfolding each
  each-drain s =
      drain_from (tm.size (at s)) none s (tm.entries (at s)) refl (tm.ascending (at s))
        (omega (arith, tm.size_lem (at s)))
