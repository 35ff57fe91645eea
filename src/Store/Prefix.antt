-- ===== src/Store/Prefix.antt =====
-- Keys as byte strings in lexicographic order, and the range of the keys with a prefix.
use botex.Prelude.{
  ◌≡◌, inl, inr, refl, ap, sym, Bool, true, false, List, [], ◌∷◌, ◌++◌, arith, ltb, ◌==◌,
  if◌then◌else◌, select, Bool-cases,
}
use botex.Data.{Bytes}

unfoldable pub bytes_eq : Bytes → Bytes → Bool
bytes_eq [] [] = true
bytes_eq [] (d ∷ ds) = false
bytes_eq (c ∷ cs) [] = false
bytes_eq (c ∷ cs) (d ∷ ds) = let rest = bytes_eq cs ds in if c == d then rest else false

-- `bytes.Compare(a, b) < 0`
unfoldable pub before : Bytes → Bytes → Bool
before [] [] = false
before [] (d ∷ ds) = true
before (c ∷ cs) [] = false
before (c ∷ cs) (d ∷ ds) =
    let rest = before cs ds in if ltb c d then true else if c == d then rest else false

unfoldable pub has_prefix : Bytes → Bytes → Bool
has_prefix [] key = true
has_prefix (c ∷ cs) [] = false
has_prefix (c ∷ cs) (d ∷ ds) = let rest = has_prefix cs ds in if c == d then rest else false

pub bytes_eq_iff : (a b : Bytes) → (bytes_eq a b ≡ true → a ≡ b) × (a ≡ b → bytes_eq a b ≡ true)
unfolding bytes_eq
bytes_eq_iff [] [] = (λ _. refl, λ _. refl)
bytes_eq_iff [] (d ∷ ds) = (λ h. absurd (ground arith), λ h. absurd (ground arith))
bytes_eq_iff (c ∷ cs) [] = (λ h. absurd (ground arith), λ h. absurd (ground arith))
bytes_eq_iff (c ∷ cs) (d ∷ ds) =
    (λ h. ground (arith, bytes_eq_iff cs ds), λ h. ground (arith, bytes_eq_iff cs ds))

pub has_prefix_self : (p rest : Bytes) → has_prefix p (p ++ rest) ≡ true
unfolding has_prefix
has_prefix_self [] rest = refl
has_prefix_self (c ∷ p) rest = ground (arith, has_prefix_self p rest)

-- A key that comes before the prefix does not have it.
before-has_prefix : (p key : Bytes) → before key p ≡ true → has_prefix p key ≡ false
unfolding before has_prefix
before-has_prefix [] [] h = cc
before-has_prefix [] (d ∷ ds) h = cc
before-has_prefix (c ∷ cs) [] h = refl
before-has_prefix (c ∷ cs) (d ∷ ds) h = ground (arith, before-has_prefix cs ds)

-- Behind a key that is past the prefix and does not have it, no key has it.
past-has_prefix :
    (p key later : Bytes)
    → before key p ≡ false
    → has_prefix p key ≡ false
    → before key later ≡ true
    → has_prefix p later ≡ false
unfolding before has_prefix
past-has_prefix [] key later b h l = cc
past-has_prefix (c ∷ cs) [] later b h l = cc
past-has_prefix (c ∷ cs) (d ∷ ds) [] b h l = refl
past-has_prefix (c ∷ cs) (d ∷ ds) (e ∷ es) b h l = ground (arith, past-has_prefix cs ds es)

nothing_before : (a : Bytes) → before a [] ≡ true → ⊥
unfolding before
nothing_before [] h = ground arith
nothing_before (c ∷ a) h = ground arith

pub before_trans : (a b c : Bytes) → before a b ≡ true → before b c ≡ true → before a c ≡ true
unfolding before
before_trans a [] c h k = absurd (nothing_before a h)
before_trans a (e ∷ b) [] h k = cc
before_trans [] (e ∷ b) (d ∷ c) h k = refl
before_trans (x ∷ a) (e ∷ b) (d ∷ c) h k = ground (arith, before_trans a b c)

-- What is behind a key that is not before the prefix is not before it either.
before_not : (p k j : Bytes) → before k p ≡ false → before k j ≡ true → before j p ≡ false
before_not p k j b h = elim (Bool-cases (before j p)) [
  | inl e ↦ absurd (ground (arith, before_trans k j p h e))
  | inr e ↦ e
]

module _ {V : Type 0} where
  -- The keys are in strictly ascending order, and behind the given one.
  abbrev pub SortedFrom : Bytes → List (Bytes × V) → Type 0
  SortedFrom k [] = Unit {0}
  SortedFrom k ((j, v) ∷ es) = (before k j ≡ true) × SortedFrom j es

  abbrev pub Sorted : List (Bytes × V) → Type 0
  Sorted [] = Unit {0}
  Sorted ((j, v) ∷ es) = SortedFrom j es

  pub Sorted-tail : (k : Bytes) (es : List (Bytes × V)) → SortedFrom k es → Sorted es
  Sorted-tail k [] s = tt
  Sorted-tail k ((j, v) ∷ es) s = s.1

  -- `it.ValidForPrefix(prefix)` and `it.Next()`, from where the iterator stands.
  unfoldable pub while_prefix : Bytes → List (Bytes × V) → List (Bytes × V)
  while_prefix p [] = []
  while_prefix p ((k, v) ∷ es) =
      let rest = while_prefix p es in if has_prefix p k then (k, v) ∷ rest else []

  -- `it.Seek(prefix)`: the first key that does not come before the prefix.
  unfoldable pub seek : Bytes → List (Bytes × V) → List (Bytes × V)
  seek p [] = []
  seek p ((k, v) ∷ es) = let rest = seek p es in if before k p then rest else (k, v) ∷ es

  -- The entries with the prefix.
  abbrev pub with_prefix : Bytes → List (Bytes × V) → List (Bytes × V)
  with_prefix p = select (λ e. has_prefix p e.0)

  none_later :
      (p k : Bytes) (es : List (Bytes × V))
      → before k p ≡ false
      → has_prefix p k ≡ false
      → SortedFrom k es
      → with_prefix p es ≡ []
  none_later p k [] b h s = refl
  none_later p k ((j, v) ∷ es) b h s =
      rw (past-has_prefix p k j b h s.0)
        (none_later p j es (before_not p k j b s.0) (past-has_prefix p k j b h s.0) s.1)

  while_prefix-with_prefix :
      (p k : Bytes) (v : V) (es : List (Bytes × V))
      → before k p ≡ false
      → SortedFrom k es
      → while_prefix p ((k, v) ∷ es) ≡ with_prefix p ((k, v) ∷ es)
  unfolding while_prefix
  while_prefix-with_prefix p k v [] b s = refl
  while_prefix-with_prefix p k v ((j, w) ∷ es) b s = elim (Bool-cases (has_prefix p k)) [
    | inl here ↦
        rw here (ap (◌∷◌ (k, v)) (while_prefix-with_prefix p j w es (before_not p k j b s.0) s.1))
    | inr past ↦ rw past (sym (none_later p k ((j, w) ∷ es) b past s))
  ]

  -- In a store with ascending keys, the iteration from `Seek` while the prefix is valid visits
  -- exactly the entries with the prefix, in order.
  pub range_lem :
      (p : Bytes) (es : List (Bytes × V))
      → Sorted es
      → while_prefix p (seek p es) ≡ with_prefix p es
  unfolding seek
  range_lem p [] s = unfold while_prefix in refl
  range_lem p ((k, v) ∷ es) s = elim (Bool-cases (before k p)) [
    | inl early ↦ rw (early, before-has_prefix p k early) (range_lem p es (Sorted-tail k es s))
    | inr there ↦ rw there (while_prefix-with_prefix p k v es there s)
  ]
