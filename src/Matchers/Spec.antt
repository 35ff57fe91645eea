-- ===== src/Matchers/Spec.antt =====
-- The matcher against a description of the texts that the expression matches.
use mathlib.Core.Path.{ap₂}
use botex.Prelude.{
  ◌≡◌, ◌↔◌, refl, ap, ◌⊎◌, inl, inr, Bool, true, false, ◌&&◌, ◌||◌, List, [], ◌∷◌, ◌++◌, ◌==◌,
  ==_iff, arith, Bool-cases,
}
use botex.Data.{Bytes}
use botex.Matchers.{extensions, at_boundary, matches_literal, matches_any, is_asset}

-- A list of literals has the literal.
abbrev pub OneOf : Bytes → List Bytes → Type 0
OneOf lit [] = ⊥
OneOf lit (x ∷ xs) = (lit ≡ x) ⊎ OneOf lit xs

-- The text has a dot, an extension and a word boundary in a row.
pub record HasExtension (text : Bytes) : Type 0 where
  pub before : Bytes
  pub extension : Bytes
  pub after : Bytes
  pub listed : OneOf extension extensions
  pub split : text ≡ before ++ b'.' ∷ extension ++ after
  pub boundary : at_boundary after ≡ true

and_left : (a b : Bool) → (a && b) ≡ true → a ≡ true
and_left a b h = ground arith

and_right : (a b : Bool) → (a && b) ≡ true → b ≡ true
and_right a b h = ground arith

or_false : (a b : Bool) → a ≡ false → (a || b) ≡ true → b ≡ true
or_false a b e h = ground arith

or_true : (a : Bool) → (a || true) ≡ true
or_true a = ground arith

literal_sound :
    (lit text : Bytes)
    → matches_literal lit text ≡ true
    → (after : Bytes) × (text ≡ lit ++ after) × (at_boundary after ≡ true)
unfolding matches_literal
literal_sound [] text h = (text, refl, h)
literal_sound (c ∷ lit) [] h = cc
literal_sound (c ∷ lit) (d ∷ text) h = elim (Bool-cases (c == d)) [
  | inl hit ↦ let (after, e, b) = literal_sound lit text (rw hit at h) in (after, ground arith, b)
  | inr miss ↦ absurd (ground arith)
]

literal_complete :
    (lit after : Bytes) → at_boundary after ≡ true → matches_literal lit (lit ++ after) ≡ true
unfolding matches_literal
literal_complete [] after b = b
literal_complete (c ∷ lit) after b = ground (arith, literal_complete lit after b)

any_sound :
    (lits : List Bytes) (text : Bytes)
    → matches_any lits text ≡ true
    → (lit : Bytes) × (after : Bytes) × OneOf lit lits
      × (text ≡ lit ++ after)
      × (at_boundary after ≡ true)
unfolding matches_any
any_sound [] text h = cc
any_sound (x ∷ lits) text h = elim (Bool-cases (matches_literal x text)) [
  | inl hit ↦ let (after, e, b) = literal_sound x text hit in (x, after, inl refl, e, b)
  | inr miss ↦
      let (lit, after, o, e, b) = any_sound lits text (rw miss at h) in (lit, after, inr o, e, b)
]

any_complete :
    (lits : List Bytes) (lit after : Bytes)
    → OneOf lit lits
    → at_boundary after ≡ true
    → matches_any lits (lit ++ after) ≡ true
unfolding matches_any
any_complete [] lit after o b = absurd o
any_complete (x ∷ lits) lit after (inl e) b = rw (← e, literal_complete lit after b)
any_complete (x ∷ lits) lit after (inr o) b = ground (arith, any_complete lits lit after o b)

is_asset_sound : (text : Bytes) → is_asset text ≡ true → HasExtension text
unfolding is_asset
is_asset_sound [] h = cc
is_asset_sound (c ∷ text) h = elim (Bool-cases (c == b'.' && matches_any extensions text)) [
  | inl hit ↦
      let (lit, after, o, e, b) = any_sound extensions text (and_right _ _ hit) in
      record {
        before = [];
        extension = lit;
        after = after;
        listed = o;
        split = ap₂ ◌∷◌ ((==_iff c b'.').0 (and_left _ _ hit)) e;
        boundary = b;
      }
  | inr miss ↦
      let found = is_asset_sound text (or_false _ _ miss h) in
      record {
        before = c ∷ found.before;
        extension = found.extension;
        after = found.after;
        listed = found.listed;
        split = ap (◌∷◌ c) found.split;
        boundary = found.boundary;
      }
]

is_asset_at :
    (before extension after : Bytes)
    → OneOf extension extensions
    → at_boundary after ≡ true
    → is_asset (before ++ b'.' ∷ extension ++ after) ≡ true
unfolding is_asset
is_asset_at [] extension after o b = rw (any_complete extensions extension after o b)
is_asset_at (c ∷ before) extension after o b = rw (is_asset_at before extension after o b, or_true)

-- A URL is taken for an asset exactly when it has, somewhere, a dot, one of the listed extensions
-- and a word boundary in a row.
pub is_asset_iff : (text : Bytes) → (is_asset text ≡ true) ↔ HasExtension text
is_asset_iff text = (
  is_asset_sound text,
  λ h. rw h.split (is_asset_at h.before h.extension h.after h.listed h.boundary),
)
