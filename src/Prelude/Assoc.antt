-- ===== src/Prelude/Assoc.antt =====
-- A Go map with string keys as an association list. Go leaves the order of an iteration open;
-- the order of the list stands for whichever order the runtime takes.
use Prim.Native.String.{String}
use mathlib.Core.Path.{◌≡◌}
use mathlib.Core.Option.{Option, none, some}
use mathlib.Core.List.{List, [], ◌∷◌}
use native.Mathlib.Omega.{arith}
use text.Mathlib.Text.{◌==◌ as str_eq}
use text.Mathlib.TextEquality.{eq_iff}
use botex.Prelude.Tests.{if◌then◌else◌}

module _ {ℓ} {V : Type ℓ} (key : String) where
  -- `value, ok := m[key]`
  unfoldable pub lookup : List (String × V) → Option V
  lookup [] = none
  lookup ((held, value) ∷ rest) = if str_eq held key then some value else lookup rest

  -- `m[key] = value`
  unfoldable pub insert : V → List (String × V) → List (String × V)
  insert value [] = (key, value) ∷ []
  insert value ((held, old) ∷ rest) =
      if str_eq held key then (key, value) ∷ rest else (held, old) ∷ insert value rest

  -- `delete(m, key)`
  unfoldable pub delete : List (String × V) → List (String × V)
  delete [] = []
  delete ((held, old) ∷ rest) =
      let kept = delete rest in if str_eq held key then kept else (held, old) ∷ kept

module _ {ℓ} {V : Type ℓ} (key asked : String) where
  -- What a lookup finds after a write.
  pub lookup-insert :
      (value : V) (entries : List (String × V))
      → lookup asked (insert key value entries)
        ≡ (if str_eq key asked then some value else lookup asked entries)
  unfolding lookup insert
  lookup-insert value [] = ground arith
  lookup-insert value ((held, old) ∷ rest) =
      ground (arith, lookup-insert value rest, eq_iff held key, eq_iff key asked, eq_iff held asked)

  -- What a lookup finds after a removal.
  pub lookup-delete :
      (entries : List (String × V))
      → lookup asked (delete key entries)
        ≡ (if str_eq key asked then none else lookup asked entries)
  unfolding lookup delete
  lookup-delete [] = ground arith
  lookup-delete ((held, old) ∷ rest) =
      ground (arith, eq_iff held key, eq_iff held asked, eq_iff key asked, lookup-delete rest)
