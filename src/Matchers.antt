-- ===== src/Matchers.antt =====
-- matchers/matchers.go and the same expression in requests.go: which URLs are assets. The regular
-- expression `\.(jpe?g|png|gif|webp|tiff?|pdf|css|js|woff2?|ttf|eot|svg|ttc)\b` is written out: a
-- dot, one of the extensions, and a word boundary, which behind a letter or digit is the end of the
-- text or a byte that is no ASCII letter, digit or underscore.
pub mod Spec
pub mod Tests
use Prim.Native.Char.{code}
use Prim.Native.String
use botex.Prelude.{
  ℕ, String, Option, none, some, Bool, true, false, ◌&&◌, ◌||◌, List, [], ◌∷◌, ◌==◌, leb,
  if◌then◌else◌,
}
use botex.Data.{Bytes}

-- The bytes of an ASCII text.
abbrev pub codes : String → Bytes
codes String.[] = []
codes (String.◌∷◌ c s) = code c ∷ codes s

unfoldable pub is_word : ℕ → Bool
is_word c =
    (leb b'a' c && leb c b'z')
    || (leb b'A' c && leb c b'Z')
    || (leb b'0' c && leb c b'9')
    || (c == b'_')

abbrev pub extensions : List Bytes
extensions =
    codes "jpg"
    ∷ codes "jpeg"
    ∷ codes "png"
    ∷ codes "gif"
    ∷ codes "webp"
    ∷ codes "tif"
    ∷ codes "tiff"
    ∷ codes "pdf"
    ∷ codes "css"
    ∷ codes "js"
    ∷ codes "woff"
    ∷ codes "woff2"
    ∷ codes "ttf"
    ∷ codes "eot"
    ∷ codes "svg"
    ∷ codes "ttc"
    ∷ []

-- `\b` behind a word character.
unfoldable pub at_boundary : Bytes → Bool
unfolding is_word
at_boundary [] = true
at_boundary (c ∷ rest) = if is_word c then false else true

-- A literal, and then `\b`.
unfoldable pub matches_literal : Bytes → Bytes → Bool
unfolding at_boundary
matches_literal [] text = at_boundary text
matches_literal (c ∷ lit) [] = false
matches_literal (c ∷ lit) (d ∷ text) =
    let rest = matches_literal lit text in if c == d then rest else false

unfoldable pub matches_any : List Bytes → Bytes → Bool
unfolding matches_literal
matches_any [] text = false
matches_any (lit ∷ lits) text = matches_literal lit text || matches_any lits text

-- `Assets.MatchString`: the expression matches at some position.
unfoldable pub is_asset : Bytes → Bool
unfolding matches_any
is_asset [] = false
is_asset (c ∷ text) = (c == b'.' && matches_any extensions text) || is_asset text
