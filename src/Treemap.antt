-- ===== src/Treemap.antt =====
-- The sorted map that the windows are stored in (`treemap.NewWithIntComparator()` and
-- `treemap.NewWith(utils.TimeComparator)` of github.com/emirpasic/gods), as a parameter: the
-- library is not part of the repository. Its laws say what the windows rely on: entries are kept
-- in ascending order of their keys, `Put` replaces, and an iterator that stands at a key goes on
-- to the least greater key that the map holds at that moment, also if the key that it stands at
-- was removed since.
pub mod Ascent
pub mod Loop
pub mod Sorted
unfoldable pub use Ascent.{get_at, put_at, remove_at, first_above, last_entry}
pub use Ascent.{Ascending, Entries}
use botex.Prelude.{ℕ, ◌≡◌, Option, none, some, List, [], length}

pub record Treemap (M V : Type 0) : Type 0 where
  pub new : M
  pub get : M → ℕ → Option V
  pub put : M → ℕ → V → M
  pub remove : M → ℕ → M
  pub size : M → ℕ
  pub max : M → Option (ℕ × V)
  -- `iter.Next()` of an iterator that last returned the given key; `none` before its first call.
  pub next : M → Option ℕ → Option (ℕ × V)
  -- What the map holds, for the laws only.
  pub entries : M → List (ℕ × V)
  pub entries_new : entries new ≡ []
  pub ascending : (m : M) → Ascending 0 (entries m)
  pub get_lem : (m : M) (k : ℕ) → get m k ≡ get_at k (entries m)
  pub size_lem : (m : M) → size m ≡ length (entries m)
  pub max_lem : (m : M) → max m ≡ last_entry (entries m)
  pub next_lem : (m : M) (from : Option ℕ) → next m from ≡ first_above from (entries m)
  pub entries_put : (m : M) (k : ℕ) (v : V) → entries (put m k v) ≡ put_at k v (entries m)
  pub entries_remove : (m : M) (k : ℕ) → entries (remove m k) ≡ remove_at k (entries m)
