-- ===== src/Treemap/Sorted.antt =====
-- A sorted map that meets the laws, for the examples: a list of entries with ascending keys.
use botex.Prelude.{refl, [], arith, length}
use botex.Treemap.{Treemap, Entries, Ascending, get_at, put_at, remove_at, first_above, last_entry}
use botex.Treemap.Ascent.{Ascending-put_at, Ascending-remove_at}

pub record SortedMap (V : Type 0) : Type 0 where
  pub held : Entries V
  pub sorted : Ascending 0 held

instance abbrev pub sorted_map : {V : Type 0} → Treemap (SortedMap V) V
sorted_map {V} = record {
  new = record { held = []; sorted = tt };
  get = λ m k. get_at k m.held;
  put = λ m k v. record {
    held = put_at k v m.held;
    sorted = Ascending-put_at 0 k v m.held (omega arith) m.sorted;
  };
  remove =
      λ m k. record { held = remove_at k m.held; sorted = Ascending-remove_at 0 k m.held m.sorted };
  size = λ m. length m.held;
  max = λ m. last_entry m.held;
  next = λ m from. first_above from m.held;
  entries = λ m. m.held;
  entries_new = refl;
  ascending = λ m. m.sorted;
  get_lem = λ m k. refl;
  size_lem = λ m. refl;
  max_lem = λ m. refl;
  next_lem = λ m from. refl;
  entries_put = λ m k v. refl;
  entries_remove = λ m k. refl;
}

-- What a test of a program over this map unfolds.
unfoldable pub sorted_run : Unit {0}
unfolding get_at put_at remove_at first_above last_entry
sorted_run = tt
