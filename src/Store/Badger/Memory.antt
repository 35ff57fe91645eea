-- ===== src/Store/Badger/Memory.antt =====
-- A database in memory that meets the laws and never fails, for the examples.
use botex.Prelude.{◌≡◌, refl, sym, ap, none, true, false, List, [], ◌∷◌, arith}
use botex.Data.{Bytes}
use botex.Store.{Result, ok, err}
use botex.Store.Prefix.{
  bytes_eq, bytes_eq_iff, before, before_trans, Sorted, SortedFrom, Sorted-tail,
}
use botex.Store.Badger.{Write, put, delete, Items, put_key, drop_key, apply_writes, BadgerLib}

before_total : (a b : Bytes) → before a b ≡ false → bytes_eq b a ≡ false → before b a ≡ true
unfolding before bytes_eq
before_total [] [] h e = cc
before_total [] (d ∷ b) h e = cc
before_total (c ∷ a) [] h e = refl
before_total (c ∷ a) (d ∷ b) h e = ground (arith, before_total a b)

put_key-SortedFrom :
    (b k v : Bytes) (es : Items)
    → before b k ≡ true
    → SortedFrom b es
    → SortedFrom b (put_key k v es)
unfolding put_key
put_key-SortedFrom b k v [] h s = (h, tt)
put_key-SortedFrom b k v ((j, w) ∷ es) h s =
    ground (arith, put_key-SortedFrom j k v es, before_total k j, bytes_eq_iff j k)

put_key-Sorted : (k v : Bytes) (es : Items) → Sorted es → Sorted (put_key k v es)
unfolding put_key
put_key-Sorted k v [] s = tt
put_key-Sorted k v ((j, w) ∷ es) s =
    ground (arith, put_key-SortedFrom j k v es, before_total k j, bytes_eq_iff j k)

SortedFrom-weaken :
    (b c : Bytes) (es : Items) → before b c ≡ true → SortedFrom c es → SortedFrom b es
SortedFrom-weaken b c [] h s = tt
SortedFrom-weaken b c ((j, w) ∷ es) h s = (before_trans b c j h s.0, s.1)

drop_key-SortedFrom : (b k : Bytes) (es : Items) → SortedFrom b es → SortedFrom b (drop_key k es)
drop_key-SortedFrom b k [] s = tt
drop_key-SortedFrom b k ((j, w) ∷ es) s =
    ground (arith, drop_key-SortedFrom j k es, SortedFrom-weaken b j (drop_key k es))

drop_key-Sorted : (k : Bytes) (es : Items) → Sorted es → Sorted (drop_key k es)
drop_key-Sorted k [] s = tt
drop_key-Sorted k ((j, w) ∷ es) s =
    ground (arith, drop_key-SortedFrom j k es, Sorted-tail j (drop_key k es))

pub apply_writes-Sorted : (ws : List Write) (es : Items) → Sorted es → Sorted (apply_writes ws es)
apply_writes-Sorted [] es s = s
apply_writes-Sorted (put k v ttl ∷ ws) es s =
    apply_writes-Sorted ws (put_key k v es) (put_key-Sorted k v es s)
apply_writes-Sorted (delete k ∷ ws) es s =
    apply_writes-Sorted ws (drop_key k es) (drop_key-Sorted k es s)

pub record Memory : Type 0 where
  pub held : Items
  pub ordered : Sorted held

abbrev pub write_all : Memory → List Write → Memory
write_all d ws = record {
  held = apply_writes ws d.held;
  ordered = apply_writes-Sorted ws d.held d.ordered;
}

abbrev pub held_of : Result Memory → Items
held_of (ok d) = d.held
held_of (err e) = []

instance abbrev pub memory_db : BadgerLib Memory
memory_db = record {
  entries = λ d. d.held;
  view_error = λ d. none;
  value_error = λ d k. none;
  commit = λ d ws. ok (write_all d ws);
  sorted = λ d. d.ordered;
  commit_lem = λ d d' ws e lasting. sym (ap held_of e);
}
