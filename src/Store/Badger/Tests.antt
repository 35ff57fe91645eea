-- ===== src/Store/Badger/Tests.antt =====
-- The theorems at a database with keys of the block list.
use botex.Prelude.{◌≡◌, refl, none, not, [], ◌∷◌, if◌then◌else◌, length, select, arith}
use botex.Matchers.{codes}
use botex.Store.{ok}
use botex.Store.Prefix.{bytes_eq, before, has_prefix, while_prefix, seek, with_prefix}
use botex.Store.Badger.{
  Items, find_key, get, after_commit, set_ex, iterate, deletes, remove, each, all, count, has,
}
use botex.Store.Badger.Laws.{IsHealthy, is_some, values_of, remove-entries, get-set_ex, reads_agree}
use botex.Store.Badger.Memory.{Memory, memory_db}

abbrev blocked_asns : Items
blocked_asns = (codes "bl:asn:12", codes "a") ∷ (codes "bl:asn:123", codes "b") ∷ []

blocked : Memory
unfolding before
blocked = record { held = blocked_asns; ordered = (refl, tt) }

abbrev emptied : Memory
emptied = (remove blocked (codes "bl:asn:12")).0

healthy : (d : Memory) → IsHealthy d
healthy d = record { views = refl; values = λ k. refl }

remove-entries_example :
    emptied.held ≡ select (λ e. not (has_prefix (codes "bl:asn:12") e.0)) blocked.held
unfolding remove after_commit
remove-entries_example = remove-entries blocked emptied (codes "bl:asn:12") refl

get-set_ex_run :
    get (set_ex blocked (codes "bl:ip:x") (codes "c") 10_000_000_000).0 (codes "bl:ip:x") ≡ (
      if bytes_eq (codes "bl:ip:x") (codes "bl:ip:x")
      then ok (codes "c")
      else get blocked (codes "bl:ip:x"))
unfolding set_ex after_commit
get-set_ex_run =
    get-set_ex blocked (set_ex blocked (codes "bl:ip:x") (codes "c") 10_000_000_000).0
      (codes "bl:ip:x") (codes "c") 10_000_000_000 refl (omega arith) (healthy _) (healthy _)
      (codes "bl:ip:x")

reads_agree_run :
    let es = with_prefix (codes "bl:asn") blocked.held in
    (each blocked (codes "bl:asn") ≡ (values_of es, none))
    × (all blocked (codes "bl:asn") ≡ ok (values_of es))
    × (count blocked (codes "bl:asn") ≡ (length es, none))
    × (has blocked (codes "bl:asn:12")
        ≡ (is_some (find_key (codes "bl:asn:12") blocked.held), none))
reads_agree_run = reads_agree blocked (codes "bl:asn") (codes "bl:asn:12") (healthy blocked)

-- Removing one key takes the longer one with it.
both_gone : emptied.held ≡ []
unfolding blocked remove iterate deletes after_commit seek while_prefix before has_prefix bytes_eq
both_gone = refl
