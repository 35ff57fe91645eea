-- ===== src/Block/Recheck.antt =====
-- block.go: the branch of `cleanup` that unblocks the addresses which have been whitelisted since.
-- All entries are decoded into one struct, so a field that an entry does not name keeps the value of
-- the entry before: `unmarshal` gets the details as they are. An error of it is only logged. The
-- whitelist dereferences an autonomous system that is nil, which ends the program: none.
use botex.Prelude.{Option, none, some, true, List, [], ◌∷◌}
use botex.Data.{Bytes}
use botex.Store.{KvStore}
use botex.Whitelist.{
  IpDetails, Patterns, Whitelist, Verdict, whitelisted_by, not_whitelisted, nil_asn, is_whitelisted,
}
use botex.Block.{Block, ip_namespace}
use botex.Block.Change.{remove_ip}

module _ {S R N A G F : Type 0} ⦃kv : KvStore S⦄ (patterns : Patterns R N A)
    (whitelist : Whitelist R N) (unmarshal : Bytes → IpDetails A G F → IpDetails A G F) where
  abbrev pub unblock_if : Verdict → IpDetails A G F → Block S → Option (Block S × IpDetails A G F)
  unblock_if nil_asn ipd b = none
  unblock_if not_whitelisted ipd b = some (b, ipd)
  unblock_if (whitelisted_by reason) ipd b =
      some ((remove_ip b ipd.ip).0, record ipd { is_whitelisted = true })

  -- The callback of `Each`, for all values.
  unfoldable pub recheck_values : List Bytes → IpDetails A G F → Block S → Option (Block S)
  recheck_values [] ipd b = some b
  recheck_values (v ∷ vs) ipd b =
      let ipd' = unmarshal v ipd in
      elim (unblock_if (is_whitelisted patterns whitelist ipd') ipd' b) [
        | none ↦ none
        | some (next, left) ↦ recheck_values vs left next
      ]

  -- A message of unblockWhitelistedChan; `blank` is the zero value of the struct.
  unfoldable pub recheck : IpDetails A G F → Block S → Option (Block S)
  unfolding recheck_values
  recheck blank b = recheck_values (kv.each b.store (ip_namespace [])).0 blank b
