-- ===== src/Block/Keys.antt =====
-- The keys of the block list: `IPNamespace`, `ASNNamespace` and `CIDRNamespace` of block.go.
use botex.Prelude.{ℕ, zero, suc, ◌+◌, ◌/◌, ◌%◌, [], ◌∷◌, ◌++◌, ltb, if◌then◌else◌}
use botex.Data.{Bytes}
use botex.Matchers.{codes}

abbrev pub block_namespace : Bytes
block_namespace = codes "bl"

-- `%d` on a number that is not negative; each round needs one unit of fuel, and a number has fewer
-- digits than its successor.
unfoldable pub decimal_from : ℕ → ℕ → Bytes
decimal_from zero n = []
decimal_from (suc fuel) n =
    let high = decimal_from fuel (n / 10) in
    if ltb n 10 then (b'0' + n) ∷ [] else high ++ (b'0' + n % 10) ∷ []

unfoldable pub decimal : ℕ → Bytes
unfolding decimal_from
decimal n = decimal_from (suc n) n

unfoldable pub ip_namespace : Bytes → Bytes
ip_namespace ip = block_namespace ++ (codes ":ip:" ++ ip)

unfoldable pub asn_namespace : ℕ → Bytes
unfolding decimal
asn_namespace asn =
    if ltb 0 asn
    then block_namespace ++ (codes ":asn:" ++ decimal asn)
    else block_namespace ++ codes ":asn"

unfoldable pub cidr_namespace : Bytes → Bytes
cidr_namespace cidr = block_namespace ++ (codes ":cidr:" ++ cidr)
