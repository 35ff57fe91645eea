-- ===== src/Resolver/Dns.antt =====
-- resolver.go: `reverseDNSLookup`. Parameters (Dns): ReverseAddr and Exchange of
-- github.com/miekg/dns, where a failure is none, and the text of `ip.To16()`. A name server that
-- answers with an empty name would end the program, as the last byte is cut off: none.
use mathlib.Core.Option
use botex.Prelude.{Option, none, some, List, [], ◌∷◌, length, take}
use botex.Data.{Bytes}

-- The records of an answer: a PTR with its name, or another.
pub data DnsRecord : Type 0 where
  ptr : Bytes → DnsRecord
  other_record : DnsRecord

pub record Dns : Type 0 where
  pub reverse_addr : Bytes → Option Bytes
  pub exchange : Bytes → Option (List DnsRecord)
  pub text_of : Bytes → Bytes

-- `t.Ptr[0 : len(t.Ptr)-1]`
unfoldable pub without_dot : Bytes → Option Bytes
without_dot [] = none
without_dot (c ∷ cs) = some (take (length cs) (c ∷ cs))

-- The name, or the text of the address where the first record has none.
unfoldable pub hostname_of : Bytes → List DnsRecord → Option Bytes
unfolding without_dot
hostname_of text [] = some text
hostname_of text (ptr name ∷ records) = without_dot name
hostname_of text (other_record ∷ records) = some text

unfoldable pub answered : Bytes → Option (List DnsRecord) → Option (Option Bytes)
unfolding hostname_of
answered text none = some none
answered text (some records) = Option.map some (hostname_of text records)

unfoldable pub ask : Dns → Bytes → Option Bytes → Option (Option Bytes)
unfolding answered
ask dns text none = some none
ask dns text (some reverse) = answered text (dns.exchange reverse)

-- The name of an address that may be nil, or an error.
unfoldable pub reverse_dns_lookup : Dns → Option Bytes → Option (Option Bytes)
unfolding ask
reverse_dns_lookup dns none = some none
reverse_dns_lookup dns (some ip) = let text = dns.text_of ip in ask dns text (dns.reverse_addr text)
