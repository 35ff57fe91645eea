-- ===== src/Botex/Trials.antt =====
-- A client that is blocked and then asks for a page, and a server that starts without clients.
use mathlib.Core.List.{mem-cons_self}
use mathlib.Core.List.Perm
use botex.Prelude.{
  ℕ, ◌+◌, ◌≡◌, refl, String, Option, none, some, Bool, true, false, List, [], ◌∷◌, All, arith,
}
use botex.Matchers.{codes}
use botex.Treemap.Sorted.{SortedMap, sorted_map}
use botex.Store.Prefix.{has_prefix}
use botex.Store.Badger.{badger_store}
use botex.Store.Badger.Laws.{badger_laws}
use botex.Store.Badger.Memory.{Memory, memory_db}
use botex.StatsWindows.{Stats}
use botex.Block.Tests.{healthy}
use botex.IpData.{IpData}
use botex.IpData.Tests.{env, ip_data}
use botex.History.Tests.{net, history, request, encode}
use botex.Botex.{Botex, block_one}
use botex.Botex.Events.{Event, requests, ticks, run}
use botex.Botex.Totals.{Agrees, run-Agrees}
use botex.Botex.Enforcement.{block_one-decide}
use botex.Botex.Tests.{registry, json, server}
use botex.WebserverSocket.Decide.{blocks, decide}
use botex.WebserverSocket.Tests.{aes, texts, config}

block_one-decide_example :
    (next : Botex (SortedMap ℕ) (SortedMap Stats) Memory ℕ ℕ ℕ) × (block_one net json
        (λ t. "")
        (λ g. g)
        110
        (192 ∷ [])
        none
        server
      ≡ some next)
    × (decide registry json
          (λ n ip. has_prefix n ip)
          aes
          texts
          config
          []
          (λ answers. answers)
          (λ i. 10)
          next.blocked
          (192 ∷ [])
          (codes "")
          (codes "")
        ≡ some blocks)
unfolding has_prefix botex.Prelude.lookup botex.Store.Prefix.bytes_eq botex.Block.Change.block_ip
    botex.Block.Change.block_address botex.Block.write_once botex.Store.Badger.get
    botex.Store.Badger.item_value botex.Store.Badger.find_key botex.Store.Badger.set_ex
    botex.Store.Badger.after_commit botex.WebserverSocket.Decide.client_ips
    botex.WebserverSocket.Cookie.has_valid_captcha_cookie
block_one-decide_example =
    block_one-decide net registry json (λ t. "") (λ g. g) (λ n ip. has_prefix n ip) aes texts config
      [] 110 (192 ∷ []) (ip_data []) 1 server badger_laws (λ answers. answers) (λ i. 10) (192 ∷ [])
      (codes "") (codes "") refl refl refl refl (omega arith) (healthy _) (healthy _)
      (λ v e. (v, refl)) (λ v e. (v, refl)) (λ answers. Perm.refl answers) mem-cons_self refl

abbrev start : Botex (SortedMap ℕ) (SortedMap Stats) Memory ℕ ℕ ℕ
start = record server { history = record history { clients = [] } }

abbrev events : List (Event ℕ ℕ ℕ)
events =
    requests false (λ i. 100) (λ i. 105) 105 request
    ∷ ticks 110 (λ key i. 110)
    ∷ requests false (λ i. 112) (λ i. 115) 115 request
    ∷ []

abbrev or_start :
    Option (Botex (SortedMap ℕ) (SortedMap Stats) Memory ℕ ℕ ℕ)
    → Botex (SortedMap ℕ) (SortedMap Stats) Memory ℕ ℕ ℕ
or_start none = start
or_start (some b) = b

abbrev last : Botex (SortedMap ℕ) (SortedMap Stats) Memory ℕ ℕ ℕ
last = or_start (run env net encode registry json (λ t. "") (λ g. g) events start)

run-Agrees_example : All Agrees last.history.clients
unfolding run botex.Botex.handle_request botex.History.add botex.Prelude.lookup
    botex.IpData.new_ip_data botex.Whitelist.is_whitelisted botex.Whitelist.or_next
    botex.Whitelist.find_number botex.Whitelist.first_match botex.History.expire
    botex.Prelude.insert botex.Requests.can_be_expired botex.IpData.add botex.Requests.add
    botex.Requests.record_request botex.Requests.expire botex.Store.Prefix.bytes_eq
run-Agrees_example =
    run-Agrees env net encode registry json (λ t. "") (λ g. g) events start last refl
      ((105, λ i. refl), ((λ key. (110, λ i. refl)), ((115, λ i. refl), tt))) refl
