-- ===== src/Lib.antt =====
-- botex, a server that finds bad bots among the clients of a web site.
--
-- Parts and files (paths from the repository's root):
--   window.go                    Window: a rolling window of buckets over a sorted map
--   requestwindow.go             RequestsWindow: the latest requests of a client
--   mapwindow.go                 MapWindow: one rolling window for each user agent
--   matchers/matchers.go         Matchers: which URLs are assets
--   requests.go                  Requests: all windows of one client
--   data/                        Data: the structs that the parts pass on
--   store/kvstore.go, badger.go  Store: the key/value store and its laws; Store.Badger over badger
--   block.go                     Block: the block list over the store
--   stats.go                     StatsWindows: the decisions in all windows of the server
--   whitelist.go                 Whitelist: the rules, their loading and the tests
--   plugins/network.go           NetworkData: the requests of one network; Networks: all networks,
--                                the sums per autonomous system, what they block, and
--                                (Networks.Enforcement) the block list after that
--   ipdata.go                    IpData: one client, and the decision to block it
--   history.go                   History: all clients
--   resolver.go                  Resolver: the lookups of names, their cache and their retries
--   webserversocket.go           WebserverSocket: the answers to a web server, and the cookie of a
--                                solved captcha with its encryption
--   botex.go                     Botex: what is done with a request, the workers, and Botex.Events,
--                                all that happens to the server, in any order
--   logreplay.go                 LogReplay: the requests that a log file stands for, in the first
--                                pass and the later ones
--   api.go                       Api: the answers of the HTTP interface, and the websocket's clients
--   plugins/ipmeta.go            Networks.Pages, with the handlers of plugins/network.go
-- A request goes from Botex.HandleRequest to History.Add, which finds or makes the client, and from
-- there into the client's windows (Requests.Add). Statistics of the windows go to History.update as
-- messages; IPData.Update decides whether the client is blocked, its name is looked up by the
-- resolver, and a worker writes it to the block list. The block list keeps its messages in the
-- store, as JSON, and StatsWindows its items. The web socket server asks the block list. Each Go
-- method is a function from the state, a record with the fields of the struct, to the new state and
-- the results; what is sent on a channel is a result. Each file's header names what differs.
--
-- Parameters: the sorted map of github.com/emirpasic/gods (Treemap, with its laws;
-- Treemap.Sorted is an instance) and its sorted map in both directions (NetworkData.BidiMap, no
-- law), the struct asndb.ASN with its fields (Block.Registry, Networks.Systems), net.IP
-- (History.Net), float64 (Float64, no law), the badger database (BadgerLib, with its laws;
-- Store.Badger.Memory is an instance), encoding/json on the messages (Block.Codec), on the items
-- of StatsWindows (StatsWindows.Json, with the layout of times) and on the lines of a web
-- server, regular expressions and networks (Whitelist.Patterns), the cipher
-- (WebserverSocket.Cipher.Aes, with its laws), texts of addresses, times and encodings
-- (WebserverSocket.Cookie.Texts), the name servers, `net.ParseCIDR` and Contains, what
-- fmt.Sprintf makes of a reason, the greatest length of a slice that `make` accepts, and whether
-- the request handler of a web server returns. sort.Slice is an insertion sort, which keeps the
-- order of equal elements where Go leaves it open. The clock is an argument: an instant is a
-- number of nanoseconds since 1970, or a sequence of readings where a method reads the clock
-- several times. Counters are natural numbers, which stand for int64 values that have not
-- overflowed. A loop over a sorted map has the map's size for fuel, which is enough as each
-- round but the last visits one of its entries (Treemap.Loop); the loop over a list from its
-- back has the list's length, and the digits of a number n are printed with n + 1 units.
-- Goroutines that answer on one channel do so in any order: the order is an argument.
--
-- Not modelled: the flags and the wiring of cmd/botex/main.go, cmd/badger/main.go, config/config.go
-- and of New and NewAPI, the routes of the HTTP interface, the file watcher of whitelist.go, and
-- starting and stopping in all files. Logging and locks are left out.
pub mod Prelude
pub mod Treemap
pub mod Window
pub mod Data
pub mod RequestsWindow
pub mod MapWindow
pub mod Matchers
pub mod Float64
pub mod Requests
pub mod Store
pub mod Block
pub mod StatsWindows
pub mod Whitelist
pub mod NetworkData
pub mod Networks
pub mod IpData
pub mod History
pub mod WebserverSocket
pub mod Resolver
pub mod Botex
pub mod LogReplay
pub mod Api
