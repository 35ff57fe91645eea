-- ===== src/Api/Sockets.antt =====
-- api.go, botex.go: the clients of the websocket, and the queue of the messages for them. A connection
-- is the number of those before it. `ended` are the connections whose handlers have been told to
-- end. The order in which a map is iterated is that of the list.
use botex.Prelude.{
  ℕ, ◌+◌, Bool, true, false, List, [], ◌∷◌, ◌++◌, ltb, ◌==◌, if◌then◌else◌, length, count_if,
}
use botex.Block.{Outcome, done, error}

pub record Sockets (X : Type 0) : Type 0 where
  pub clients : List ℕ
  pub ended : List ℕ
  pub next : ℕ
  pub websocket_chan : List X
  -- processWebsocketData has not returned.
  pub is_running : Bool

-- `make(chan interface{}, 100)`
abbrev pub capacity : ℕ
capacity = 100

-- The clients that an item could be written to, and the others in front of those that have ended.
unfoldable pub broadcast : (ℕ → Bool) → List ℕ → List ℕ → List ℕ × List ℕ
broadcast writes [] ended = ([], ended)
broadcast writes (k ∷ clients) ended =
    let (left, ended') = broadcast writes clients ended in
    if writes k then (k ∷ left, ended') else (left, k ∷ ended')

module _ {X : Type 0} where
  -- A send in a `select` with a `default`: a full channel drops the message.
  unfoldable pub offer : X → List X → List X
  offer x queue = if ltb (length queue) capacity then queue ++ x ∷ [] else queue

  -- `sendBlockedIPsToWebsocket`
  unfoldable pub send_blocked_ips : Outcome X → Sockets X → Sockets X
  unfolding offer
  send_blocked_ips (error e) s = s
  send_blocked_ips (done x) s = record s { websocket_chan = offer x s.websocket_chan }

  -- The handler up to its wait, for a connection that was upgraded or not.
  unfoldable pub connect : Bool → Outcome X → Sockets X → Sockets X
  unfolding send_blocked_ips
  connect false blocked s = s
  connect true blocked s =
      send_blocked_ips blocked (record s { clients = s.next ∷ s.clients; next = s.next + 1 })

  -- The next item of the channel; `writes` says which connections take it.
  unfoldable pub take_item : (ℕ → Bool) → List X → Sockets X → Sockets X
  unfolding broadcast
  take_item writes [] s = s
  take_item writes (x ∷ queue) s =
      let (left, ended) = broadcast writes s.clients s.ended in
      record s { clients = left; ended = ended; websocket_chan = queue }

  -- The end of the context.
  unfoldable pub close_all : Sockets X → Sockets X
  close_all s = record s { clients = []; ended = s.clients ++ s.ended; is_running = false }

abbrev pub times : ℕ → List ℕ → ℕ
times k = count_if (λ j. j == k)

pub data SocketEvent (X : Type 0) : Type 0 where
  -- a connection, and the block list as it is sent to it
  connects : Bool → Outcome X → SocketEvent X
  items : (ℕ → Bool) → SocketEvent X
  -- A send of another goroutine, which waits until the channel has room.
  sends : X → SocketEvent X
  stops : SocketEvent X

module _ {X : Type 0} where
  -- The loop of processWebsocketData takes nothing more when it has returned.
  abbrev pub if_running : Bool → Sockets X → Sockets X → Sockets X
  if_running true next s = next
  if_running false next s = s

  unfoldable pub socket_step : Sockets X → SocketEvent X → Sockets X
  unfolding connect take_item offer close_all
  socket_step s (connects upgraded blocked) = connect upgraded blocked s
  socket_step s (items writes) = if_running s.is_running (take_item writes s.websocket_chan s) s
  socket_step s (sends x) = record s { websocket_chan = offer x s.websocket_chan }
  socket_step s stops = if_running s.is_running (close_all s) s

  abbrev pub no_sockets : Sockets X
  no_sockets = record { clients = []; ended = []; next = 0; websocket_chan = []; is_running = true }
