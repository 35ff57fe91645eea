-- ===== src/Api/Pool.antt =====
-- api.go: which connections of the websocket are clients, and which handlers have been told to end.
use mathlib.Core.List.{foldl}
use botex.Prelude.{
  ℕ, ◌+◌, ◌≤◌, ◌≡◌, ◌∙◌, refl, Bool, Bool-cases, inl, inr, true, false, List, [], ◌∷◌, ◌++◌, ltb,
  ◌==◌, if◌then◌else◌, arith, ==_iff, ap, subst, sym, ◌||◌,
}
use botex.Block.{done, error}
use botex.Api.Sockets.{
  Sockets, broadcast, send_blocked_ips, connect, take_item, close_all, times, SocketEvent, connects,
  items, sends, stops, if_running, socket_step, no_sockets,
}

times-append : (k : ℕ) (xs ys : List ℕ) → times k (xs ++ ys) ≡ times k xs + times k ys
times-append k [] ys = omega arith
times-append k (x ∷ xs) ys = omega (arith, times-append k xs ys)

broadcast_lem :
    (writes : ℕ → Bool) (k : ℕ) (clients ended : List ℕ)
    → let (left, ended') = broadcast writes clients ended in
      times k left + times k ended' ≡ times k clients + times k ended
unfolding broadcast
broadcast_lem writes k [] ended = refl
broadcast_lem writes k (c ∷ clients) ended = elim (Bool-cases (writes c)) [
  | inl e ↦ rw e (omega (arith, broadcast_lem writes k clients ended))
  | inr e ↦ rw e (omega (arith, broadcast_lem writes k clients ended))
]

broadcast-clients :
    (writes : ℕ → Bool) (k : ℕ) (clients ended : List ℕ)
    → times k (broadcast writes clients ended).0 ≡ (if writes k then times k clients else 0)
unfolding broadcast
broadcast-clients writes k [] ended = elim (Bool-cases (writes k)) [
  | inl e ↦ rw e refl
  | inr e ↦ rw e refl
]
broadcast-clients writes k (c ∷ clients) ended =
    let rest = broadcast-clients writes k clients ended in
    let same : c == k ≡ true → c ≡ k = (==_iff c k).0 in
    elim (Bool-cases (writes c)) [
      | inl e ↦ elim (Bool-cases (c == k)) [
        | inl f ↦
            let here : writes k ≡ true = ap writes (sym (same f)) ∙ e in
            rw (e, here, rest, here) refl
        | inr f ↦ ground (arith, e, f, rest)
      ]
      | inr e ↦ elim (Bool-cases (c == k)) [
        | inl f ↦
            let here : writes k ≡ false = ap writes (sym (same f)) ∙ e in
            ground (arith, e, here, rest)
        | inr f ↦ ground (arith, e, f, rest)
      ]
    ]

abbrev pub has_no_items : {X : Type 0} → List X → Bool
has_no_items [] = true
has_no_items (x ∷ xs) = false

module _ {X : Type 0} where
  -- Every connection is among the clients or has been told to end, once.
  abbrev pub IsPooled : Sockets X → Type 0
  IsPooled s = (k : ℕ) → times k s.clients + times k s.ended ≡ (if ltb k s.next then 1 else 0)

  add_client-once :
      (s : Sockets X) (k : ℕ)
      → times k s.clients + times k s.ended ≡ (if ltb k s.next then 1 else 0)
      → times k (s.next ∷ s.clients) + times k s.ended ≡ (if ltb k (s.next + 1) then 1 else 0)
  add_client-once s k h = ground arith

  take_item-IsPooled :
      (writes : ℕ → Bool) (queue : List X) (s : Sockets X)
      → IsPooled s
      → IsPooled (take_item writes queue s)
  unfolding take_item
  take_item-IsPooled writes [] s p = p
  take_item-IsPooled writes (x ∷ queue) s p = λ k. broadcast_lem writes k s.clients s.ended ∙ p k

  if_running-IsPooled :
      (running : Bool) (next s : Sockets X)
      → IsPooled next
      → IsPooled s
      → IsPooled (if_running running next s)
  if_running-IsPooled true next s p q = p
  if_running-IsPooled false next s p q = q

  if_running-true :
      (running : Bool) (next s : Sockets X) → running ≡ true → if_running running next s ≡ next
  if_running-true true next s e = refl
  if_running-true false next s e = absurd (cc)

  if_running-false :
      (running : Bool) (next s : Sockets X) → running ≡ false → if_running running next s ≡ s
  if_running-false true next s e = absurd (cc)
  if_running-false false next s e = refl

  close_all-IsPooled : (s : Sockets X) → IsPooled s → IsPooled (close_all s)
  unfolding close_all
  close_all-IsPooled s p = λ k. omega (arith, p k, times-append k s.clients s.ended)

  step-IsPooled : (s : Sockets X) (e : SocketEvent X) → IsPooled s → IsPooled (socket_step s e)
  unfolding socket_step connect send_blocked_ips
  step-IsPooled s (connects false blocked) p = p
  step-IsPooled s (connects true (error e)) p = λ k. add_client-once s k (p k)
  step-IsPooled s (connects true (done x)) p = λ k. add_client-once s k (p k)
  step-IsPooled s (items writes) p =
      if_running-IsPooled s.is_running _ s (take_item-IsPooled writes s.websocket_chan s p) p
  step-IsPooled s (sends x) p = p
  step-IsPooled s stops p = if_running-IsPooled s.is_running _ s (close_all-IsPooled s p) p

  run-IsPooled_from :
      (events : List (SocketEvent X)) (s : Sockets X)
      → IsPooled s
      → IsPooled (foldl socket_step s events)
  run-IsPooled_from [] s p = p
  run-IsPooled_from (e ∷ events) s p =
      run-IsPooled_from events (socket_step s e) (step-IsPooled s e p)

  -- The loop has ended when `old` connections had been made: these have been told to end, and the
  -- later ones are among the clients and have not.
  pub record IsStranded (old : ℕ) (s : Sockets X) : Type 0 where
    pub over : s.is_running ≡ false
    pub later : old ≤ s.next
    pub told : (k : ℕ) → times k s.ended ≡ (if ltb k old then 1 else 0)
    pub left :
        (k : ℕ) → times k s.clients ≡ (if ltb k old then 0 else if ltb k s.next then 1 else 0)

  strand :
      (s : Sockets X) (k old : ℕ)
      → old ≤ s.next
      → times k s.clients ≡ (if ltb k old then 0 else if ltb k s.next then 1 else 0)
      → times k (s.next ∷ s.clients)
        ≡ (if ltb k old then 0 else if ltb k (s.next + 1) then 1 else 0)
  strand s k old h p = ground arith

  step-IsStranded :
      (old : ℕ) (s : Sockets X) (e : SocketEvent X)
      → IsStranded old s
      → IsStranded old (socket_step s e)
  unfolding socket_step connect send_blocked_ips
  step-IsStranded old s (connects false blocked) p = p
  step-IsStranded old s (connects true (error e)) p = record {
    over = p.over;
    later = omega (arith, p.later);
    told = p.told;
    left = λ k. strand s k old p.later (p.left k);
  }
  step-IsStranded old s (connects true (done x)) p = record {
    over = p.over;
    later = omega (arith, p.later);
    told = p.told;
    left = λ k. strand s k old p.later (p.left k);
  }
  step-IsStranded old s (items writes) p =
      subst (IsStranded old) (sym (if_running-false s.is_running _ s p.over)) p
  step-IsStranded old s (sends x) p = record {
    over = p.over;
    later = p.later;
    told = p.told;
    left = p.left;
  }
  step-IsStranded old s stops p =
      subst (IsStranded old) (sym (if_running-false s.is_running _ s p.over)) p

  run-IsStranded :
      (old : ℕ) (events : List (SocketEvent X)) (s : Sockets X)
      → IsStranded old s
      → IsStranded old (foldl socket_step s events)
  run-IsStranded old [] s p = p
  run-IsStranded old (e ∷ events) s p =
      run-IsStranded old events (socket_step s e) (step-IsStranded old s e p)

  stop-IsStranded :
      (s : Sockets X) → s.is_running ≡ true → IsPooled s → IsStranded s.next (socket_step s stops)
  unfolding socket_step close_all
  stop-IsStranded s running p =
      subst (IsStranded s.next) (sym (if_running-true s.is_running _ s running)) (record {
        over = refl;
        later = omega arith;
        told = λ k. omega (arith, p k, times-append k s.clients s.ended);
        left = λ k. ground arith;
      })

  item-clients :
      (s : Sockets X) (writes : ℕ → Bool) (k : ℕ)
      → s.is_running ≡ true
      → times k (socket_step s (items writes)).clients
        ≡ (if has_no_items s.websocket_chan || writes k then times k s.clients else 0)
  unfolding socket_step
  item-clients s writes k running =
      ap (λ (r : Sockets X). times k r.clients) (if_running-true s.is_running _ s running)
      ∙ taken s.websocket_chan
    where
      taken :
          (queue : List X)
          → times k (take_item writes queue s).clients
            ≡ (if has_no_items queue || writes k then times k s.clients else 0)
      taken [] = refl
      taken (x ∷ queue) = broadcast-clients writes k s.clients s.ended

  -- From a server without connections, after any events `before` which do not end the loop of
  -- processWebsocketData: every connection that was upgraded is a client, or its handler has been
  -- told to end, and that once. An item, if there is one, drops just the clients that it cannot be
  -- written to. When the program ends, and whatever happens after that: just the connections made
  -- until then have been told to end, once each; later ones stay among the clients for good.
  pub run-IsPooled :
      (before after : List (SocketEvent X))
      → (foldl socket_step no_sockets before).is_running ≡ true
      → let s = foldl socket_step no_sockets before in
        let t = foldl socket_step (socket_step s stops) after in
        ((k : ℕ) → times k s.clients + times k s.ended ≡ (if ltb k s.next then 1 else 0))
        × ((writes : ℕ → Bool) (k : ℕ)
            → times k (socket_step s (items writes)).clients
              ≡ (if has_no_items s.websocket_chan || writes k then times k s.clients else 0))
        × ((k : ℕ) → times k t.ended ≡ (if ltb k s.next then 1 else 0))
        × ((k : ℕ)
            → times k t.clients ≡ (if ltb k s.next then 0 else if ltb k t.next then 1 else 0))
  run-IsPooled before after running =
      let s = foldl socket_step no_sockets before in
      let p = run-IsPooled_from before no_sockets (λ k. ground arith) in
      let q = run-IsStranded s.next after _ (stop-IsStranded s running p) in
      (p, λ writes k. item-clients s writes k running, q.told, q.left)
