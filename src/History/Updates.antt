-- ===== src/History/Updates.antt =====
-- The sums over all clients, and how far a call of `update` gets.
use mathlib.Core.Option.{none-ne-some}
use botex.Prelude.{
  ℕ, ◌+◌, ◌≡◌, ◌⊎◌, inl, inr, refl, sym, ◌∙◌, String, Option, none, some, Option-cases, Bool, subst,
  not, List, [], ◌∷◌, ◌++◌, arith, ltb, if◌then◌else◌, Bool-cases, sum_of, count_if, lookup,
  lookup-insert, str_eq, eq_iff,
}
use botex.Data.{Bytes, IpStats}
use botex.Float64.{Float64}
use botex.MapWindow.{Clock}
use botex.Store.Prefix.{bytes_eq}
use botex.IpData.{Env, IpData, Updated}
use botex.IpData
use botex.History.{
  Net, History, Effects, Changed, no_stats, sum_clients, total_stats, take_update, update_one,
  update_from, put_client, note_if,
}

abbrev pub Entry : Type 0 → Type 0 → Type 0 → Type 0 → Type 0
Entry M A G F = String × IpData M A G F

-- A client with a name, or one that is being looked up.
abbrev pub is_named : {M A G F : Type 0} → Entry M A G F → Bool
is_named e = not (bytes_eq e.1.details.hostname [])

module _ {M A G F : Type 0} (fl : Float64 F) where
  sum_clients_lem :
      (es : List (Entry M A G F)) (st : IpStats A F Bytes)
      → let r = sum_clients fl es st in
        (r.total ≡ st.total + sum_of (λ (e : Entry M A G F). e.1.details.total) es)
        × (r.app ≡ st.app + sum_of (λ (e : Entry M A G F). e.1.details.app) es)
        × (r.other ≡ st.other + sum_of (λ (e : Entry M A G F). e.1.details.other) es)
        × (r.with_hostname ≡ st.with_hostname + count_if is_named es)
  unfolding sum_clients
  sum_clients_lem [] st = (omega arith, omega arith, omega arith, omega arith)
  sum_clients_lem ((key, ipd) ∷ es) st =
      let (t, a, o, w) = sum_clients_lem es _ in
      (
        omega (arith, t),
        omega (arith, a),
        omega (arith, o),
        w ∙ elim (Bool-cases (bytes_eq ipd.details.hostname [])) [
          | inl e ↦ rw e (omega arith)
          | inr e ↦ rw e (omega arith)
        ],
      )

  -- TotalStats: the sums over all clients, the number of those whose name is not empty, and the
  -- ratio of the first two sums.
  pub total_stats_lem :
      {W : Type 0} (h : History M W A G F)
      → let r = total_stats fl h in
        (r.total ≡ sum_of (λ (e : Entry M A G F). e.1.details.total) h.clients)
        × (r.app ≡ sum_of (λ (e : Entry M A G F). e.1.details.app) h.clients)
        × (r.other ≡ sum_of (λ (e : Entry M A G F). e.1.details.other) h.clients)
        × (r.with_hostname ≡ count_if is_named h.clients)
        × (r.ratio ≡ fl.div (fl.of_int r.app) (fl.of_int r.total))
  unfolding total_stats
  total_stats_lem h =
      let (t, a, o, w) = sum_clients_lem h.clients (no_stats fl) in
      (omega (arith, t), omega (arith, a), omega (arith, o), omega (arith, w), refl)

module _ {M W R N A G F : Type 0} (env : Env R N A F) (net : Net A G) where
  -- The address is not known, or the statistics have no request.
  abbrev pub Stops : IpStats A F Bytes → History M W A G F → Type 0
  Stops st h = (lookup (net.ip_string st.ip) h.clients ≡ none) ⊎ (st.total ≡ 0)

  update_one-Stops :
      (force : Bool) (clock : Clock) (st : IpStats A F Bytes) (h : History M W A G F)
      (effects : Effects)
      → Stops st h
      → update_one env net force clock st h effects ≡ none
  unfolding update_one
  update_one-Stops force clock st h effects (inl e) = rw (e, update_one) refl
  update_one-Stops force clock st h effects (inr e) =
      elim (Option-cases (lookup (net.ip_string st.ip) h.clients)) [
        | inl f ↦ rw (f, update_one) refl
        | inr (ipd, f) ↦ rw (f, update_one) (no_requests _ st.total e)
      ]
    where
      no_requests :
          {X : Type 0} → (x : X) → (n : ℕ) → n ≡ 0 → (if ltb 0 n then some x else none) ≡ none
      no_requests x n z = rw z refl

  put_client-unknown :
      (h : History M W A G F) (key k : String) (old ipd : IpData M A G F)
      → lookup k h.clients ≡ some old
      → lookup key h.clients ≡ none
      → lookup key (put_client h k ipd).clients ≡ none
  put_client-unknown h key k old ipd there gone = elim (Bool-cases (str_eq k key)) [
    | inl e ↦
        let same : k ≡ key = (eq_iff k key).0 e in
        let k : ◌≡◌ {A = Option (IpData M A G F)} (some old) none =
          sym there ∙ rw (sym same) at gone in
        cc
    | inr e ↦ lookup-insert k key ipd h.clients ∙ rw (e) gone
  ]

  take_update-unknown :
      (h : History M W A G F) (effects : Effects) (ip : Bytes) (old : IpData M A G F)
      (result : Option (Updated M A G F)) (c : Changed M W A G F) (key : String)
      → lookup (net.ip_string ip) h.clients ≡ some old
      → take_update env net h effects ip result ≡ some c
      → lookup key h.clients ≡ none
      → lookup key c.history.clients ≡ none
  unfolding take_update
  take_update-unknown h effects ip old none c key there run gone = absurd (none-ne-some c run)
  take_update-unknown h effects ip old (some u) c key there run gone =
      let same : ◌≡◌ {A = Changed M W A G F}
          record {
            history = put_client h (net.ip_string ip) u.ipd;
            effects = record {
              blocks = note_if u.sent ip effects.blocks;
              lookups = note_if u.resolves ip effects.lookups;
            };
          }
          c =
        cc in
      subst (λ c. lookup key c.history.clients ≡ none) same
        (put_client-unknown h key (net.ip_string ip) old u.ipd there gone)

  update_one-unknown :
      (force : Bool) (clock : Clock) (x : IpStats A F Bytes) (h : History M W A G F)
      (effects : Effects) (c : Changed M W A G F) (key : String)
      → update_one env net force clock x h effects ≡ some (some c)
      → lookup key h.clients ≡ none
      → lookup key c.history.clients ≡ none
  unfolding update_one take_update
  update_one-unknown force clock x h effects c key run gone =
      elim (Option-cases (lookup (net.ip_string x.ip) h.clients)) [
        | inl e ↦
            let k : ◌≡◌ {A = Option (Option (Changed M W A G F))} none (some (some c)) =
              rw (e, update_one) at run in
            cc
        | inr (ipd, e) ↦ elim (Bool-cases (ltb 0 x.total)) [
          | inl f ↦
              let k : ◌≡◌ {A = Option (Option (Changed M W A G F))}
                  (some (take_update env net h effects x.ip (IpData.update env force clock x ipd)))
                  (some (some c)) =
                rw f at (rw (e, update_one) at run) in
              take_update-unknown h effects x.ip ipd (IpData.update env force clock x ipd) c key e
                (cc) gone
          | inr f ↦
              let k : ◌≡◌ {A = Option (Option (Changed M W A G F))} none (some (some c)) =
                rw f at (rw (e, update_one) at run) in
              cc
        ]
      ]

  -- update: the first client that is not known, or whose statistics have no request, ends the call;
  -- what comes after it in the list changes nothing and has no effect.
  pub update_from-Stops :
      (force : Bool) (clock : Clock) (xs : List (IpStats A F Bytes)) (st : IpStats A F Bytes)
      (ys : List (IpStats A F Bytes)) (h : History M W A G F) (effects : Effects)
      → Stops st h
      → update_from env net force clock (xs ++ st ∷ ys) h effects
        ≡ update_from env net force clock xs h effects
  unfolding update_from
  update_from-Stops force clock [] st ys h effects stops =
      rw (update_one-Stops force clock st h effects stops, update_from) refl
  update_from-Stops force clock (x ∷ xs) st ys h effects stops =
      elim (Option-cases (update_one env net force clock x h effects)) [
        | inl e ↦ rw (e, update_from) refl
        | inr (none, e) ↦ rw (e, update_from) refl
        | inr (some c, e) ↦
            rw (e, update_from)
              (update_from-Stops force (λ i. clock (i + 2)) xs st ys c.history c.effects
                (still c e stops))
      ]
    where
      still :
          (c : Changed M W A G F)
          → update_one env net force clock x h effects ≡ some (some c)
          → Stops st h
          → Stops st c.history
      still c e (inl gone) = inl (update_one-unknown force clock x h effects c _ e gone)
      still c e (inr z) = inr z
