-- ===== src/Resolver/Queue.antt =====
-- resolver.go: the workers and the queue together. A step is one worker that takes any message of
-- the queue; what it publishes goes to the end.
use botex.Prelude.{
  ℕ, zero, suc, ◌+◌, ◌-◌, ◌≤◌, ◌<◌, ◌≡◌, refl, ap, ◌∙◌, inl, inr, sym, subst, Option, none, some,
  Bool, Bool-cases, List, [], ◌∷◌, ◌++◌, arith, ltb, length, length-append, sum_of, sum_of-append,
}
use botex.Data.{Bytes}
use botex.Store.{not_found, failed, Result, ok, err, KvStore}
use botex.Resolver.{
  IpResolv, Config, Looked, resolve, try_again, after_lookup, with_cached, reverse_lookup,
  resolve_namespace,
}

pub record Resolver (S : Type 0) : Type 0 where
  pub store : S
  pub queue : List IpResolv
  pub sent : List IpResolv

abbrev pub note {ℓ} : {A : Type ℓ} → Option A → List A
note none = []
note (some x) = x ∷ []

-- How many lookups a message can still take.
abbrev pub lookups_left : Config → IpResolv → ℕ
lookups_left config rip = suc (config.tries - rip.tries)

abbrev pub all_left : Config → List IpResolv → ℕ
all_left config queue = sum_of (lookups_left config) queue

shrinks :
    (config : Config) (front back : List IpResolv) (rip : IpResolv) (next : List IpResolv)
    → all_left config next < lookups_left config rip
    → all_left config (front ++ back ++ next) < all_left config (front ++ rip ∷ back)
shrinks config front back rip next less = omega (
  arith,
  less,
  sum_of-append (lookups_left config) (front ++ back) next,
  sum_of-append (lookups_left config) front back,
  sum_of-append (lookups_left config) front (rip ∷ back),
)

keeps_count :
    (front back : List IpResolv) (rip : IpResolv) (next done old : List IpResolv)
    → length done + length next ≤ 1
    → length (done ++ old) + length (front ++ back ++ next)
      ≤ length old + length (front ++ rip ∷ back)
keeps_count front back rip next done old one = omega (
  arith,
  one,
  length-append done old,
  length-append (front ++ back) next,
  length-append front back,
  length-append front (rip ∷ back),
)

-- The message behind `i` others, or the last, with those in front and behind.
abbrev pub pull : {A : Type 0} → ℕ → A → List A → List A × A × List A
pull zero x xs = ([], x, xs)
pull (suc i) x [] = ([], x, [])
pull (suc i) x (y ∷ ys) = let (front, z, back) = pull i y ys in (x ∷ front, z, back)

pull_lem :
    {A : Type 0} (i : ℕ) (x : A) (xs : List A)
    → let (front, z, back) = pull i x xs in x ∷ xs ≡ front ++ z ∷ back
pull_lem zero x xs = refl
pull_lem (suc i) x [] = refl
pull_lem (suc i) x (y ∷ ys) = ap (λ zs. x ∷ zs) (pull_lem i y ys)

module _ {S : Type 0} ⦃kv : KvStore S⦄ (config : Config) (publishes : IpResolv → Bool)
    (ip_text : Bytes → Bytes) where
  abbrev pub look_up : (Bytes → Option Bytes) → S → IpResolv → Looked S
  look_up lookup_dns store rip = reverse_lookup config publishes ip_text lookup_dns store rip

  -- What is left when a message has been looked up that stood between `front` and `back`.
  abbrev pub after : Resolver S → List IpResolv → List IpResolv → Looked S → Resolver S
  after r front back l = record {
    store = l.store;
    queue = front ++ back ++ note l.published;
    sent = note l.sent ++ r.sent;
  }

  pub data Step (a b : Resolver S) : Type 0 where
    takes :
        (lookup_dns : Bytes → Option Bytes) (front : List IpResolv) (rip : IpResolv)
        (back : List IpResolv)
        → a.queue ≡ front ++ rip ∷ back
        → b ≡ after a front back (look_up lookup_dns a.store rip)
        → Step a b

  -- A number of steps.
  pub data Run : ℕ → Resolver S → Resolver S → Type 0 where
    stays : (r : Resolver S) → Run 0 r r
    goes : {n : ℕ} {a b c : Resolver S} → Step a b → Run n b c → Run (suc n) a c

  -- What a lookup leaves of one message.
  abbrev IsSmaller : IpResolv → Looked S → Type 0
  IsSmaller rip l =
      (all_left config (note l.published) < lookups_left config rip)
      × (length (note l.sent) + length (note l.published) ≤ 1)

  try_again-IsSmaller :
      (store : S) (rip : IpResolv) → IsSmaller rip (try_again config publishes ip_text store rip)
  unfolding resolve
  try_again-IsSmaller store rip = elim (Bool-cases (ltb config.tries (rip.tries + 1))) [
    | inl e ↦ rw (e, resolve) (omega arith, omega arith)
    | inr e ↦ elim (Bool-cases (publishes (record rip { tries = rip.tries + 1; error = "" }))) [
      | inl f ↦ rw (e, f, resolve) (ground (arith, e), omega arith)
      | inr f ↦ rw (e, f, resolve) (omega arith, omega arith)
    ]
  ]

  after_lookup-IsSmaller :
      (store : S) (rip : IpResolv) (key : Bytes) (name : Option Bytes)
      → IsSmaller rip (after_lookup config publishes ip_text store rip key name)
  unfolding after_lookup
  after_lookup-IsSmaller store rip key none = try_again-IsSmaller store rip
  after_lookup-IsSmaller store rip key (some hostname) = (omega arith, omega arith)

  with_cached-IsSmaller :
      (lookup_dns : Bytes → Option Bytes) (store : S) (rip : IpResolv) (key : Bytes)
      (cached : Result Bytes)
      → IsSmaller rip (with_cached config publishes ip_text lookup_dns store rip key cached)
  unfolding with_cached
  with_cached-IsSmaller lookup_dns store rip key (ok []) = try_again-IsSmaller store rip
  with_cached-IsSmaller lookup_dns store rip key (ok (c ∷ cs)) = (omega arith, omega arith)
  with_cached-IsSmaller lookup_dns store rip key (err (failed n)) = try_again-IsSmaller store rip
  with_cached-IsSmaller lookup_dns store rip key (err not_found) =
      after_lookup-IsSmaller store rip key (lookup_dns rip.ip)

  look_up-IsSmaller :
      (lookup_dns : Bytes → Option Bytes) (store : S) (rip : IpResolv)
      → IsSmaller rip (look_up lookup_dns store rip)
  unfolding reverse_lookup
  look_up-IsSmaller lookup_dns store rip =
      with_cached-IsSmaller lookup_dns store rip (ip_text rip.ip)
        (kv.get store (resolve_namespace (ip_text rip.ip)))

  -- Fewer lookups are left, and there are not more messages.
  abbrev Shrinks : Resolver S → Resolver S → Type 0
  Shrinks a b =
      (all_left config b.queue < all_left config a.queue)
      × (length b.sent + length b.queue ≤ length a.sent + length a.queue)

  Step-Shrinks : (a b : Resolver S) → Step a b → Shrinks a b
  Step-Shrinks a b (takes lookup_dns front rip back e same) =
      let l = look_up lookup_dns a.store rip in
      let (less, one) = look_up-IsSmaller lookup_dns a.store rip in
      subst (Shrinks a) (sym same) (
        subst (λ q. all_left config (front ++ back ++ note l.published) < all_left config q) (sym e)
            (shrinks config front back rip (note l.published) less),
        subst
            (λ q.
              length (note l.sent ++ a.sent) + length (front ++ back ++ note l.published)
              ≤ length a.sent + length q)
            (sym e) (keeps_count front back rip (note l.published) (note l.sent) a.sent one),
      )

  -- However the workers take messages from the queue, and whatever the name servers and the cache
  -- answer: the number of lookups is at most the number that the messages of the queue may still
  -- take, and there are never more messages, sent or queued, than at first.
  pub run-bounded :
      (n : ℕ) (a b : Resolver S)
      → Run n a b
      → (n + all_left config b.queue ≤ all_left config a.queue)
        × (length b.sent + length b.queue ≤ length a.sent + length a.queue)
  run-bounded zero a b (stays r) = (omega arith, omega arith)
  run-bounded (suc n) a c (goes {b} s rest) =
      let (less, fewer) = Step-Shrinks a b s in
      let (left, count) = run-bounded n b c rest in
      (omega (arith, less, left), omega (arith, fewer, count))

  -- A worker takes the message behind `i` others, or the last, and looks it up; it waits if there is
  -- none.
  abbrev pub work_one : (Bytes → Option Bytes) → ℕ → List IpResolv → Resolver S → Resolver S
  work_one lookup_dns i [] a = a
  work_one lookup_dns i (x ∷ xs) a =
      let (front, rip, back) = pull i x xs in after a front back (look_up lookup_dns a.store rip)

  -- A number of lookups: for the lookup behind `i` others, `lookup_dns i` are the answers of the name
  -- servers, and `picks i` says which message is taken.
  unfoldable pub work : (ℕ → Bytes → Option Bytes) → (ℕ → ℕ) → ℕ → Resolver S → Resolver S
  work lookup_dns picks zero a = a
  work lookup_dns picks (suc n) a =
      work (λ i. lookup_dns (i + 1)) (λ i. picks (i + 1)) n
        (work_one (lookup_dns 0) (picks 0) a.queue a)

  work_one-less :
      (lookup_dns : Bytes → Option Bytes) (i : ℕ) (queue : List IpResolv) (a : Resolver S) (n : ℕ)
      → a.queue ≡ queue
      → all_left config queue ≤ suc n
      → all_left config (work_one lookup_dns i queue a).queue ≤ n
  work_one-less lookup_dns i [] a n e h = rw e (omega arith)
  work_one-less lookup_dns i (x ∷ xs) a n e h =
      let (front, rip, back) = pull i x xs in
      let s : Step a (after a front back (look_up lookup_dns a.store rip)) =
        takes lookup_dns front rip back (e ∙ pull_lem i x xs) refl in
      let less =
        subst
          (λ q.
            all_left config (after a front back (look_up lookup_dns a.store rip)).queue
            < all_left config q)
          e (Step-Shrinks a _ s).0 in
      omega (arith, less)

  -- Whatever state the workers and the queue are in, whichever message each worker takes next, and
  -- whatever the name servers answer to each lookup: the queue is empty after as many lookups as its
  -- messages may still take, or more.
  pub run-drains :
      (lookup_dns : ℕ → Bytes → Option Bytes) (picks : ℕ → ℕ) (n : ℕ) (a : Resolver S)
      → all_left config a.queue ≤ n
      → (work lookup_dns picks n a).queue ≡ []
  unfolding work
  run-drains lookup_dns picks zero a h = none_left a.queue h
    where
      none_left : (queue : List IpResolv) → all_left config queue ≤ 0 → queue ≡ []
      none_left [] h = refl
      none_left (x ∷ xs) h = absurd (omega arith)
  run-drains lookup_dns picks (suc n) a h =
      run-drains (λ i. lookup_dns (i + 1)) (λ i. picks (i + 1)) n _
        (work_one-less (lookup_dns 0) (picks 0) a.queue a n refl h)
