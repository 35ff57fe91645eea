-- ===== src/LogReplay/Passes.antt =====
-- The later passes over a log file against the first one.
use mathlib.Core.Option.{some-injective, none-ne-some}
use botex.Prelude.{
  ℕ, suc, ◌+◌, ◌-◌, ◌*◌, ◌/◌, ◌≡◌, refl, sym, ap, ◌∙◌, if◌then◌else◌, ◌==◌, Option, none, some,
  Bool, Bool-cases, inl, inr, List, [], ◌∷◌, map, length, subst,
}
use botex.Data.{Bytes, Request}
use botex.Window.{Time, Duration}
use botex.MapWindow.{Clock}
use botex.LogReplay.{
  Entry, Texts, Replayed, skips, ends, replays, Pass, is_empty, remote_of, url_of, with_url,
  with_match, with_request, with_remote, replay_line, send, replay_from, first_pass, first_host,
  host_of,
}
use botex.LogReplay.Later.{
  comma_index, up_to, cut, later_request_of, later_match, later_entry, later_remote, later_line,
  later_pass,
}

-- A request without the time at which it is said to have been.
abbrev pub timeless : {A : Type 0} → Request A → Request A
timeless r = record r { timestamp = 0 }

-- The two ways to cut the text at its first comma.
first_host-cut : (cs : Bytes) → first_host cs ≡ cut cs (comma_index cs)
unfolding first_host comma_index up_to
first_host-cut [] = refl
first_host-cut (c ∷ cs) = elim (Bool-cases (c == b',')) [
  | inl e ↦ rw e refl
  | inr e ↦ rw e (ap (λ ds. c ∷ ds) (first_host-cut cs) ∙ cut-suc (comma_index cs))
]
  where
    cut-suc :
        (o : Option ℕ)
        → c ∷ cut cs o ≡ cut (c ∷ cs) (elim o [ none ↦ none | some i ↦ some (suc i) ])
    cut-suc none = refl
    cut-suc (some i) = refl

module _ (texts : Texts) (A : Type 0) where
  -- A line comes to the same, except for the time.
  data IsSame (a b : Replayed texts A) : Type 0 where
    both_skip : a ≡ skips → b ≡ skips → IsSame a b
    both_end : a ≡ ends → b ≡ ends → IsSame a b
    both_send :
        (r s : Request A) → a ≡ replays r → b ≡ replays s → timeless r ≡ timeless s → IsSame a b

  with_url-IsSame :
      (anonymize : Bool) (at at' : Time) (e : Entry) (remote method : Bytes) (url : Option Bytes)
      → IsSame
          (with_url texts anonymize at e remote method url)
          (later_request_of texts anonymize at' e (cut remote (comma_index remote)) method url)
  unfolding with_url later_request_of host_of
  with_url-IsSame anonymize at at' e remote method none = both_end refl refl
  with_url-IsSame anonymize at at' e remote method (some url) =
      both_send _ _ refl refl (rw (first_host-cut remote) refl)

  with_match-IsSame :
      (anonymize : Bool) (at at' : Time) (e : Entry) (remote : Bytes)
      (found : Option (Bytes × Bytes))
      → IsSame
          (with_match texts anonymize at e remote found)
          (later_match texts anonymize at' e (cut remote (comma_index remote)) found)
  unfolding with_match later_match
  with_match-IsSame anonymize at at' e remote none = both_skip refl refl
  with_match-IsSame anonymize at at' e remote (some (method, url)) =
      with_url-IsSame anonymize at at' e remote method (url_of texts anonymize url)

  with_request-IsSame :
      (anonymize : Bool) (at at' : Time) (e : Entry) (remote : Bytes) (line : Option Bytes)
      → IsSame (with_request texts anonymize at e remote line) (
          if is_empty remote
          then skips
          else later_entry texts anonymize at' e (cut remote (comma_index remote)) line)
  unfolding with_request later_entry
  with_request-IsSame anonymize at at' e remote none = elim (Bool-cases (is_empty remote)) [
    | inl f ↦ rw f (both_skip refl refl)
    | inr f ↦ rw f (both_skip refl refl)
  ]
  with_request-IsSame anonymize at at' e remote (some line) = elim (Bool-cases (is_empty remote)) [
    | inl f ↦ rw f (both_skip refl refl)
    | inr f ↦ rw f (with_match-IsSame anonymize at at' e remote (texts.match_request line))
  ]

  with_remote-IsSame :
      (anonymize : Bool) (at at' : Time) (e : Entry) (remote : Option Bytes)
      → IsSame
          (with_remote texts anonymize at e remote)
          (later_remote texts anonymize at' e remote e.request)
  unfolding with_remote later_remote remote_of
  with_remote-IsSame anonymize at at' e none = both_skip refl refl
  with_remote-IsSame anonymize at at' e (some remote) =
      with_request-IsSame anonymize at at' e (remote_of e remote) e.request

  replay_line-IsSame :
      (anonymize : Bool) (at at' : Time) (e : Entry)
      → IsSame (replay_line texts anonymize at e) (later_line texts anonymize at' e)
  unfolding replay_line later_line
  replay_line-IsSame anonymize at at' e = with_remote-IsSame anonymize at at' e e.remote_addr

  -- The same requests but for their times, and the same end.
  abbrev pub Repeats : Pass A → Pass A → Type 0
  Repeats a b = (map timeless a.requests ≡ map timeless b.requests) × (a.ended ≡ b.ended)

  send-Repeats :
      (x y : Replayed texts A) (same later same' later' : Pass A)
      → IsSame x y
      → Repeats same same'
      → Repeats later later'
      → Repeats (send texts x same later) (send texts y same' later')
  send-Repeats x y same later same' later' (both_skip e f) p q = rw (e, f) p
  send-Repeats x y same later same' later' (both_end e f) p q = rw (e, f) (refl, refl)
  send-Repeats x y same later same' later' (both_send r s e f t) p q =
      rw (e, f) (rw (t, q.0) refl, q.1)

  later_pass-Repeats :
      (anonymize : Bool) (step at : ℕ) (clock : Clock) (lines : List (Option Entry))
      → Repeats (replay_from texts anonymize step at lines) (later_pass texts anonymize clock lines)
  unfolding replay_from later_pass
  later_pass-Repeats anonymize step at clock [] = (refl, refl)
  later_pass-Repeats anonymize step at clock (none ∷ lines) =
      later_pass-Repeats anonymize step at clock lines
  later_pass-Repeats anonymize step at clock (some e ∷ lines) =
      send-Repeats _ _ _ _ _ _ (replay_line-IsSame anonymize at (clock 0) e)
        (later_pass-Repeats anonymize step at clock lines)
        (later_pass-Repeats anonymize step (at + step) (λ i. clock (i + 1)) lines)

  -- A later pass over the lines sends the requests of the first pass in the same order, except for
  -- their times, and ends the program exactly if the first pass does.
  pub first_pass-Repeats :
      (anonymize : Bool) (now : Time) (window_size : Duration) (num_windows : ℕ) (clock : Clock)
      (lines : List (Option Entry)) (pass : Pass A)
      → first_pass texts anonymize now window_size num_windows lines ≡ some pass
      → (map timeless (later_pass texts anonymize clock lines).requests
          ≡ map timeless pass.requests)
        × ((later_pass texts {A = A} anonymize clock lines).ended ≡ pass.ended)
  unfolding first_pass
  first_pass-Repeats anonymize now size num clock [] pass h = absurd (none-ne-some pass h)
  first_pass-Repeats anonymize now size num clock (l ∷ lines) pass h =
      let span = size * num in
      let (same, end) =
        subst (λ p. Repeats p (later_pass texts anonymize clock (l ∷ lines))) (some-injective _ _ h)
          (later_pass-Repeats anonymize (span / suc (length lines)) (now - span) clock
            (l ∷ lines)) in
      (sym same, sym end)
