-- ===== src/LogReplay/Times.antt =====
-- When and from whom the replayed requests are.
use mathlib.Core.Option.{some-injective, none-ne-some}
use native.Mathlib.Nat.{div-mul-le_self}
use botex.Prelude.{
  ℕ, suc, ◌+◌, ◌-◌, ◌*◌, ◌/◌, ◌≤◌, ◌≡◌, ◌⊎◌, inl, inr, refl, ap, sym, subst, ◌∙◌, Option, none,
  some, Bool, Bool-cases, List, [], ◌∷◌, arith, if◌then◌else◌, length, All,
}
use botex.Data.{Bytes, Request}
use botex.Window.{Time, Duration}
use botex.LogReplay.{
  Entry, Texts, Replayed, skips, ends, replays, Pass, is_empty, remote_of, url_of, host_of,
  with_url, with_match, with_request, with_remote, replay_line, send, replay_from, first_pass,
}

-- The address in http_x_forwarded_for is never used: a field that is missing is empty.
remote_of-same : (e : Entry) (remote : Bytes) → remote_of e remote ≡ remote
unfolding remote_of
remote_of-same e remote = elim (Field-cases e.http_x_forwarded_for) [
  | inl f ↦ rw f refl
  | inr (text, f) ↦ rw f refl
]
  where
    Field-cases : (o : Option Bytes) → (o ≡ none) ⊎ ((t : Bytes) × (o ≡ some t))
    Field-cases none = inl refl
    Field-cases (some t) = inr (t, refl)

module _ (texts : Texts) (A : Type 0) where
  -- A request that is sent has the time of the line.
  abbrev pub IsAt : Time → Replayed texts A → Type 0
  IsAt at skips = Unit
  IsAt at ends = Unit
  IsAt at (replays r) = r.timestamp ≡ at

  with_url-IsAt :
      (anonymize : Bool) (at : Time) (e : Entry) (remote method : Bytes) (url : Option Bytes)
      → IsAt at (with_url texts anonymize at e remote method url)
  unfolding with_url
  with_url-IsAt anonymize at e remote method none = tt
  with_url-IsAt anonymize at e remote method (some url) = refl

  with_match-IsAt :
      (anonymize : Bool) (at : Time) (e : Entry) (remote : Bytes) (found : Option (Bytes × Bytes))
      → IsAt at (with_match texts anonymize at e remote found)
  unfolding with_match
  with_match-IsAt anonymize at e remote none = tt
  with_match-IsAt anonymize at e remote (some (method, url)) =
      with_url-IsAt anonymize at e remote method (url_of texts anonymize url)

  with_request-IsAt :
      (anonymize : Bool) (at : Time) (e : Entry) (remote : Bytes) (line : Option Bytes)
      → IsAt at (with_request texts anonymize at e remote line)
  unfolding with_request
  with_request-IsAt anonymize at e remote none = tt
  with_request-IsAt anonymize at e remote (some line) = elim (Bool-cases (is_empty remote)) [
    | inl f ↦ rw f tt
    | inr f ↦ rw f (with_match-IsAt anonymize at e remote (texts.match_request line))
  ]

  with_remote-IsAt :
      (anonymize : Bool) (at : Time) (e : Entry) (remote : Option Bytes)
      → IsAt at (with_remote texts anonymize at e remote)
  unfolding with_remote
  with_remote-IsAt anonymize at e none = tt
  with_remote-IsAt anonymize at e (some remote) =
      with_request-IsAt anonymize at e (remote_of e remote) e.request

  abbrev pub IsWithin : Time → Time → Request A → Type 0
  IsWithin from to r = (from ≤ r.timestamp) × (r.timestamp ≤ to)

  send-IsWithin :
      (from to at : Time) (result : Replayed texts A) (same later : Pass A)
      → IsAt at result
      → from ≤ at
      → at ≤ to
      → All (IsWithin from to) same.requests
      → All (IsWithin from to) later.requests
      → All (IsWithin from to) (send texts result same later).requests
  send-IsWithin from to at skips same later e low high all rest = all
  send-IsWithin from to at ends same later e low high all rest = tt
  send-IsWithin from to at (replays r) same later e low high all rest =
      ((omega (arith, e), omega (arith, e)), rest)

  replay_from-IsWithin :
      (anonymize : Bool) (step from to at : Time) (lines : List (Option Entry))
      → from ≤ at
      → at + step * length lines ≤ to
      → All (IsWithin from to) (replay_from texts anonymize step at lines).requests
  unfolding replay_from replay_line
  replay_from-IsWithin anonymize step from to at [] low high = tt
  replay_from-IsWithin anonymize step from to at (none ∷ lines) low high =
      replay_from-IsWithin anonymize step from to at lines low (grind (arith, high))
  replay_from-IsWithin anonymize step from to at (some e ∷ lines) low high =
      send-IsWithin from to at (replay_line texts anonymize at e) _ _
        (with_remote-IsAt anonymize at e e.remote_addr) low (grind (arith, high))
        (replay_from-IsWithin anonymize step from to at lines low (grind (arith, high)))
        (replay_from-IsWithin anonymize step from to (at + step) lines (omega (arith, low))
          (grind (arith, high)))

  -- The requests of the first pass lie in the span that the windows observe, if the clock shows at
  -- least that span: not before it, and not in the future.
  pub first_pass-IsWithin :
      (anonymize : Bool) (now : Time) (window_size : Duration) (num_windows : ℕ)
      (lines : List (Option Entry)) (pass : Pass A)
      → window_size * num_windows ≤ now
      → first_pass texts anonymize now window_size num_windows lines ≡ some pass
      → All
          (λ r. (now - window_size * num_windows ≤ r.timestamp) × (r.timestamp ≤ now))
          pass.requests
  unfolding first_pass
  first_pass-IsWithin anonymize now window_size num_windows [] pass old h =
      absurd (none-ne-some pass h)
  first_pass-IsWithin anonymize now window_size num_windows (l ∷ lines) pass old h =
      let span = window_size * num_windows in
      let n = suc (length lines) in
      subst (λ (p : Pass A). All (IsWithin (now - span) now) p.requests) (some-injective _ _ h)
        (replay_from-IsWithin anonymize (span / n) (now - span) now (now - span) (l ∷ lines)
          (omega arith) (omega (arith, old, div-mul-le_self span n)))

  with_url-same :
      (anonymize : Bool) (at : Time) (e : Entry) (xff : Option Bytes) (remote method : Bytes)
      (url : Option Bytes)
      → with_url texts {A = A} anonymize at
          (record e { http_x_forwarded_for = xff })
          remote
          method
          url
        ≡ with_url texts anonymize at e remote method url
  unfolding with_url host_of
  with_url-same anonymize at e xff remote method none = refl
  with_url-same anonymize at e xff remote method (some url) = refl

  with_match-same :
      (anonymize : Bool) (at : Time) (e : Entry) (xff : Option Bytes) (remote : Bytes)
      (found : Option (Bytes × Bytes))
      → with_match texts {A = A} anonymize at (record e { http_x_forwarded_for = xff }) remote found
        ≡ with_match texts anonymize at e remote found
  unfolding with_match
  with_match-same anonymize at e xff remote none = refl
  with_match-same anonymize at e xff remote (some (method, url)) =
      with_url-same anonymize at e xff remote method (url_of texts anonymize url)

  with_request-same :
      (anonymize : Bool) (at : Time) (e : Entry) (xff : Option Bytes) (remote : Bytes)
      (line : Option Bytes)
      → with_request texts {A = A} anonymize at
          (record e { http_x_forwarded_for = xff })
          remote
          line
        ≡ with_request texts anonymize at e remote line
  unfolding with_request
  with_request-same anonymize at e xff remote none = refl
  with_request-same anonymize at e xff remote (some line) =
      ap (λ r. if is_empty remote then skips else r)
        (with_match-same anonymize at e xff remote (texts.match_request line))

  with_remote-same :
      (anonymize : Bool) (at : Time) (e : Entry) (xff remote : Option Bytes)
      → with_remote texts {A = A} anonymize at (record e { http_x_forwarded_for = xff }) remote
        ≡ with_remote texts anonymize at e remote
  unfolding with_remote
  with_remote-same anonymize at e xff none = refl
  with_remote-same anonymize at e xff (some remote) =
      ap
        (λ r.
          with_request texts {A = A} anonymize at (record e { http_x_forwarded_for = xff }) r
            e.request)
        (remote_of-same (record e { http_x_forwarded_for = xff }) remote)
      ∙ with_request-same anonymize at e xff remote e.request
      ∙ ap (λ r. with_request texts {A = A} anonymize at e r e.request)
          (sym (remote_of-same e remote))

  -- What a line comes to does not depend on its http_x_forwarded_for.
  pub replay_line-same :
      (anonymize : Bool) (at : Time) (e : Entry) (xff : Option Bytes)
      → replay_line texts {A = A} anonymize at (record e { http_x_forwarded_for = xff })
        ≡ replay_line texts anonymize at e
  unfolding replay_line
  replay_line-same anonymize at e xff = with_remote-same anonymize at e xff e.remote_addr
