-- ===== src/LogReplay.antt =====
-- logreplay.go: the requests that the lines of a log file stand for, in the first pass, which gives
-- them times in the span that the windows observe; the passes behind it, which do not end, give them
-- the time of sending (LogReplay.Later). Parameters: the fields that github.com/satyrius/gonx reads from a line (one
-- that is not there is none, and its value is the empty text), and the regular expressions, url.Parse
-- and the text of some bytes (Texts). log.Fatal ends the program, and so does the division by the
-- number of lines of an empty file.
pub mod Times
pub mod Later
pub mod Passes
pub mod Tests
use mathlib.Core.Option
use botex.Prelude.{
  ℕ, zero, suc, ◌+◌, ◌-◌, ◌*◌, ◌/◌, ◌≡◌, String, Option, none, some, Bool, true, false, not, ◌&&◌,
  ◌||◌, List, [], ◌∷◌, ◌++◌, ◌==◌, if◌then◌else◌, length,
}
use botex.Data.{Bytes, Request}
use botex.Matchers.{codes}
use botex.Store.Prefix.{bytes_eq}
use botex.Window.{Time, Duration}
use botex.MapWindow.{Clock}

-- The fields of a line that the replay reads.
pub record Entry : Type 0 where
  pub remote_addr : Option Bytes
  pub http_x_forwarded_for : Option Bytes
  pub request : Option Bytes
  pub host : Option Bytes
  pub http_user_agent : Option Bytes

-- `match_request` is the method and the URL of the request line; `replace` is ReplaceAllString of
-- anonymizeRegexp; `parse_url` is the path and the raw query.
pub record Texts : Type 0 where
  pub match_request : Bytes → Option (Bytes × Bytes)
  pub replace : Bytes → Bytes
  pub parse_url : Bytes → Option (Bytes × Bytes)
  pub text_of : Bytes → String

abbrev pub value_of : Option Bytes → Bytes
value_of none = []
value_of (some text) = text

abbrev pub is_missing : Option Bytes → Bool
is_missing none = true
is_missing (some text) = false

abbrev pub is_empty : Bytes → Bool
is_empty [] = true
is_empty (c ∷ cs) = false

-- `remote[0:cidx]` for the first comma, or all of it.
unfoldable pub first_host : Bytes → Bytes
first_host [] = []
first_host (c ∷ cs) = let rest = first_host cs in if c == b',' then [] else c ∷ rest

-- The address of the client, before it is cut at the comma.
unfoldable pub remote_of : Entry → Bytes → Bytes
remote_of e remote =
    let xff = value_of e.http_x_forwarded_for in
    if is_missing e.http_x_forwarded_for && not (is_empty xff) then xff else remote

abbrev or_last : Option (Bytes × Bytes) → ℕ → Bytes → Option (Bytes × Bytes)
or_last (some (before, after)) c cs = some (c ∷ before, after)
or_last none c cs = if c == b'.' then some ([], cs) else none

-- The text before and behind the last dot.
unfoldable pub at_last_dot : Bytes → Option (Bytes × Bytes)
at_last_dot [] = none
at_last_dot (c ∷ cs) = or_last (at_last_dot cs) c cs

module _ (texts : Texts) where
  abbrev pub mask_path : Bytes → Option (Bytes × Bytes) → Bytes
  mask_path path none = texts.replace path
  mask_path path (some (before, after)) = texts.replace before ++ b'.' ∷ after

  abbrev pub with_query : Bytes → Bytes → Bytes
  with_query path query = if is_empty query then path else path ++ b'?' ∷ texts.replace query

  -- `anonymizeURL`
  unfoldable pub anonymize_url : Bytes → Option Bytes
  unfolding at_last_dot
  anonymize_url url = elim (texts.parse_url url) [
    | none ↦ none
    | some (path, query) ↦ some (with_query (mask_path path (at_last_dot path)) query)
  ]

  abbrev pub url_of : Bool → Bytes → Option Bytes
  url_of anonymize url = if anonymize then anonymize_url url else some url

  unfoldable pub host_of : Bool → Entry → Bytes
  host_of anonymize e =
      let host = value_of e.host in
      if is_missing e.host || is_empty host || anonymize then codes "scw.test" else host

  -- What a line comes to: nothing, the end of the program, or a request.
  pub data Replayed (A : Type 0) : Type 0 where
    skips ends : Replayed A
    replays : Request A → Replayed A

  module _ {A : Type 0} where
    unfoldable pub with_url : Bool → Time → Entry → Bytes → Bytes → Option Bytes → Replayed A
    unfolding host_of
    with_url anonymize at e remote method none = ends
    with_url anonymize at e remote method (some url) = replays record {
      url = url;
      host = texts.text_of (host_of anonymize e);
      user_agent = texts.text_of (value_of e.http_user_agent);
      source = texts.text_of (first_host remote);
      method = texts.text_of method;
      seq = 0;
      timestamp = at;
      time = 0;
      asn = none;
      is_app = false;
    }

    unfoldable pub with_match : Bool → Time → Entry → Bytes → Option (Bytes × Bytes) → Replayed A
    unfolding with_url
    with_match anonymize at e remote none = skips
    with_match anonymize at e remote (some (method, url)) =
        with_url anonymize at e remote method (url_of anonymize url)

    unfoldable pub with_request : Bool → Time → Entry → Bytes → Option Bytes → Replayed A
    unfolding with_match
    with_request anonymize at e remote none = skips
    with_request anonymize at e remote (some line) =
        if is_empty remote
        then skips
        else with_match anonymize at e remote (texts.match_request line)

    unfoldable pub with_remote : Bool → Time → Entry → Option Bytes → Replayed A
    unfolding with_request remote_of
    with_remote anonymize at e none = skips
    with_remote anonymize at e (some remote) =
        with_request anonymize at e (remote_of e remote) e.request

    -- The body of the loop, for a line whose fields could be read.
    unfoldable pub replay_line : Bool → Time → Entry → Replayed A
    unfolding with_remote
    replay_line anonymize at e = with_remote anonymize at e e.remote_addr

-- The requests of a pass in order, and whether it has ended the program.
pub record Pass (A : Type 0) : Type 0 where
  pub requests : List (Request A)
  pub ended : Bool

-- `timePerLine` of a file that has lines.
abbrev pub time_per_line : Duration → ℕ → Option Duration
time_per_line span zero = none
time_per_line span (suc n) = some (span / suc n)

module _ (texts : Texts) {A : Type 0} where
  abbrev pub send : Replayed texts A → Pass A → Pass A → Pass A
  send skips same later = same
  send ends same later = record { requests = []; ended = true }
  send (replays r) same later = record { requests = r ∷ later.requests; ended = later.ended }

  -- The loop of the first pass: only a line that is sent moves the time on.
  unfoldable pub replay_from : Bool → Duration → Time → List (Option Entry) → Pass A
  unfolding replay_line
  replay_from anonymize step at [] = record { requests = []; ended = false }
  replay_from anonymize step at (none ∷ lines) = replay_from anonymize step at lines
  replay_from anonymize step at (some e ∷ lines) =
      send (replay_line texts anonymize at e) (replay_from anonymize step at lines)
        (replay_from anonymize step (at + step) lines)

  -- The first pass of `LogReplay`.
  unfoldable pub first_pass : Bool → Time → Duration → ℕ → List (Option Entry) → Option (Pass A)
  unfolding replay_from
  first_pass anonymize now window_size num_windows lines =
      let span = window_size * num_windows in
      elim (time_per_line span (length lines)) [
        | none ↦ none
        | some step ↦ some (replay_from anonymize step (now - span) lines)
      ]
