-- ===== src/LogReplay/Later.antt =====
-- logreplay.go: a later pass over the file. The source has the body of the loop twice; this is the
-- second.
use botex.Prelude.{
  ℕ, zero, suc, ◌+◌, Option, none, some, Bool, false, not, ◌&&◌, ◌||◌, List, [], ◌∷◌, ◌==◌,
  if◌then◌else◌,
}
use botex.Data.{Bytes}
use botex.Matchers.{codes}
use botex.Window.{Time}
use botex.MapWindow.{Clock}
use botex.LogReplay.{
  Entry, Texts, Replayed, skips, ends, replays, Pass, value_of, is_missing, is_empty, anonymize_url,
  send,
}

-- `strings.Index(remote, ",")`
unfoldable pub comma_index : Bytes → Option ℕ
comma_index [] = none
comma_index (c ∷ cs) =
    let later = comma_index cs in
    if c == b',' then some 0 else elim later [ none ↦ none | some i ↦ some (suc i) ]

-- `remote[0:cidx]`
unfoldable pub up_to : ℕ → Bytes → Bytes
up_to zero cs = []
up_to (suc i) [] = []
up_to (suc i) (c ∷ cs) = c ∷ up_to i cs

abbrev pub cut : Bytes → Option ℕ → Bytes
cut remote none = remote
cut remote (some cidx) = up_to cidx remote

module _ (texts : Texts) {A : Type 0} where
  unfoldable pub later_request_of :
      Bool → Time → Entry → Bytes → Bytes → Option Bytes → Replayed texts A
  later_request_of anonymize at e remote method none = ends
  later_request_of anonymize at e remote method (some url) =
      let host = value_of e.host in
      replays record {
        url = url;
        host =
            texts.text_of
              (if is_missing e.host || is_empty host || anonymize then codes "scw.test" else host);
        user_agent = texts.text_of (value_of e.http_user_agent);
        source = texts.text_of remote;
        method = texts.text_of method;
        seq = 0;
        timestamp = at;
        time = 0;
        asn = none;
        is_app = false;
      }

  unfoldable pub later_match :
      Bool → Time → Entry → Bytes → Option (Bytes × Bytes) → Replayed texts A
  unfolding later_request_of
  later_match anonymize at e remote none = skips
  later_match anonymize at e remote (some (method, url)) =
      later_request_of anonymize at e remote method
        (if anonymize then anonymize_url texts url else some url)

  unfoldable pub later_entry : Bool → Time → Entry → Bytes → Option Bytes → Replayed texts A
  unfolding later_match
  later_entry anonymize at e remote none = skips
  later_entry anonymize at e remote (some line) =
      later_match anonymize at e remote (texts.match_request line)

  unfoldable pub later_remote : Bool → Time → Entry → Option Bytes → Option Bytes → Replayed texts A
  unfolding later_entry comma_index
  later_remote anonymize at e none request = skips
  later_remote anonymize at e (some addr) request =
      let xff = value_of e.http_x_forwarded_for in
      let remote = if is_missing e.http_x_forwarded_for && not (is_empty xff) then xff else addr in
      if is_empty remote
      then skips
      else later_entry anonymize at e (cut remote (comma_index remote)) request

  -- The body of the loop, for a line whose fields could be read.
  unfoldable pub later_line : Bool → Time → Entry → Replayed texts A
  unfolding later_remote
  later_line anonymize at e = later_remote anonymize at e e.remote_addr e.request

  -- The loop: `clock i` is the time at which the request behind `i` others is made.
  unfoldable pub later_pass : Bool → Clock → List (Option Entry) → Pass A
  unfolding later_line
  later_pass anonymize clock [] = record { requests = []; ended = false }
  later_pass anonymize clock (none ∷ lines) = later_pass anonymize clock lines
  later_pass anonymize clock (some e ∷ lines) =
      send texts (later_line anonymize (clock 0) e) (later_pass anonymize clock lines)
        (later_pass anonymize (λ i. clock (i + 1)) lines)
