-- ===== src/LogReplay/Tests.antt =====
-- A log of three lines, of which the second cannot be read.
use botex.Prelude.{
  ◌+◌, ◌-◌, ◌*◌, ◌≤◌, ◌≡◌, refl, String, Option, none, some, true, List, [], ◌∷◌, All, map, arith,
}
use botex.Data.{Bytes}
use botex.Matchers.{codes}
use botex.LogReplay.{Entry, Texts, Pass, anonymize_url, replay_line, first_pass}
use botex.LogReplay.Later.{later_pass}
use botex.LogReplay.Passes.{timeless, first_pass-Repeats}
use botex.LogReplay.Times.{first_pass-IsWithin, replay_line-same}

abbrev masked : Bytes → Bytes
masked [] = []
masked (c ∷ cs) = b'x' ∷ masked cs

abbrev texts : Texts
texts = record {
  match_request = λ line. some (codes "GET", line);
  replace = masked;
  parse_url = λ url. some (url, []);
  text_of = λ t. "text";
}

abbrev entry : Entry
entry = record {
  remote_addr = some (codes "192.0.2.1,10.0.0.1");
  http_x_forwarded_for = some (codes "192.0.2.9");
  request = some (codes "/index.html");
  host = none;
  http_user_agent = none;
}

abbrev lines : List (Option Entry)
lines = some entry ∷ none ∷ some entry ∷ []

abbrev pass_of : Option (Pass String) → Pass String
pass_of none = record { requests = []; ended = true }
pass_of (some p) = p

abbrev pass : Pass String
pass = pass_of (first_pass texts true 100 10 3 lines)

-- The extension of a URL is kept.
anonymized : anonymize_url texts (codes "ab.c.html") ≡ some (codes "xxxx.html")
unfolding anonymize_url
anonymized = refl

times : map (λ r. r.timestamp) pass.requests ≡ 70 ∷ 80 ∷ []
unfolding first_pass anonymize_url
times = refl

first_pass-IsWithin_example :
    All (λ r. (100 - 10 * 3 ≤ r.timestamp) × (r.timestamp ≤ 100)) pass.requests
unfolding first_pass anonymize_url
first_pass-IsWithin_example =
    first_pass-IsWithin texts String true 100 10 3 lines pass (omega arith) refl

replay_line-same_run :
    replay_line texts {A = String} true 100 (record entry { http_x_forwarded_for = none })
    ≡ replay_line texts true 100 entry
replay_line-same_run = replay_line-same texts String true 100 entry none

first_pass-Repeats_example :
    (map timeless (later_pass texts true (λ i. 200 + i) lines).requests
      ≡ map timeless pass.requests)
    × ((later_pass texts {A = String} true (λ i. 200 + i) lines).ended ≡ pass.ended)
unfolding first_pass anonymize_url
first_pass-Repeats_example =
    first_pass-Repeats texts String true 100 10 3 (λ i. 200 + i) lines pass refl
