-- ===== src/WebserverSocket/Serve.antt =====
-- webserversocket.go: `serve`, the lines of one connection. Parameters: json.Unmarshal into the
-- struct that the lines share, which leaves the fields that a line does not name as they are, and the
-- text of some bytes. A line comes with the readings of the clock and the block list at that time, and
-- with whether the request handler returns, which can panic as well.
use botex.Prelude.{
  ◌+◌, ◌≡◌, not, ◌&&◌, inl, inr, refl, ap, String, Option, none, some, Bool, true, false,
  Bool-cases, List, [], ◌∷◌, if◌then◌else◌,
}
use botex.Data.{Bytes, Request}
use botex.MapWindow.{Clock}
use botex.Store.{KvStore}
use botex.Block.{Block, Registry, Codec}
use botex.WebserverSocket.Cipher.{Aes}
use botex.WebserverSocket.Cookie.{Texts, Config, split}
use botex.WebserverSocket.Decide.{Answer, passes, ServerData, decide}

pub record Line (S : Type 0) : Type 0 where
  pub text : Bytes
  pub clock : Clock
  pub block : Block S
  -- Whether the request handler returns.
  pub returns : Bool

-- What a connection has got: the answers and the requests, in order. A panic ends the program.
pub record Served (A : Type 0) : Type 0 where
  pub answered : List Answer
  pub requests : List (Request A)
  pub panicked : Bool

abbrev pub no_lines : {A : Type 0} → Served A
no_lines = record { answered = []; requests = []; panicked = false }

abbrev pub first_part : Texts → List Bytes → Bytes → Bytes
first_part texts [] ip = ip
first_part texts (part ∷ parts) ip = texts.trim part

-- The address of the request: the first of X-Forwarded-For, if there is one.
unfoldable pub source_of : Texts → ServerData → Bytes
unfolding split
source_of texts d = elim d.xff [ [] ↦ d.ip | c ∷ cs ↦ first_part texts (split b',' d.xff) d.ip ]

unfoldable pub request_of : {A : Type 0} → Texts → (Bytes → String) → Clock → ServerData → Request A
unfolding source_of
request_of texts text_of clock d = record {
  url = d.url;
  host = d.host;
  user_agent = d.user_agent;
  source = text_of (source_of texts d);
  method = d.method;
  seq = 0;
  timestamp = clock 0;
  time = clock 0;
  asn = none;
  is_app = false;
}

abbrev pub note_request : {A : Type 0} → Bool → Request A → List (Request A) → List (Request A)
note_request true r rs = r ∷ rs
note_request false r rs = rs

-- The decision, which is not taken if the request handler panics.
abbrev pub behind_handler : Bool → Bool → Option Answer → Option Answer
behind_handler true false answer = none
behind_handler true true answer = answer
behind_handler false returns answer = answer

-- The end of a round, with what the rest of the lines get.
unfoldable pub respond : {A : Type 0} → Bool → Request A → Option Answer → Served A → Served A
respond handles r none later = record {
  answered = [];
  requests = note_request handles r [];
  panicked = true;
}
respond handles r (some answer) later = record {
  answered = answer ∷ later.answered;
  requests = note_request handles r later.requests;
  panicked = later.panicked;
}

-- The answers in front of the first that is none.
abbrev pub until_none : List (Option Answer) → List Answer
until_none [] = []
until_none (none ∷ answers) = []
until_none (some answer ∷ answers) = answer ∷ until_none answers

abbrev pub has_none : List (Option Answer) → Bool
has_none [] = false
has_none (none ∷ answers) = true
has_none (some answer ∷ answers) = has_none answers

module _ {A : Type 0} where
  -- The answers and the panic of a connection are those of the lines.
  abbrev IsAnswered : List (Option Answer) → Served A → Type 0
  IsAnswered answers s = (s.answered ≡ until_none answers) × (s.panicked ≡ has_none answers)

  respond-IsAnswered :
      (handles : Bool) (r : Request A) (answer : Option Answer) (answers : List (Option Answer))
      (later : Served A)
      → IsAnswered answers later
      → IsAnswered (answer ∷ answers) (respond handles r answer later)
  unfolding respond
  respond-IsAnswered handles r none answers later h = (refl, refl)
  respond-IsAnswered handles r (some answer) answers later (a, p) = (ap (λ xs. answer ∷ xs) a, p)

behind_handler-if :
    (handles returns : Bool) (answer : Option Answer)
    → behind_handler handles returns answer ≡ (if handles && not returns then none else answer)
behind_handler-if true false answer = refl
behind_handler-if true true answer = refl
behind_handler-if false returns answer = refl

module _ {S A F C N P : Type 0} ⦃kv : KvStore S⦄ (registry : Registry A N) (codec : Codec A F C N P)
    (contains : N → Bytes → Bool) (aes : Aes) (texts : Texts) (config : Config)
    (private_blocks : List N) (unmarshal : Bytes → ServerData → ServerData × Bool)
    (text_of : Bytes → String) where
  -- The loop; `handles` says whether there is a request handler.
  unfoldable pub serve : Bool → (List Answer → List Answer) → List (Line S) → ServerData → Served A
  unfolding request_of respond
  serve handles arrive [] d = no_lines
  serve handles arrive (line ∷ lines) d =
      let (d', valid) = unmarshal line.text d in
      let later = serve handles arrive lines d' in
      if valid
      then respond handles (request_of texts text_of line.clock d')
          (behind_handler handles line.returns (
            decide registry codec contains aes texts config private_blocks arrive
              (λ i. line.clock (i + 1)) line.block d'.ip d'.xff d'.cookies))
          later
      else record later { answered = passes ∷ later.answered }

  -- What a line has as its answer, whatever comes of the others: the answer `ok` for one that is
  -- not valid, and otherwise the decision, which is none if it panics or the handler before it.
  abbrev pub answer_of : Bool → (List Answer → List Answer) → Line S → ServerData → Option Answer
  answer_of handles arrive line d =
      let (d', valid) = unmarshal line.text d in
      if valid
      then if handles && not line.returns
        then none
        else decide registry codec contains aes texts config private_blocks arrive
            (λ i. line.clock (i + 1)) line.block d'.ip d'.xff d'.cookies
      else some passes

  -- All of these; each line is read into what the one before it has left.
  abbrev pub answers_of :
      Bool → (List Answer → List Answer) → List (Line S) → ServerData → List (Option Answer)
  answers_of handles arrive [] d = []
  answers_of handles arrive (line ∷ lines) d =
      answer_of handles arrive line d ∷ answers_of handles arrive lines (unmarshal line.text d).0

  -- serve: the answers are those of the lines, in order and one for each, up to the first line whose
  -- answer panics, where there is one. Then the program ends: this line and those behind it get none.
  pub serve-IsAnswered :
      (handles : Bool) (arrive : List Answer → List Answer) (lines : List (Line S)) (d : ServerData)
      → let s : Served A = serve handles arrive lines d in
        let answers = answers_of handles arrive lines d in
        (s.answered ≡ until_none answers) × (s.panicked ≡ has_none answers)
  unfolding serve respond
  serve-IsAnswered handles arrive [] d = (refl, refl)
  serve-IsAnswered handles arrive (line ∷ lines) d =
      let d' = (unmarshal line.text d).0 in
      let (a, p) = serve-IsAnswered handles arrive lines d' in
      elim (Bool-cases (unmarshal line.text d).1) [
        | inl e ↦
            rw (e, ← behind_handler-if handles line.returns)
              (respond-IsAnswered handles _ _ _ (serve handles arrive lines d') (a, p))
        | inr e ↦ rw e (ap (λ xs. passes ∷ xs) a, p)
      ]
