-- ===== src/WebserverSocket/Cookie.antt =====
-- webserversocket.go: the test for the cookie of a solved captcha. Parameters: what the standard
-- library makes of a text (Texts): TrimSpace, the first result of QueryUnescape, whose error is only
-- logged, DecodeString of base64, ParseInt with time.Unix, and ParseIP and String of net.IP.
use botex.Prelude.{
  ℕ, ◌+◌, Option, none, some, Bool, true, false, ◌||◌, List, [], ◌∷◌, ◌++◌, ltb, ◌==◌,
  if◌then◌else◌, length, map,
}
use botex.Data.{Bytes}
use botex.MapWindow.{Clock}
use botex.Window.{Time}
use botex.Store.Prefix.{bytes_eq, has_prefix}
use botex.WebserverSocket.Cipher.{Aes, Decrypted, bad_key, panics, plain, decrypt}

pub record Texts : Type 0 where
  pub trim : Bytes → Bytes
  pub unescape : Bytes → Bytes
  pub from_base64 : Bytes → Option Bytes
  pub parse_time : Bytes → Option Time
  pub parse_ip : Bytes → Option Bytes
  pub ip_text : Bytes → Bytes

-- The fields of config.Config that the server reads, and the decoded key.
pub record Config : Type 0 where
  pub cookie_name : Bytes
  pub cookie_secret : Bytes
  pub cookie_key : Bytes
  pub ignore_private_ips : Bool

-- What one round of the loop over the cookies ends with: the next round, an answer, or a panic.
pub data Round : Type 0 where
  goes_on ends : Round
  answers : Bool → Round

abbrev push_byte : ℕ → List Bytes → List Bytes
push_byte c [] = (c ∷ []) ∷ []
push_byte c (p ∷ ps) = (c ∷ p) ∷ ps

-- `strings.Split` at a byte.
unfoldable pub split : ℕ → Bytes → List Bytes
split sep [] = [] ∷ []
split sep (c ∷ cs) = let rest = split sep cs in if c == sep then [] ∷ rest else push_byte c rest

-- `text[0:idx]` and `text[idx+1:]` for the index of the first `sep`.
abbrev pub before_sep : ℕ → Bytes → Bytes
before_sep sep [] = []
before_sep sep (c ∷ cs) = let rest = before_sep sep cs in if c == sep then [] else c ∷ rest

abbrev pub behind_sep : ℕ → Bytes → Bytes
behind_sep sep [] = []
behind_sep sep (c ∷ cs) = let rest = behind_sep sep cs in if c == sep then cs else rest

unfoldable pub is_among : Bytes → List Bytes → Bool
is_among text [] = false
is_among text (t ∷ ts) = bytes_eq t text || is_among text ts

module _ (aes : Aes) (texts : Texts) (config : Config) where
  -- The loop over the addresses of the cookie.
  unfoldable pub lists_one : List Bytes → List Bytes → Bool
  unfolding is_among
  lists_one ips [] = false
  lists_one ips (ip ∷ rest) = is_among (texts.trim ip) (map texts.ip_text ips) || lists_one ips rest

  unfoldable pub check_time : Time → List Bytes → Bytes → Option Time → Round
  unfolding lists_one split
  check_time now ips addresses none = answers false
  check_time now ips addresses (some time) =
      if ltb time now
      then answers false
      else if lists_one ips (split b',' addresses)
      then answers true
      else goes_on

  -- `cookieParts`
  unfoldable pub check_parts : Time → List Bytes → List Bytes → Round
  unfolding check_time
  check_parts now ips (secret ∷ addresses ∷ stamp ∷ []) =
      if bytes_eq secret config.cookie_secret
      then check_time now ips addresses (texts.parse_time stamp)
      else answers false
  check_parts now ips parts = answers false

  unfoldable pub check_plain : Time → List Bytes → Decrypted → Round
  unfolding check_parts split
  check_plain now ips bad_key = answers false
  check_plain now ips panics = ends
  check_plain now ips (plain text) = check_parts now ips (split b'|' text)

  unfoldable pub check_bytes : Time → List Bytes → Option Bytes → Round
  unfolding check_plain
  check_bytes now ips none = answers false
  check_bytes now ips (some bytes) = check_plain now ips (decrypt aes bytes config.cookie_key)

  -- The body of the loop.
  unfoldable pub check_cookie : Time → List Bytes → Bytes → Round
  unfolding check_bytes
  check_cookie now ips cookie =
      let trimmed = texts.trim cookie in
      if has_prefix (config.cookie_name ++ b'=' ∷ []) trimmed
      then (if bytes_eq (before_sep b'=' trimmed) config.cookie_name
          then (if length config.cookie_key == 32
              then check_bytes now ips
                  (texts.from_base64 (texts.unescape (behind_sep b'=' trimmed)))
              else answers true)
          else goes_on)
      else goes_on

  unfoldable pub check_cookies : Clock → List Bytes → List Bytes → Option Bool
  unfolding check_cookie
  check_cookies clock ips [] = some false
  check_cookies clock ips (cookie ∷ cookies) =
      let rest = check_cookies (λ i. clock (i + 1)) ips cookies in
      elim (check_cookie (clock 0) ips cookie) [ goes_on ↦ rest | ends ↦ none | answers b ↦ some b ]

  -- `hasValidCaptchaCookie`; none where it panics.
  unfoldable pub has_valid_captcha_cookie : Clock → Bytes → List Bytes → Option Bool
  unfolding check_cookies split
  has_valid_captcha_cookie clock cookies ips = check_cookies clock ips (split b';' cookies)
