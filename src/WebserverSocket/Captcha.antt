-- ===== src/WebserverSocket/Captcha.antt =====
-- Which cookies let a blocked client pass.
use mathlib.Core.Option.{some-injective}
use botex.Prelude.{
  ◌+◌, ◌≤◌, ◌≡◌, ◌≢◌, ◌⊎◌, inl, inr, refl, ap, subst, ◌∙◌, Option, none, some, Bool, true, false,
  List, [], ◌∷◌, ◌++◌, arith, ltb, ◌==◌, Bool-cases, length,
}
use botex.Data.{Bytes}
use botex.MapWindow.{Clock}
use botex.Window.{Time}
use botex.Store.Prefix.{bytes_eq, bytes_eq_iff, has_prefix}
use botex.WebserverSocket.Cipher.{Aes, Decrypted, bad_key, panics, plain, decrypt}
use botex.WebserverSocket.Cookie.{
  Texts, Config, Round, goes_on, ends, answers, split, before_sep, behind_sep, lists_one,
  check_time, check_parts, check_plain, check_bytes, check_cookie, check_cookies,
  has_valid_captcha_cookie,
}

Round-cases : (r : Round) → (r ≡ goes_on) ⊎ ((r ≡ ends) ⊎ ((b : Bool) × (r ≡ answers b)))
Round-cases goes_on = inl refl
Round-cases ends = inr (inl refl)
Round-cases (answers b) = inr (inr (b, refl))

module _ (aes : Aes) (texts : Texts) (config : Config) where
  -- The three parts of a text: the secret, addresses of which one is the client's, and an instant
  -- that has not passed.
  abbrev pub HasGrant : Time → List Bytes → List Bytes → Type 0
  HasGrant now ips parts =
      (addresses : Bytes) × (stamp : Bytes) × (time : Time) × (parts
        ≡ config.cookie_secret ∷ addresses ∷ stamp ∷ [])
      × (texts.parse_time stamp ≡ some time)
      × (now ≤ time)
      × (lists_one aes texts config ips (split b',' addresses) ≡ true)

  -- The value of a cookie is the base64 encoding of an encrypted text with such parts.
  abbrev pub HasValue : Time → List Bytes → Bytes → Type 0
  HasValue now ips value =
      (bytes : Bytes) × (text : Bytes) × (texts.from_base64 (texts.unescape value) ≡ some bytes)
      × (decrypt aes bytes config.cookie_key ≡ plain text)
      × HasGrant now ips (split b'|' text)

  abbrev pub IsSolved : Time → List Bytes → Bytes → Type 0
  IsSolved now ips cookie =
      (before_sep b'=' (texts.trim cookie) ≡ config.cookie_name)
      × ((length config.cookie_key ≢ 32) ⊎ HasValue now ips (behind_sep b'=' (texts.trim cookie)))

  check_time-grants :
      (now : Time) (ips : List Bytes) (addresses stamp : Bytes) (parsed : Option Time)
      → texts.parse_time stamp ≡ parsed
      → check_time aes texts config now ips addresses parsed ≡ answers true
      → HasGrant now ips (config.cookie_secret ∷ addresses ∷ stamp ∷ [])
  unfolding check_time
  check_time-grants now ips addresses stamp none p h = absurd (cc)
  check_time-grants now ips addresses stamp (some time) p h = elim (Bool-cases (ltb time now)) [
    | inl e ↦ let k : answers false ≡ answers true = rw e at h in absurd (cc)
    | inr e ↦ elim (Bool-cases (lists_one aes texts config ips (split b',' addresses))) [
      | inl f ↦ (addresses, stamp, time, refl, p, ground (arith, e), f)
      | inr f ↦ let k : goes_on ≡ answers true = rw (e, f) at h in absurd (cc)
    ]
  ]

  check_parts-grants :
      (now : Time) (ips : List Bytes) (parts : List Bytes)
      → check_parts aes texts config now ips parts ≡ answers true
      → HasGrant now ips parts
  unfolding check_parts
  check_parts-grants now ips [] h = absurd (cc)
  check_parts-grants now ips (a ∷ []) h = absurd (cc)
  check_parts-grants now ips (a ∷ b ∷ []) h = absurd (cc)
  check_parts-grants now ips (a ∷ b ∷ c ∷ d ∷ rest) h = absurd (cc)
  check_parts-grants now ips (secret ∷ addresses ∷ stamp ∷ []) h =
      elim (Bool-cases (bytes_eq secret config.cookie_secret)) [
        | inr e ↦ let k : answers false ≡ answers true = rw e at h in absurd (cc)
        | inl e ↦
            let same : secret ≡ config.cookie_secret =
              (bytes_eq_iff secret config.cookie_secret).0 e in
            rw same (check_time-grants now ips addresses stamp _ refl (rw e at h))
      ]

  check_plain-grants :
      (now : Time) (ips : List Bytes) (d : Decrypted)
      → check_plain aes texts config now ips d ≡ answers true
      → (text : Bytes) × (d ≡ plain text) × HasGrant now ips (split b'|' text)
  unfolding check_plain
  check_plain-grants now ips bad_key h = absurd (cc)
  check_plain-grants now ips panics h = absurd (cc)
  check_plain-grants now ips (plain text) h =
      (text, refl, check_parts-grants now ips (split b'|' text) h)

  check_bytes-grants :
      (now : Time) (ips : List Bytes) (value : Bytes) (bin : Option Bytes)
      → texts.from_base64 (texts.unescape value) ≡ bin
      → check_bytes aes texts config now ips bin ≡ answers true
      → HasValue now ips value
  unfolding check_bytes
  check_bytes-grants now ips value none e h = absurd (cc)
  check_bytes-grants now ips value (some bytes) e h =
      let (text, f, grant) = check_plain-grants now ips (decrypt aes bytes config.cookie_key) h in
      (bytes, text, e, f, grant)

  check_cookie-IsSolved :
      (now : Time) (ips : List Bytes) (cookie : Bytes)
      → check_cookie aes texts config now ips cookie ≡ answers true
      → IsSolved now ips cookie
  unfolding check_cookie
  check_cookie-IsSolved now ips cookie h =
      elim (Bool-cases (has_prefix (config.cookie_name ++ b'=' ∷ []) (texts.trim cookie))) [
        | inr e ↦ let k : goes_on ≡ answers true = rw (e, check_cookie) at h in absurd (cc)
        | inl e ↦
            elim (Bool-cases (bytes_eq (before_sep b'=' (texts.trim cookie)) config.cookie_name)) [
              | inr f ↦
                  let k : goes_on ≡ answers true = rw f at (rw (e, check_cookie) at h) in
                  absurd (cc)
              | inl f ↦
                  let named =
                    (bytes_eq_iff (before_sep b'=' (texts.trim cookie)) config.cookie_name).0 f in
                  elim (Bool-cases (length config.cookie_key == 32)) [
                    | inr g ↦ (named, inl (λ size. absurd (ground (arith, g, size))))
                    | inl g ↦ (
                      named,
                      inr (
                          check_bytes-grants now ips (behind_sep b'=' (texts.trim cookie)) _ refl
                            (rw g at (rw f at (rw (e, check_cookie) at h)))),
                    )
                  ]
            ]
      ]

  -- The first cookie that decides.
  abbrev pub Solves : Clock → List Bytes → List Bytes → Type 0
  Solves clock ips cookies =
      (front : List Bytes) × (cookie : Bytes) × (back : List Bytes) × (cookies
        ≡ front ++ cookie ∷ back)
      × IsSolved (clock (length front)) ips cookie

  check_cookies-Solves :
      (clock : Clock) (ips cookies : List Bytes)
      → check_cookies aes texts config clock ips cookies ≡ some true
      → Solves clock ips cookies
  unfolding check_cookies
  check_cookies-Solves clock ips [] h = absurd (cc)
  check_cookies-Solves clock ips (cookie ∷ cookies) h =
      elim (Round-cases (check_cookie aes texts config (clock 0) ips cookie)) [
        | inl e ↦
            let (front, solved, back, whole, value) =
              check_cookies-Solves (λ i. clock (i + 1)) ips cookies (rw (e, check_cookies) at h) in
            (
              cookie ∷ front,
              solved,
              back,
              ap (◌∷◌ cookie) whole,
              subst (λ n. IsSolved (clock n) ips solved) (omega arith) value,
            )
        | inr (inl e) ↦
            let k : ◌≡◌ {A = Option Bool} none (some true) = rw (e, check_cookies) at h in
            absurd (cc)
        | inr (inr (b, e)) ↦
            let k : ◌≡◌ {A = Option Bool} (some b) (some true) = rw (e, check_cookies) at h in
            (
              [],
              cookie,
              cookies,
              refl,
              check_cookie-IsSolved (clock 0) ips cookie (e ∙ ap answers (some-injective _ _ k)),
            )
      ]

  -- Where hasValidCaptchaCookie is true, some cookie has the configured name, and either the key
  -- does not have 32 bytes, or the decrypted cookie holds the secret, one of the client's addresses
  -- and an instant that had not passed when the cookie was tested.
  pub has_valid_captcha_cookie-Solves :
      (clock : Clock) (cookies : Bytes) (ips : List Bytes)
      → has_valid_captcha_cookie aes texts config clock cookies ips ≡ some true
      → Solves clock ips (split b';' cookies)
  unfolding has_valid_captcha_cookie
  has_valid_captcha_cookie-Solves clock cookies ips h =
      check_cookies-Solves clock ips (split b';' cookies) h
