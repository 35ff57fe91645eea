-- ===== src/WebserverSocket/Tests.antt =====
-- A client that is blocked, and the cookie that lets it pass until the instant 9. The cipher of the
-- tests keeps every text as it is, under a key of 32 bytes.
use mathlib.Core.List.{Mem}
use mathlib.Core.List.Perm
use botex.Prelude.{
  ℕ, ◌-◌, ◌≤◌, ◌≡◌, ◌↔◌, ◌⊎◌, refl, Option, none, some, Bool, true, false, List, [], ◌∷◌, ◌++◌,
  ◌==◌, length, map, replicate,
}
use botex.Data.{Bytes}
use botex.Matchers.{codes}
use botex.Store.Prefix.{bytes_eq, has_prefix, before}
use botex.Store.Badger.{badger_store, get, item_value, find_key, set_ex, after_commit, put_key}
use botex.Block.{decode_stored, write_once, write_new, set_store, or_encoding, ip_namespace}
use botex.Block.Lookup.{get_ip}
use botex.Block.Change.{block_ip, block_address}
use botex.Store.Badger.Memory.{Memory, memory_db}
use botex.Block.Tests.{registry, json, local, ip_blocked}
use botex.WebserverSocket.Padding.{block_size, pad, unpad, strip, all_are, unpad-pad, unpad_sound}
use botex.WebserverSocket.Cipher.{Aes, AesLaws, plain, encrypt, decrypt, decrypt-encrypt}
use botex.WebserverSocket.Cookie.{
  Texts, Config, split, is_among, lists_one, check_time, check_parts, check_plain, check_bytes,
  check_cookie, check_cookies, has_valid_captcha_cookie,
}
use botex.WebserverSocket.Captcha.{Solves, has_valid_captcha_cookie-Solves}
use botex.WebserverSocket.Decide.{
  passes, blocks, ServerData, decide, lookup_ip, client_ips, answer_with, decision_of,
  forwarded_ips, is_private_ip,
}
use botex.WebserverSocket.Verdicts.{decide_lem}
use botex.WebserverSocket.Serve.{Line, serve, answers_of, until_none, has_none, serve-IsAnswered}

abbrev pub aes : Aes
aes = record { is_key = λ k. length k == 32; encrypt_cbc = λ k iv t. t; decrypt_cbc = λ k iv t. t }

laws : AesLaws aes
laws = record { length-encrypt = λ k iv t h. refl; decrypt-encrypt = λ k iv t h. refl }

abbrev key : Bytes
key = replicate 32 7

abbrev vector : Bytes
vector = replicate 16 1

padded_text : unpad (pad (codes "botex")) ≡ codes "botex"
padded_text = unpad-pad (codes "botex")

unpad_sound_run :
    let bytes : Bytes = 5 ∷ 2 ∷ 2 ∷ [] in
    (unpad bytes ≡ [])
    ⊎ ((n : ℕ) × (1 ≤ n) × (n ≤ block_size) × (bytes ≡ unpad bytes ++ replicate n n))
unpad_sound_run = unpad_sound (5 ∷ 2 ∷ 2 ∷ [])

decrypt-encrypt_example : decrypt aes (vector ++ pad (codes "botex")) key ≡ plain (codes "botex")
unfolding encrypt
decrypt-encrypt_example =
    decrypt-encrypt aes vector (codes "botex") key (vector ++ pad (codes "botex")) laws refl refl

abbrev first_digit : Bytes → Option ℕ
first_digit [] = none
first_digit (c ∷ cs) = some (c - b'0')

abbrev unless_empty : Bytes → Option Bytes
unless_empty [] = none
unless_empty (c ∷ cs) = some (c ∷ cs)

abbrev pub texts : Texts
texts = record {
  trim = λ t. t;
  unescape = λ t. t;
  from_base64 = some;
  parse_time = first_digit;
  parse_ip = unless_empty;
  ip_text = λ ip. ip;
}

abbrev pub config : Config
config = record {
  cookie_name = codes "c";
  cookie_secret = codes "s";
  cookie_key = key;
  ignore_private_ips = true;
}

abbrev cookies : Bytes
cookies = codes "a=1;c=" ++ vector ++ codes "s|" ++ local ++ codes "|9" ++ replicate 8 8

has_valid_captcha_cookie-Solves_example :
    Solves aes texts config (λ i. 8) (local ∷ []) (split b';' cookies)
unfolding has_valid_captcha_cookie decrypt split pad unpad has_prefix bytes_eq
has_valid_captcha_cookie-Solves_example =
    has_valid_captcha_cookie-Solves aes texts config (λ i. 8) cookies (local ∷ []) refl

decide_lem_example :
    let ips =
      client_ips (λ n ip. has_prefix n ip) config ((192 ∷ []) ∷ []) texts local (codes "") in
    let valid = has_valid_captcha_cookie aes texts config (λ i. 10) cookies ips in
    let answer =
      decide registry json
        (λ n ip. has_prefix n ip)
        aes
        texts
        config
        ((192 ∷ []) ∷ [])
        (λ answers. answers)
        (λ i. 10)
        ip_blocked
        local
        (codes "")
        cookies in
    ((answer ≡ some blocks)
      ↔ (Mem blocks (map (lookup_ip registry json ip_blocked) ips) × (valid ≡ some false)))
    × ((answer ≡ none)
        ↔ (Mem blocks (map (lookup_ip registry json ip_blocked) ips) × (valid ≡ none)))
decide_lem_example =
    decide_lem registry json (λ n ip. has_prefix n ip) aes texts config ((192 ∷ []) ∷ [])
      (λ answers. answers) (λ i. 10) ip_blocked local (codes "") cookies
      (λ answers. Perm.refl answers)

-- At 10 the cookie has expired, at 8 it has not.
blocked_at_10 :
    decide registry json
      (λ n ip. has_prefix n ip)
      aes
      texts
      config
      ((192 ∷ []) ∷ [])
      (λ answers. answers)
      (λ i. 10)
      ip_blocked
      local
      (codes "")
      cookies
    ≡ some blocks
unfolding decide get_ip decode_stored get item_value find_key block_ip block_address write_once
    set_ex after_commit put_key bytes_eq ip_namespace has_valid_captcha_cookie has_prefix decrypt
    unpad or_encoding set_store write_new before check_bytes check_cookie check_cookies check_parts
    check_plain check_time is_among lists_one split answer_with client_ips decision_of forwarded_ips
    is_private_ip lookup_ip all_are strip
blocked_at_10 = refl

passes_at_8 :
    decide registry json
      (λ n ip. has_prefix n ip)
      aes
      texts
      config
      ((192 ∷ []) ∷ [])
      (λ answers. answers)
      (λ i. 8)
      ip_blocked
      local
      (codes "")
      cookies
    ≡ some passes
unfolding decide get_ip decode_stored get item_value find_key block_ip block_address write_once
    set_ex after_commit put_key bytes_eq ip_namespace has_valid_captcha_cookie has_prefix decrypt
    unpad or_encoding set_store write_new before check_bytes check_cookie check_cookies check_parts
    check_plain check_time is_among lists_one split answer_with client_ips decision_of forwarded_ips
    is_private_ip lookup_ip all_are strip
passes_at_8 = refl

abbrev no_data : ServerData
no_data = record {
  url = [];
  ip = [];
  xff = [];
  cookies = [];
  user_agent = "";
  host = "";
  method = "";
}

-- A line is the address of a client; an empty line is not valid.
abbrev read_line : Bytes → ServerData → ServerData × Bool
read_line [] d = (d, false)
read_line (c ∷ cs) d = (record d { ip = c ∷ cs }, true)

abbrev lines : List (Line Memory)
lines =
    record { text = local; clock = λ i. 8; block = ip_blocked; returns = true }
    ∷ record { text = []; clock = λ i. 9; block = ip_blocked; returns = true }
    ∷ record { text = local; clock = λ i. 10; block = ip_blocked; returns = false }
    ∷ []

serve-IsAnswered_example :
    let s =
      serve registry json
        (λ n ip. has_prefix n ip)
        aes
        texts
        config
        ((192 ∷ []) ∷ [])
        read_line
        (λ t. "")
        true
        (λ answers. answers)
        lines
        no_data in
    let answers =
      answers_of registry json
        (λ n ip. has_prefix n ip)
        aes
        texts
        config
        ((192 ∷ []) ∷ [])
        read_line
        (λ t. "")
        true
        (λ answers. answers)
        lines
        no_data in
    (s.answered ≡ until_none answers) × (s.panicked ≡ has_none answers)
serve-IsAnswered_example =
    serve-IsAnswered registry json (λ n ip. has_prefix n ip) aes texts config ((192 ∷ []) ∷ [])
      read_line (λ t. "") true (λ answers. answers) lines no_data
