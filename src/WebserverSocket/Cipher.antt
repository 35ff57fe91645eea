-- ===== src/WebserverSocket/Cipher.antt =====
-- webserversocket.go: `encrypt` and `decrypt`, AES in CBC mode over padded texts. The cipher of the
-- standard library is the parameter `Aes`. `iv` is what rand.Read has made, 16 bytes.
use botex.Prelude.{
  ◌%◌, ◌≡◌, refl, sym, ap, subst, ◌∙◌, inl, inr, Bool-cases, Option, none, some, Bool, true, false,
  ◌++◌, ltb, ◌==◌, if◌then◌else◌, length, length-append, take, drop, take-append, drop-append,
  arith,
}
use botex.Data.{Bytes}
use botex.WebserverSocket.Padding.{block_size, pad, unpad, length-pad, unpad-pad}

-- `NewCipher` accepts the key; `CryptBlocks` of a key, a vector, and a text of whole blocks.
pub record Aes : Type 0 where
  pub is_key : Bytes → Bool
  pub encrypt_cbc : Bytes → Bytes → Bytes → Bytes
  pub decrypt_cbc : Bytes → Bytes → Bytes → Bytes

-- A slice past the end panics, and so does CryptBlocks on a part of a block.
pub data Decrypted : Type 0 where
  bad_key panics : Decrypted
  plain : Bytes → Decrypted

module _ (aes : Aes) where
  unfoldable pub encrypt : Bytes → Bytes → Bytes → Option Bytes
  encrypt iv text key =
      if aes.is_key key then some (iv ++ aes.encrypt_cbc key iv (pad text)) else none

  unfoldable pub decrypt : Bytes → Bytes → Decrypted
  decrypt bytes key =
      let data' = drop block_size bytes in
      if aes.is_key key
      then (if ltb (length bytes) block_size
          then panics
          else if length data' % block_size == 0
          then plain (unpad (aes.decrypt_cbc key (take block_size bytes) data'))
          else panics)
      else bad_key

-- CBC keeps the length, and decryption undoes encryption on whole blocks.
pub record AesLaws (aes : Aes) : Type 0 where
  pub length-encrypt :
      (key iv text : Bytes)
      → length text % block_size ≡ 0
      → length (aes.encrypt_cbc key iv text) ≡ length text
  pub decrypt-encrypt :
      (key iv text : Bytes)
      → length text % block_size ≡ 0
      → aes.decrypt_cbc key iv (aes.encrypt_cbc key iv text) ≡ text

decrypt_joined :
    (aes : Aes) (iv data' key : Bytes)
    → aes.is_key key ≡ true
    → length iv ≡ block_size
    → length data' % block_size ≡ 0
    → decrypt aes (iv ++ data') key ≡ plain (unpad (aes.decrypt_cbc key iv data'))
unfolding decrypt
decrypt_joined aes iv data' key good size whole =
    let front : take block_size (iv ++ data') ≡ iv =
      ap (λ n. take n (iv ++ data')) (sym size) ∙ take-append iv data' in
    let back : drop block_size (iv ++ data') ≡ data' =
      ap (λ n. drop n (iv ++ data')) (sym size) ∙ drop-append iv data' in
    let long : ltb (length (iv ++ data')) block_size ≡ false =
      ground (arith, size, length-append iv data') in
    rw (good, long, front, back, whole) refl

-- Under a key that the cipher accepts, decrypt of what encrypt has made is the text.
pub decrypt-encrypt :
    (aes : Aes) (iv text key bytes : Bytes)
    → (laws : AesLaws aes) → length iv ≡ block_size
    → encrypt aes iv text key ≡ some bytes
    → decrypt aes bytes key ≡ plain text
unfolding encrypt
decrypt-encrypt aes iv text key bytes laws size made =
    let whole : length (pad text) % block_size ≡ 0 = (length-pad text).0 in
    elim (Bool-cases (aes.is_key key)) [
      | inr e ↦ let k : ◌≡◌ {A = Option Bytes} none (some bytes) = rw (e, encrypt) at made in cc
      | inl e ↦
          let k : ◌≡◌ {A = Option Bytes} (some (iv ++ aes.encrypt_cbc key iv (pad text)))
              (some bytes) =
            rw (e, encrypt) at made in
          let same : iv ++ aes.encrypt_cbc key iv (pad text) ≡ bytes = cc in
          subst (λ b. decrypt aes b key ≡ plain text) same
            (decrypt_joined aes iv (aes.encrypt_cbc key iv (pad text)) key e size
                (rw (laws.length-encrypt key iv (pad text) whole) whole)
              ∙ ap (λ t. plain (unpad t)) (laws.decrypt-encrypt key iv (pad text) whole)
              ∙ ap plain (unpad-pad text))
    ]
