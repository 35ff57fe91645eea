-- ===== src/WebserverSocket/Padding.antt =====
-- webserversocket.go: the padding of a text to the blocks of AES.
use mathlib.Core.List.{append-nil, append_assoc}
use botex.Prelude.{
  ℕ, zero, suc, ◌+◌, ◌-◌, ◌%◌, ◌≤◌, ◌<◌, ◌≡◌, ◌⊎◌, inl, inr, refl, sym, ap, ◌∙◌, Bool, true, ◌&&◌,
  ◌||◌, [], ◌∷◌, ◌++◌, ltb, ◌==◌, if◌then◌else◌, length, length-append, take, drop, replicate,
  length-replicate, take-append, drop-append, take-drop, length-drop, Bool-cases, arith,
}
use botex.Data.{Bytes}

-- `aes.BlockSize`
abbrev pub block_size : ℕ
block_size = 16

-- The loop of `pad`.
unfoldable pub append_bytes : ℕ → ℕ → Bytes → Bytes
append_bytes zero byte text = text
append_bytes (suc n) byte text = append_bytes n byte (text ++ byte ∷ [])

unfoldable pub pad : Bytes → Bytes
unfolding append_bytes
pad text = let padding = block_size - length text % block_size in append_bytes padding padding text

abbrev pub last_or : ℕ → Bytes → ℕ
last_or byte [] = byte
last_or byte (c ∷ cs) = last_or c cs

unfoldable pub all_are : ℕ → Bytes → Bool
all_are byte [] = true
all_are byte (c ∷ cs) = (c == byte) && all_are byte cs

-- Behind the first test of `unpad`; the loop looks at the last `padding` bytes.
unfoldable pub strip : ℕ → Bytes → Bytes
unfolding all_are
strip padding text =
    let start = length text - padding in
    if ltb (length text) padding || ltb block_size padding
    then []
    else if padding == 0
    then []
    else if all_are padding (drop start text)
    then take start text
    else []

-- `unpad`; nil is the text of no bytes.
unfoldable pub unpad : Bytes → Bytes
unfolding strip
unpad [] = []
unpad (c ∷ cs) = strip (last_or c cs) (c ∷ cs)

append_bytes_lem : (n byte : ℕ) (text : Bytes) → append_bytes n byte text ≡ text ++ replicate n byte
unfolding append_bytes
append_bytes_lem zero byte text = sym (append-nil text)
append_bytes_lem (suc n) byte text =
    append_bytes_lem n byte (text ++ byte ∷ []) ∙ append_assoc text (byte ∷ []) (replicate n byte)

all_are-replicate : (n byte : ℕ) → all_are byte (replicate n byte) ≡ true
unfolding all_are
all_are-replicate zero byte = refl
all_are-replicate (suc n) byte = ground (arith, all_are-replicate n byte)

all_are_sound :
    (byte : ℕ) (text : Bytes) → all_are byte text ≡ true → text ≡ replicate (length text) byte
unfolding all_are
all_are_sound byte [] h = refl
all_are_sound byte (c ∷ cs) h = ground (arith, all_are_sound byte cs)

last_or-replicate : (n byte : ℕ) → last_or byte (replicate n byte) ≡ byte
last_or-replicate zero byte = refl
last_or-replicate (suc n) byte = last_or-replicate n byte

last_or-append : (c : ℕ) (cs : Bytes) (n byte : ℕ) → last_or c (cs ++ replicate (suc n) byte) ≡ byte
last_or-append c [] n byte = last_or-replicate n byte
last_or-append c (d ∷ cs) n byte = last_or-append d cs n byte

-- A padded text consists of whole blocks, and is longer than the text by 1 to 16 bytes.
pub length-pad :
    (text : Bytes)
    → (length (pad text) % block_size ≡ 0)
      × (length text < length (pad text))
      × (length (pad text) ≤ length text + block_size)
unfolding pad
length-pad text =
    let p = block_size - length text % block_size in
    let grown : length (append_bytes p p text) ≡ length text + p =
      ap length (append_bytes_lem p p text)
      ∙ length-append text (replicate p p)
      ∙ ap (λ n. length text + n) (length-replicate p p) in
    (omega (arith, grown), omega (arith, grown), omega (arith, grown))

strip_append :
    (p : ℕ) (text : Bytes) → 1 ≤ p → p ≤ block_size → strip p (text ++ replicate p p) ≡ text
unfolding strip
strip_append p text low high =
    let size : length (text ++ replicate p p) ≡ length text + p =
      length-append text (replicate p p) ∙ ap (λ n. length text + n) (length-replicate p p) in
    let start : length (text ++ replicate p p) - p ≡ length text = omega (arith, size) in
    rw
      (
        start,
        drop-append text (replicate p p),
        take-append text (replicate p p),
        all_are-replicate p p,
      )
      (ground (arith, size))

unpad_append :
    (m : ℕ) (text : Bytes) → suc m ≤ block_size → unpad (text ++ replicate (suc m) (suc m)) ≡ text
unfolding unpad
unpad_append m [] high =
    ap (λ b. strip b (replicate (suc m) (suc m))) (last_or-replicate m (suc m))
    ∙ strip_append (suc m) [] (omega arith) high
unpad_append m (c ∷ cs) high =
    ap (λ b. strip b (c ∷ cs ++ replicate (suc m) (suc m))) (last_or-append c cs m (suc m))
    ∙ strip_append (suc m) (c ∷ cs) (omega arith) high

-- unpad of a padded text is the text.
pub unpad-pad : (text : Bytes) → unpad (pad text) ≡ text
unfolding pad
unpad-pad text =
    let p = block_size - length text % block_size in
    let split : p ≡ suc (p - 1) = omega arith in
    ap unpad (append_bytes_lem p p text ∙ ap (λ n. text ++ replicate n n) split)
    ∙ unpad_append (p - 1) text (omega arith)
    ∙ refl

strip-whole :
    (p : ℕ) (text : Bytes)
    → p ≤ length text
    → all_are p (drop (length text - p) text) ≡ true
    → text ≡ take (length text - p) text ++ replicate p p
strip-whole p text fits e =
    let start = length text - p in
    let size : length (drop start text) ≡ p = omega (arith, length-drop start text) in
    sym (take-drop start text)
    ∙ ap (λ t. take start text ++ t)
        (all_are_sound p (drop start text) e ∙ ap (λ n. replicate n p) size)

strip_sound :
    (p : ℕ) (text : Bytes)
    → (strip p text ≡ []) ⊎ ((1 ≤ p) × (p ≤ block_size) × (text ≡ strip p text ++ replicate p p))
unfolding strip
strip_sound p text = elim (Bool-cases (ltb (length text) p || ltb block_size p)) [
  | inl e ↦ inl (rw e refl)
  | inr e ↦ elim (Bool-cases (p == 0)) [
    | inl f ↦ inl (rw (e, f) refl)
    | inr f ↦ elim (Bool-cases (all_are p (drop (length text - p) text))) [
      | inr g ↦ inl (rw (e, f, g) refl)
      | inl g ↦ inr (
        ground (arith, f),
        ground (arith, e),
        rw (e, f, g) (strip-whole p text (ground (arith, e)) g),
      )
    ]
  ]
]

-- unpad of any bytes is no text, or is all of them but a padding of 1 to 16 bytes that each tell how
-- many they are.
pub unpad_sound :
    (bytes : Bytes)
    → (unpad bytes ≡ [])
      ⊎ ((n : ℕ) × (1 ≤ n) × (n ≤ block_size) × (bytes ≡ unpad bytes ++ replicate n n))
unfolding unpad
unpad_sound [] = inl refl
unpad_sound (c ∷ cs) = elim (strip_sound (last_or c cs) (c ∷ cs)) [
  | inl e ↦ inl e
  | inr (low, high, e) ↦ inr (last_or c cs, low, high, e)
]
