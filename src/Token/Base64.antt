-- ===== src/Token/Base64.antt =====
-- b64url and unb64url of worker/src/jobtoken.ts: base64 with the alphabet for URLs and without
-- padding, on bytes as numbers.
use omarchy_cli.Base.{
  All, List, Option, Text, [], arith, if◌then◌else◌, leb, ltb, none, refl, some, ℕ, ◌%◌, ◌&&◌, ◌*◌,
  ◌+◌, ◌-◌, ◌/◌, ◌<◌, ◌==◌, ◌∷◌, ◌≡◌,
}

-- The character of six bits: A-Z, a-z, 0-9, - and _.
unfoldable pub letter : ℕ → ℕ
letter n =
    if ltb n 26
    then n + b'A'
    else if ltb n 52
    then n - 26 + b'a'
    else if ltb n 62
    then n - 52 + b'0'
    else if n == 62
    then b'-'
    else b'_'

-- The six bits of a character.
sextet : ℕ → Option ℕ
sextet c =
    if leb b'A' c && leb c b'Z'
    then some (c - b'A')
    else if leb b'a' c && leb c b'z'
    then some (c - b'a' + 26)
    else if leb b'0' c && leb c b'9'
    then some (c - b'0' + 52)
    else if c == b'-'
    then some 62
    else if c == b'_'
    then some 63
    else none

unfoldable pub b64url : List ℕ → Text
unfolding letter
b64url [] = []
b64url (a ∷ []) = letter (a / 4) ∷ letter (a % 4 * 16) ∷ []
b64url (a ∷ b ∷ []) = letter (a / 4) ∷ letter (a % 4 * 16 + b / 16) ∷ letter (b % 16 * 4) ∷ []
b64url (a ∷ b ∷ c ∷ rest) =
    letter (a / 4)
    ∷ letter (a % 4 * 16 + b / 16)
    ∷ letter (b % 16 * 4 + c / 64)
    ∷ letter (c % 64)
    ∷ b64url rest

sextets : Text → Option (List ℕ)
unfolding sextet
sextets [] = some []
sextets (c ∷ s) = elim (sextet c) [
  | none ↦ none
  | some n ↦ elim (sextets s) [ none ↦ none | some ns ↦ some (n ∷ ns) ]
]

-- The bytes of the sextets: a single one left over is no encoding, and `atob` throws.
bytes_of : List ℕ → Option (List ℕ)
bytes_of [] = some []
bytes_of (p ∷ []) = none
bytes_of (p ∷ q ∷ []) = some ((p * 4 + q / 16) ∷ [])
bytes_of (p ∷ q ∷ r ∷ []) = some ((p * 4 + q / 16) ∷ (q % 16 * 16 + r / 4) ∷ [])
bytes_of (p ∷ q ∷ r ∷ s ∷ rest) = elim (bytes_of rest) [
  | none ↦ none
  | some bs ↦ some ((p * 4 + q / 16) ∷ (q % 16 * 16 + r / 4) ∷ (r % 4 * 64 + s) ∷ bs)
]

-- `unb64url`; none where `atob` throws.
unfoldable pub unb64url : Text → Option (List ℕ)
unfolding sextets bytes_of
unb64url s = elim (sextets s) [ none ↦ none | some ns ↦ bytes_of ns ]

-- A number of one byte.
abbrev pub IsByte : ℕ → Type 0
IsByte b = b < 256

sextet-letter : (n : ℕ) → n < 64 → sextet (letter n) ≡ some n
unfolding sextet letter
sextet-letter n h = ground arith

abbrev split_bytes : List ℕ → List ℕ
split_bytes [] = []
split_bytes (a ∷ []) = a / 4 ∷ a % 4 * 16 ∷ []
split_bytes (a ∷ b ∷ []) = a / 4 ∷ (a % 4 * 16 + b / 16) ∷ b % 16 * 4 ∷ []
split_bytes (a ∷ b ∷ c ∷ rest) =
    a / 4 ∷ (a % 4 * 16 + b / 16) ∷ (b % 16 * 4 + c / 64) ∷ c % 64 ∷ split_bytes rest

sextets-cons :
    (n : ℕ) (s : Text) (ns : List ℕ)
    → n < 64
    → sextets s ≡ some ns
    → sextets (letter n ∷ s) ≡ some (n ∷ ns)
unfolding sextets
sextets-cons n s ns h e = ground (arith, sextet-letter n h)

sextets-b64url : (bs : List ℕ) → All IsByte bs → sextets (b64url bs) ≡ some (split_bytes bs)
unfolding b64url
sextets-b64url [] h = unfold sextets in refl
sextets-b64url (a ∷ []) h =
    sextets-cons _ _ _ (omega arith) (sextets-cons _ _ _ (omega arith) (unfold sextets in refl))
sextets-b64url (a ∷ b ∷ []) h =
    sextets-cons _ _ _ (omega arith)
      (sextets-cons _ _ _ (omega arith) (sextets-cons _ _ _ (omega arith) (unfold sextets in refl)))
sextets-b64url (a ∷ b ∷ c ∷ rest) h = sextets-cons _ _ _ (omega arith) (
    sextets-cons _ _ _ (omega arith) (
      sextets-cons _ _ _ (omega arith)
        (sextets-cons _ _ _ (omega arith) (sextets-b64url rest h.1.1.1))))

bytes_of-split : (bs : List ℕ) → All IsByte bs → bytes_of (split_bytes bs) ≡ some bs
unfolding bytes_of
bytes_of-split [] h = refl
bytes_of-split (a ∷ []) h = ground arith
bytes_of-split (a ∷ b ∷ []) h = ground arith
bytes_of-split (a ∷ b ∷ c ∷ rest) h = ground (arith, bytes_of-split rest)

-- Decoding what was encoded gives the bytes back.
pub unb64url-b64url : (bs : List ℕ) → All IsByte bs → unb64url (b64url bs) ≡ some bs
unfolding unb64url
unb64url-b64url bs h = rw (sextets-b64url bs h, unb64url) (bytes_of-split bs h)
