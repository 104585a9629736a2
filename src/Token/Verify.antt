-- ===== src/Token/Verify.antt =====
-- Issuing and verifying a job token: issueJobToken and jobOf of worker/src/jobtoken.ts. The
-- runtime's HMAC and JSON are a parameter; a missing secret and malformed base64 throw.
use omarchy_cli.Base.{
  All, Bool, List, Option, Text, [], codes, false, if◌then◌else◌, leb, ltb, none, some, text_eq,
  true, ℕ, ◌&&◌, ◌*◌, ◌++◌, ◌==◌, ◌||◌, ◌∷◌, ◌≡◌, ◌≢◌,
}
use omarchy_cli.Token.Base64.{IsByte, b64url, unb64url}
use omarchy_cli.Token.Claims.{Claims}

-- What the runtime gives: HMAC-SHA256 of a text under a secret, and the JSON text of claims as
-- bytes, with its parser.
pub record Runtime : Type 0 where
  pub hmac : Text → Text → List ℕ
  pub stringify : Claims → List ℕ
  pub parse : List ℕ → Option Claims

-- What the runtime documents of them, at one secret and one token's claims: both give bytes and at
-- least one, and a JSON text parses back to what it was made of.
pub record Documented (rt : Runtime) (secret : Text) (c : Claims) : Type 0 where
  pub hmac_bytes : All IsByte (rt.hmac secret (b64url (rt.stringify c)))
  pub hmac_some : rt.hmac secret (b64url (rt.stringify c)) ≢ []
  pub stringify_bytes : All IsByte (rt.stringify c)
  pub stringify_some : rt.stringify c ≢ []
  pub parse-stringify : rt.parse (rt.stringify c) ≡ some c

-- What a call of jobOf comes to: the claims, null, or an exception.
pub data Verified : Type 0 where
  claims : Claims → Verified
  nobody : Verified
  thrown : Verified

unfoldable pub is_url_char : ℕ → Bool
is_url_char c =
    (leb b'A' c && leb c b'Z')
    || (leb b'a' c && leb c b'z')
    || (leb b'0' c && leb c b'9')
    || c == b'-'
    || c == b'_'

unfoldable pub all_url : Text → Bool
unfolding is_url_char
all_url [] = true
all_url (c ∷ s) = is_url_char c && all_url s

-- The text up to the first dot, and the text behind it.
unfoldable pub cut_dot : Text → Option (Text × Text)
cut_dot [] = none
cut_dot (c ∷ s) =
    let rest = cut_dot s in
    if c == b'.' then some ([], s) else (elim rest [ none ↦ none | some (a, b) ↦ some (c ∷ a, b) ])

unfoldable pub some_url : Text → Bool
unfolding all_url
some_url [] = false
some_url (c ∷ s) = all_url (c ∷ s)

unfoldable pub url_parts : Option (Text × Text) → Option (Text × Text)
unfolding some_url
url_parts none = none
url_parts (some (a, b)) = if some_url a && some_url b then some (a, b) else none

unfoldable pub drop_front : Text → Text → Option Text
drop_front [] s = some s
drop_front (c ∷ p) [] = none
drop_front (c ∷ p) (d ∷ s) = let rest = drop_front p s in if c == d then rest else none

-- `/^omj\.([A-Za-z0-9_-]+)\.([A-Za-z0-9_-]+)$/` on what follows `Bearer `.
unfoldable pub token_parts : Text → Option (Text × Text)
unfolding drop_front cut_dot url_parts
token_parts header = elim (drop_front (codes "Bearer ") header) [
  | none ↦ none
  | some token ↦ elim (drop_front (codes "omj.") token) [
    | none ↦ none
    | some s ↦ url_parts (cut_dot s)
  ]
]

module _ (rt : Runtime) where
  -- `issueJobToken` under a secret that is set, as the header that carries it.
  unfoldable pub issue : Text → Claims → Text
  issue secret c =
      let payload = b64url (rt.stringify c) in
      codes "Bearer " ++ codes "omj." ++ payload ++ b'.' ∷ b64url (rt.hmac secret payload)

  -- The claims of a payload whose signature verified, unless they have ended.
  unfoldable pub live_claims : Text → ℕ → Verified
  live_claims payload now = elim (unb64url payload) [
    | none ↦ Verified.nobody
    | some bytes ↦ elim (rt.parse bytes) [
      | none ↦ Verified.nobody
      | some c ↦ if c.e == 0 || ltb (c.e * 1000) now then Verified.nobody else Verified.claims c
    ]
  ]

  -- crypto.subtle.verify computes the HMAC again and compares.
  unfoldable pub verify_parts : Option Text → ℕ → Option (Text × Text) → Verified
  unfolding live_claims
  verify_parts secret now none = Verified.nobody
  verify_parts none now (some (payload, sig)) = Verified.thrown
  verify_parts (some key) now (some (payload, sig)) = elim (unb64url sig) [
    | none ↦ Verified.thrown
    | some bytes ↦
        if text_eq bytes (rt.hmac key payload) then live_claims payload now else Verified.nobody
  ]

  -- `jobOf`
  unfoldable pub job_of : Option Text → ℕ → Text → Verified
  unfolding verify_parts
  job_of secret now header = verify_parts secret now (token_parts header)
