-- ===== src/Token/RoundTrip.antt =====
-- A token that was issued verifies until it ends, and one that verifies was made with the secret
-- (worker/src/jobtoken.ts).
use omarchy_cli.Base.{
  All, Bool-cases, List, Option, Option-cases, Text, [], ap, arith, inl, inr, none, refl, some,
  text_eq, text_eq-eq, text_eq_refl, true, ℕ, ◌%◌, ◌*◌, ◌++◌, ◌+◌, ◌/◌, ◌<◌, ◌∙◌, ◌∷◌, ◌≡◌, ◌≢◌,
  ◌≤◌,
}
use omarchy_cli.Token.Base64.{IsByte, b64url, letter, unb64url, unb64url-b64url}
use omarchy_cli.Token.Claims.{Claims}
use omarchy_cli.Token.Verify.{
  Runtime, Verified, all_url, cut_dot, drop_front, is_url_char, issue, job_of, live_claims,
  some_url, token_parts, url_parts, verify_parts, Documented,
}

letter-is_url : (n : ℕ) → n < 64 → is_url_char (letter n) ≡ true
unfolding letter is_url_char
letter-is_url n h = ground arith

b64url-all_url : (bs : List ℕ) → All IsByte bs → all_url (b64url bs) ≡ true
unfolding b64url all_url
b64url-all_url [] h = refl
b64url-all_url (a ∷ []) h =
    rw (letter-is_url (a / 4) (omega arith), letter-is_url (a % 4 * 16) (omega arith))
b64url-all_url (a ∷ b ∷ []) h = rw (
  letter-is_url (a / 4) (omega arith),
  letter-is_url (a % 4 * 16 + b / 16) (omega arith),
  letter-is_url (b % 16 * 4) (omega arith),
)
b64url-all_url (a ∷ b ∷ c ∷ rest) h =
    rw
      (
        letter-is_url (a / 4) (omega arith),
        letter-is_url (a % 4 * 16 + b / 16) (omega arith),
        letter-is_url (b % 16 * 4 + c / 64) (omega arith),
        letter-is_url (c % 64) (omega arith),
      )
      (b64url-all_url rest h.1.1.1)

b64url-some_url : (bs : List ℕ) → All IsByte bs → bs ≢ [] → some_url (b64url bs) ≡ true
unfolding some_url
b64url-some_url [] h n = absurd (n refl)
b64url-some_url (a ∷ []) h n = unfold b64url in b64url-all_url (a ∷ []) h
b64url-some_url (a ∷ b ∷ []) h n = unfold b64url in b64url-all_url (a ∷ b ∷ []) h
b64url-some_url (a ∷ b ∷ c ∷ rest) h n = unfold b64url in b64url-all_url (a ∷ b ∷ c ∷ rest) h

cut_dot-append : (s t : Text) → all_url s ≡ true → cut_dot (s ++ b'.' ∷ t) ≡ some (s, t)
unfolding cut_dot all_url is_url_char
cut_dot-append [] t h = refl
cut_dot-append (c ∷ s) t h = ground (arith, cut_dot-append s t)

module _ (rt : Runtime) (secret : Text) where
  payload : Claims → Text
  payload c = b64url (rt.stringify c)

  signature : Claims → Text
  unfolding payload
  signature c = b64url (rt.hmac secret (payload c))

  token_parts-issue :
      (c : Claims)
      → Documented rt secret c
      → token_parts (issue rt secret c) ≡ some (payload c, signature c)
  unfolding token_parts issue url_parts payload signature drop_front
  token_parts-issue c d =
      let url = b64url-all_url (rt.stringify c) d.stringify_bytes in
      let first_part = b64url-some_url (rt.stringify c) d.stringify_bytes d.stringify_some in
      let second_part = b64url-some_url (rt.hmac secret (payload c)) d.hmac_bytes d.hmac_some in
      let both : url_parts (some (payload c, signature c)) ≡ some (payload c, signature c) =
        ground (arith, first_part, second_part) in
      ap url_parts (cut_dot-append (payload c) (signature c) url) ∙ both

  live_claims-payload :
      (c : Claims) (now : ℕ)
      → Documented rt secret c
      → c.e ≢ 0
      → now ≤ c.e * 1000
      → live_claims rt (payload c) now ≡ Verified.claims c
  unfolding live_claims payload
  live_claims-payload c now d some_end open_still =
      rw (unb64url-b64url (rt.stringify c) d.stringify_bytes, live_claims)
        (rw d.parse-stringify (ground arith))

  -- A token that the pool issued carries its claims, to whoever verifies it with the same secret,
  -- up to the end that the claims name.
  pub job_of-issue :
      (c : Claims) (now : ℕ)
      → Documented rt secret c
      → c.e ≢ 0
      → now ≤ c.e * 1000
      → job_of rt (some secret) now (issue rt secret c) ≡ Verified.claims c
  unfolding job_of verify_parts
  job_of-issue c now d some_end open_still =
      rw (token_parts-issue c d, verify_parts)
        (unfold signature in
          rw (unb64url-b64url (rt.hmac secret (payload c)) d.hmac_bytes) (
            rw (text_eq_refl (rt.hmac secret (payload c)))
              (live_claims-payload c now d some_end open_still)))

  -- What an accepted header carries: a payload, signed with the secret, whose claims have not ended.
  abbrev pub Signed : ℕ → Text → Claims → Type 0
  Signed now header c =
      (body : Text) × (sig : Text) × (bytes : List ℕ) × (token_parts header ≡ some (body, sig))
      × (unb64url sig ≡ some (rt.hmac secret body))
      × (unb64url body ≡ some bytes)
      × (rt.parse bytes ≡ some c)
      × (now ≤ c.e * 1000)

  live_claims_sound :
      (body : Text) (now : ℕ) (c : Claims)
      → live_claims rt body now ≡ Verified.claims c
      → (bytes : List ℕ) × (unb64url body ≡ some bytes)
        × (rt.parse bytes ≡ some c)
        × (now ≤ c.e * 1000)
  unfolding live_claims
  live_claims_sound body now c h = elim (Option-cases (unb64url body)) [
    | inl e ↦ absurd (ground arith)
    | inr (bytes, e) ↦ elim (Option-cases (rt.parse bytes)) [
      | inl p ↦ absurd (ground arith)
      | inr (d, p) ↦
          let same : d ≡ c = ground arith in
          (bytes, e, rw p (ap (λ (x : Claims). some x) same), ground arith)
    ]
  ]

  parts-Signed :
      (header : Text) (now : ℕ) (c : Claims) (parts : Option (Text × Text))
      → token_parts header ≡ parts
      → verify_parts rt (some secret) now parts ≡ Verified.claims c
      → Signed now header c
  unfolding verify_parts
  parts-Signed header now c none e h = absurd (cc)
  parts-Signed header now c (some (body, sig)) e h = elim (Option-cases (unb64url sig)) [
    | inl s ↦ absurd (ground arith)
    | inr (mac, s) ↦ elim (Bool-cases (text_eq mac (rt.hmac secret body))) [
      | inr m ↦ absurd (ground arith)
      | inl m ↦
          let live : live_claims rt body now ≡ Verified.claims c = ground arith in
          let (bytes, b, p, t) = live_claims_sound body now c live in
          (body, sig, bytes, e, s ∙ ap (λ (x : List ℕ). some x) (text_eq-eq mac _ m), b, p, t)
    ]
  ]

  -- A header that is accepted is a token signed with the secret, whose payload parses to the
  -- claims answered and has not ended: nobody without the secret's HMAC gets any claims.
  pub job_of-Signed :
      (header : Text) (now : ℕ) (c : Claims)
      → job_of rt (some secret) now header ≡ Verified.claims c
      → Signed now header c
  unfolding job_of
  job_of-Signed header now c h = parts-Signed header now c (token_parts header) refl h
