-- ===== src/Checks/Tokens.antt =====
-- The token's theorems at a small runtime: claims are their task's number, and the HMAC is one
-- byte.
use omarchy_cli.Base.{
  [], arith, codes, decimal, decimal_from, exists, refl, some, starts_with, text_eq, ◌∷◌, ◌≡◌,
}
use omarchy_cli.Factory.Rows.{Kind, Trust}
use omarchy_cli.Auth.{covers, ends_star, may}
use omarchy_cli.Auth.Staging.{OwnScope, staging_build-OwnScope}
use omarchy_cli.Token.Base64.{b64url, unb64url, unb64url-b64url}
use omarchy_cli.Token.Claims.{Claims}
use omarchy_cli.Token.Scopes.{kind_scopes, scopes_for}
use omarchy_cli.Token.RoundTrip.{Signed, job_of-Signed, job_of-issue}
use omarchy_cli.Token.Verify.{Documented, Runtime, Verified, issue, job_of}

abbrev claims_7 : Claims
claims_7 = record { t = 7; k = Kind.gc; s = codes "task:7" ∷ []; e = 5; w = "studio" }

-- A runtime of one token: its JSON text is one byte, and so is every HMAC.
abbrev toy : Runtime
toy = record {
  hmac = λ secret msg. 9 ∷ [];
  stringify = λ c. 42 ∷ [];
  parse = λ bytes. some claims_7;
}

toy-Documented : Documented toy (codes "key") claims_7
toy-Documented = record {
  hmac_bytes = omega arith;
  hmac_some = λ e. cc;
  stringify_bytes = omega arith;
  stringify_some = λ e. cc;
  parse-stringify = refl;
}

job_of-issue_example :
    job_of toy (some (codes "key")) 5000 (issue toy (codes "key") claims_7)
    ≡ Verified.claims claims_7
job_of-issue_example =
    job_of-issue toy (codes "key") claims_7 5000 toy-Documented (omega arith) (omega arith)

job_of-Signed_example : Signed toy (codes "key") 5000 (issue toy (codes "key") claims_7) claims_7
job_of-Signed_example =
    job_of-Signed toy (codes "key") (issue toy (codes "key") claims_7) 5000 claims_7
      job_of-issue_example

unb64url-b64url_example : unb64url (b64url (1 ∷ 255 ∷ 3 ∷ 77 ∷ [])) ≡ some (1 ∷ 255 ∷ 3 ∷ 77 ∷ [])
unb64url-b64url_example = unb64url-b64url (1 ∷ 255 ∷ 3 ∷ 77 ∷ []) (omega arith)

staging_build-OwnScope_example : OwnScope 4 (codes "staging:4")
unfolding scopes_for kind_scopes may covers exists text_eq ends_star starts_with decimal
    decimal_from
staging_build-OwnScope_example =
    staging_build-OwnScope 4 Trust.community [] (codes "staging:4") refl refl
