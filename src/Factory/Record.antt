-- ===== src/Factory/Record.antt =====
-- The record of a build's evidence (worker/src/record.ts): what is copied from the staging bucket
-- to the pool's, each file once. The signatures that stand beside the files are left out.
use omarchy_cli.Base.{
  Bool, List, Option, String, Text, [], codes, decimal, exists, first, if◌then◌else◌, length, ltb,
  none, some, suc, text_eq, update, zero, ℕ, ◌*◌, ◌++◌, ◌∷◌,
}
use omarchy_cli.Factory.Rows.{Blob, Registration}
use omarchy_cli.Factory.Journal.{is_named}

-- `recordKey`
unfoldable pub record_key : String → ℕ → Text → Text
record_key name request file =
    codes "factory/" ++ codes name ++ codes "/" ++ decimal request ++ codes "/" ++ file

abbrev pub has_key : Text → Blob → Bool
has_key key o = text_eq o.key key

-- `bucket.put`: the object takes the place of one with its key.
unfoldable pub put_object : Text → Text → List Blob → List Blob
put_object key bytes bucket =
    if exists (has_key key) bucket
    then update (has_key key) (λ o. record o { bytes = bytes }) bucket
    else record { key = key; bytes = bytes } ∷ bucket

abbrev pub evidence_files : List Text
evidence_files =
    codes "PKGBUILD"
    ∷ codes "build.log"
    ∷ codes "PKGINFO"
    ∷ codes "vet.json"
    ∷ codes "tests.log"
    ∷ codes "audit.json"
    ∷ codes "audit.md"
    ∷ []

abbrev pub failure_files : List Text
failure_files = codes "PKGBUILD" ∷ codes "build.log" ∷ codes "vet.json" ∷ codes "tests.log" ∷ []

abbrev pub audit_files : List Text
audit_files = codes "audit.json" ∷ codes "audit.md" ∷ []

evidence_limit : ℕ
evidence_limit = 8 * 1024 * 1024

-- What is done with one file: nothing where it is on the record, absent, or too long.
unfoldable pub copy_file : Text → Option Blob → List Blob → List Blob
unfolding evidence_limit put_object
copy_file key none pool = pool
copy_file key (some o) pool =
    if exists (has_key key) pool
    then pool
    else if ltb evidence_limit (length o.bytes)
    then pool
    else put_object key o.bytes pool

-- `recordEvidence`, on the two buckets; nothing without a request.
unfoldable pub record_evidence :
    List Blob → String → Option ℕ → ℕ → Text → List Text → List Blob → List Blob
unfolding copy_file record_key
record_evidence staging name none task prefix files pool = pool
record_evidence staging name (some zero) task prefix files pool = pool
record_evidence staging name (some (suc r)) task prefix [] pool = pool
record_evidence staging name (some (suc r)) task prefix (file ∷ files) pool =
    let key = record_key name (suc r) (codes "build-" ++ decimal task ++ codes "/" ++ file) in
    record_evidence staging name (some (suc r)) task prefix files
      (copy_file key (first (has_key (prefix ++ file)) staging) pool)

-- `requestOf` of worker/src/routes/factory.ts.
unfoldable pub request_of : String → List Registration → Option ℕ
request_of name regs = elim (first (is_named name) regs) [ none ↦ none | some p ↦ p.request_id ]
