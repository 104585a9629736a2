-- ===== src/Factory/Rules/Evidence.antt =====
-- The record is written once (worker/src/record.ts).
use omarchy_cli.Base.{
  Bool-cases, List, Option, String, Text, [], arith, codes, decimal, exists, false, first, inl, inr,
  none, some, subst, suc, sym, text_eq, text_eq-eq, true, zero, ℕ, ◌++◌, ◌∷◌, ◌≡◌,
}
use omarchy_cli.Factory.Rows.{Blob}
use omarchy_cli.Factory.Record.{copy_file, has_key, put_object, record_evidence, record_key}

first-exists :
    (key : Text) (pool : List Blob) (o : Blob)
    → first (has_key key) pool ≡ some o
    → exists (has_key key) pool ≡ true
unfolding first exists
first-exists key [] o e = cc
first-exists key (p ∷ ps) o e = ground (arith, first-exists key ps o)

put_object-first :
    (key other : Text) (bytes : Text) (pool : List Blob) (o : Blob)
    → exists (has_key key) pool ≡ false
    → first (has_key other) pool ≡ some o
    → first (has_key other) (put_object key bytes pool) ≡ some o
unfolding put_object first
put_object-first key other bytes pool o absent e = elim (Bool-cases (text_eq key other)) [
  | inl same ↦
      let there : exists (has_key key) pool ≡ true =
        subst (λ k. exists (has_key k) pool ≡ true) (sym (text_eq-eq key other same))
          (first-exists other pool o e) in
      absurd (cc)
  | inr differ ↦ rw absent (rw differ e)
]

copy_file-first :
    (key other : Text) (from : Option Blob) (pool : List Blob) (o : Blob)
    → first (has_key other) pool ≡ some o
    → first (has_key other) (copy_file key from pool) ≡ some o
unfolding copy_file
copy_file-first key other none pool o e = e
copy_file-first key other (some b) pool o e = elim (Bool-cases (exists (has_key key) pool)) [
  | inl there ↦ rw there e
  | inr absent ↦
      let put = put_object-first key other b.bytes pool o absent e in
      rw absent (ground (arith, put))
]

-- The record of a build's evidence is written once: whatever evidence is copied, for whichever
-- package, request, task and files, an object that the pool's bucket holds stays as it is.
pub record_evidence-first :
    (staging : List Blob) (name : String) (request : Option ℕ) (task : ℕ) (prefix : Text)
    (files : List Text) (pool : List Blob) (key : Text) (o : Blob)
    → first (has_key key) pool ≡ some o
    → first (has_key key) (record_evidence staging name request task prefix files pool) ≡ some o
unfolding record_evidence
record_evidence-first staging name none task prefix files pool key o e = e
record_evidence-first staging name (some zero) task prefix files pool key o e = e
record_evidence-first staging name (some (suc r)) task prefix [] pool key o e = e
record_evidence-first staging name (some (suc r)) task prefix (file ∷ files) pool key o e =
    let to : Text = record_key name (suc r) (codes "build-" ++ decimal task ++ codes "/" ++ file) in
    record_evidence-first staging name (some (suc r)) task prefix files _ key o
      (copy_file-first to key (first (has_key (prefix ++ file)) staging) pool o e)
