-- ===== src/Factory/Rules/Upstream.antt =====
-- Which architectures the factory builds (splitByUpstream of worker/src/routes/factory.ts).
use omarchy_cli.Base.{
  Bool, List, Option, [], false, first, first-test, inl, inr, none, refl, some, true, ◌∷◌, ◌≡◌, ◌⊎◌,
}
use omarchy_cli.Factory.Rows.{Arch, Provided}
use omarchy_cli.Factory.Enqueue.{Skipped, Split, ships, split_by_upstream, split_step}

-- The split of a list: each architecture, in order, is built where nobody ships it or the request
-- overrides, and is skipped with who ships it otherwise.
pub data Splits (provided : List Provided) (override : Bool)
    : List Arch → List Arch → List Skipped → Type 0 where
  nothing : Splits provided override [] [] []
  built :
      {arch : Arch} {arches bs : List Arch} {ss : List Skipped}
      → (override ≡ true) ⊎ (first (ships arch) provided ≡ none)
      → Splits provided override arches bs ss
      → Splits provided override (arch ∷ arches) (arch ∷ bs) ss
  passed :
      {arch : Arch} {arches bs : List Arch} {ss : List Skipped} (p : Provided)
      → override ≡ false
      → first (ships arch) provided ≡ some p
      → ships arch p ≡ true
      → Splits provided override arches bs ss
      → Splits provided override
          (arch ∷ arches)
          bs
          (record { arch = arch; source = p.source; version = p.version } ∷ ss)

split_step-Splits :
    (provided : List Provided) (override : Bool) (arch : Arch) (arches : List Arch) (s : Split)
    (hit : Option Provided)
    → first (ships arch) provided ≡ hit
    → Splits provided override arches s.build s.skipped
    → Splits provided override
        (arch ∷ arches)
        (split_step override arch hit s).build
        (split_step override arch hit s).skipped
unfolding split_step
split_step-Splits provided override arch arches s none e r = Splits.built (inr e) r
split_step-Splits provided true arch arches s (some p) e r = Splits.built (inl refl) r
split_step-Splits provided false arch arches s (some p) e r =
    Splits.passed p refl e (first-test (ships arch) provided p e) r

-- Every requested architecture is either built or skipped, in the order of the request: built
-- where the request overrides or no source but the factory and chaotic ships the name, skipped
-- with a source that does otherwise.
pub split_by_upstream-Splits :
    (provided : List Provided) (arches : List Arch) (override : Bool)
    → Splits provided override arches
        (split_by_upstream provided arches override).build
        (split_by_upstream provided arches override).skipped
unfolding split_by_upstream
split_by_upstream-Splits provided [] override = Splits.nothing
split_by_upstream-Splits provided (arch ∷ arches) override =
    split_step-Splits provided override arch arches (split_by_upstream provided arches override)
      (first (ships arch) provided) refl (split_by_upstream-Splits provided arches override)
