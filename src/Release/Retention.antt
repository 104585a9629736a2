-- ===== src/Release/Retention.antt =====
-- Retention: worker/src/routes/gc.ts. The numbers of the query (keep, limit, grace_days) are
-- arguments; the bucket is the list of its keys. The other tables that a package's row goes from
-- (what it provides, requires and contains) and the metadata of CVEs are left out.
use omarchy_cli.Base.{
  Bool, List, Option, Text, [], codes, delete, exists, false, first, if◌then◌else◌, leb, length,
  map, none, not, or_else, select, some, starts_with, take, text_eq, true, update, ℕ, ◌&&◌, ◌*◌,
  ◌++◌, ◌+◌, ◌-◌, ◌==◌, ◌||◌, ◌∷◌, ltb,
}
use omarchy_cli.Factory.Journal.{arch_text}
use omarchy_cli.Release.Rows.{Delta, Package, Pool, Release, Ring, ring_eq}
use omarchy_cli.Release.Selection.{Pin}

-- What `retention` answers.
pub record Retention : Type 0 where
  pub protected_releases : List ℕ
  pub kept_checkpoints : List ℕ
  pub checkpoint_seq : List (Ring × ℕ)

abbrev pub id_in : ℕ → List ℕ → Bool
id_in id ids = exists (λ k. k == id) ids

-- `rows.at(-1)`
unfoldable pub last {ℓ} : {A : Type ℓ} → List A → Option A
last [] = none
last (x ∷ xs) = let rest = last xs in elim rest [ none ↦ some x | some y ↦ some y ]

-- The newest checkpoint of a ring up to a place in its sequence.
abbrev pub is_base : Ring → ℕ → Release → Bool
is_base ring seq r = ring_eq ring r.ring && r.checkpoint && leb r.seq seq

-- One ring: its newest `keep` releases, the checkpoints among them, and the newest checkpoint that
-- is not behind the oldest of them.
unfoldable pub keep_ring : ℕ → Pool → Retention → Ring → Retention
unfolding select take first last
keep_ring keep st kept ring =
    let rows = take keep (select (λ r. ring_eq ring r.ring) st.releases) in
    let protected = kept.protected_releases ++ map (λ r. r.id) rows in
    let marked = kept.kept_checkpoints ++ map (λ r. r.id) (select (λ r. r.checkpoint) rows) in
    let with_rows : Retention = record {
      protected_releases = protected;
      kept_checkpoints = marked;
      checkpoint_seq = kept.checkpoint_seq;
    } in
    elim (last rows) [
      | none ↦ with_rows
      | some oldest ↦ elim (first (is_base ring oldest.seq) st.releases) [
        | none ↦ with_rows
        | some base ↦ record with_rows {
          kept_checkpoints = if id_in base.id marked then marked else marked ++ (base.id ∷ []);
          checkpoint_seq = kept.checkpoint_seq ++ ((ring, base.seq) ∷ []);
        }
      ]
    ]

unfoldable pub keep_rings : ℕ → Pool → Retention → List Ring → Retention
unfolding keep_ring
keep_rings keep st kept [] = kept
keep_rings keep st kept (ring ∷ more) = keep_rings keep st (keep_ring keep st kept ring) more

abbrev pub nothing_kept : Retention
nothing_kept = record { protected_releases = []; kept_checkpoints = []; checkpoint_seq = [] }

-- `RINGS`
abbrev pub all_rings : List Ring
all_rings = Ring.edge ∷ Ring.rc ∷ Ring.stable ∷ []

-- `retention`
unfoldable pub retention : ℕ → Pool → Retention
unfolding keep_rings
retention keep st = keep_rings keep st nothing_kept all_rings

abbrev pub pins : {K : Type 0} → (K → Bool) → ℕ → Pin K → Bool
pins test id m = test m.key && m.package_id == id

-- What a ring serves.
abbrev pub is_served : Pool → Package → Bool
is_served st p = exists (pins (λ ring. true) p.id) st.ring_packages

-- What a protected release added or removed.
abbrev pub is_changed : Retention → Pool → Package → Bool
is_changed kept st p =
    exists (λ d. id_in d.release_id kept.protected_releases && d.package_id == p.id)
      st.release_deltas

-- What a kept checkpoint lists.
abbrev pub is_listed : Retention → Pool → Package → Bool
is_listed kept st p = exists (pins (λ id. id_in id kept.kept_checkpoints) p.id) st.release_packages

abbrev pub is_young : ℕ → ℕ → Package → Bool
is_young grace_days now p = leb now (p.created_at + grace_days * 86_400_000)

abbrev pub is_unreferenced : Retention → ℕ → ℕ → Pool → Package → Bool
is_unreferenced kept grace_days now st p =
    not (is_served st p)
    && not (is_changed kept st p)
    && not (is_listed kept st p)
    && not (is_young grace_days now p)

-- ORDER BY id, of rows that are newest first.
unfoldable pub oldest_first {ℓ} : {A : Type ℓ} → List A → List A
oldest_first [] = []
oldest_first (x ∷ xs) = oldest_first xs ++ (x ∷ [])

-- `unreferenced`: the packages that nothing protects.
unfoldable pub unreferenced : Retention → ℕ → ℕ → Pool → List Package
unfolding select oldest_first
unreferenced kept grace_days now st =
    oldest_first (select (is_unreferenced kept grace_days now st) st.packages)

-- DELETE FROM release_deltas, a ring after the other.
unfoldable pub drop_deltas : List (Ring × ℕ) → List Release → List Delta → List Delta
unfolding delete exists
drop_deltas [] releases deltas = deltas
drop_deltas ((ring, seq) ∷ more) releases deltas = drop_deltas more releases (
    delete
      (λ d. exists (λ r. r.id == d.release_id && ring_eq ring r.ring && leb r.seq seq) releases)
      deltas)

-- The checkpoints and the deltas that nothing inside retention starts from.
unfoldable pub prune : Retention → Pool → Pool
unfolding drop_deltas update delete
prune kept st = record st {
  release_packages = delete (λ m. not (id_in m.key kept.kept_checkpoints)) st.release_packages;
  releases =
      update (λ r. r.checkpoint && not (id_in r.id kept.kept_checkpoints))
        (λ r. record r { checkpoint = false }) st.releases;
  release_deltas = drop_deltas kept.checkpoint_seq st.releases st.release_deltas;
}

-- COALESCE(r2_key, repo_arch || '/' || filename)
unfoldable pub object_key : Package → Text
object_key p = or_else p.r2_key (arch_text p.repo_arch ++ codes "/" ++ p.filename)

-- The object of a package and the files beside it.
abbrev pub is_object_of : Text → Text → Bool
is_object_of key k =
    text_eq k key
    || text_eq k (key ++ codes ".sig")
    || text_eq k (key ++ codes ".provenance.json")
    || text_eq k (key ++ codes ".provenance.json.sig")

abbrev pub names_object : Package → Package → Bool
names_object p q = text_eq (object_key q) (object_key p) && not (q.id == p.id)

-- The index and the keys of the bucket.
pub record Depot : Type 0 where
  pub index : Pool
  pub objects : List Text

-- One victim: its object where no other row names it, and its row.
unfoldable pub collect : Package → Depot → Depot
unfolding object_key exists delete starts_with
collect p d = record {
  objects =
      if exists (names_object p) d.index.packages || starts_with (codes "ghost/") (object_key p)
      then d.objects
      else delete (is_object_of (object_key p)) d.objects;
  index = record d.index { packages = delete (λ q. q.id == p.id) d.index.packages };
}

unfoldable pub collect_all : List Package → Depot → Depot
unfolding collect
collect_all [] d = d
collect_all (p ∷ more) d = collect_all more (collect p d)

-- `handleGc`: how many packages were deleted, and how many are left for the next run.
--
-- `Math.max(1, keep)` and `Math.min(limit, 500)`.
unfoldable pub handle_gc : ℕ → ℕ → ℕ → ℕ → Depot → (ℕ × ℕ) × Depot
unfolding retention unreferenced prune collect_all take
handle_gc keep limit grace_days now d =
    let kept = retention (if ltb keep 1 then 1 else keep) d.index in
    let packages = unreferenced kept grace_days now d.index in
    let victims = take (if ltb 500 limit then 500 else limit) packages in
    (
      (length victims, length packages - length victims),
      collect_all victims (record d { index = prune kept d.index }),
    )
