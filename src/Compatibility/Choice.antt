-- ===== src/Compatibility/Choice.antt =====
-- What the selected API version is among the versions that the profile and the server share.
use flink_sql_go.Prelude.{
  ◌≡◌, refl, sym, ◌∙◌, inl, inr, ◌↔◌, Bool, true, false, ◌&&◌, ◌||◌, List, [], ◌∷◌, Option, none,
  some, Bytes, bytes_beq, bytes_beq_iff, arith, Option-cases, Bool-cases, ok, err, leb_ℤ,
  leb_ℤ_refl, leb_ℤ_total, leb_ℤ_trans,
}
use flink_sql_go.Compatibility.Profile.{Profile, stable, highest, explicit, Error, contains_version}
use flink_sql_go.Compatibility.Version.{api_version_number}
use flink_sql_go.Compatibility.Selection.{
  server_set, common_versions, insert_by_number, sort_by_number, last_where, found,
  select_api_version,
}

contains-common :
    (vs server : List Bytes) (u : Bytes)
    → contains_version (common_versions vs server) u
      ≡ (contains_version vs u && contains_version server u)
unfolding contains_version common_versions
contains-common [] server u = refl
contains-common (v ∷ vs) server u = ground (arith, contains-common vs server u, bytes_beq_iff v u)

contains-insert :
    (v : Bytes) (ws : List Bytes) (u : Bytes)
    → contains_version (insert_by_number v ws) u ≡ (bytes_beq v u || contains_version ws u)
unfolding contains_version insert_by_number
contains-insert v [] u = refl
contains-insert v (w ∷ ws) u = ground (arith, contains-insert v ws u)

contains-sort :
    (vs : List Bytes) (u : Bytes) → contains_version (sort_by_number vs) u ≡ contains_version vs u
unfolding contains_version sort_by_number
contains-sort [] u = refl
contains-sort (v ∷ vs) u =
    ground (arith, contains-insert v (sort_by_number vs) u, contains-sort vs u)

-- Every element has a number that is at most those of the elements behind it.
abbrev IsSorted : List Bytes → Type 0
IsSorted [] = Unit {0}
IsSorted (v ∷ vs) =
    ((u : Bytes)
      → contains_version vs u ≡ true
      → leb_ℤ (api_version_number v) (api_version_number u) ≡ true)
    × IsSorted vs

insert-IsSorted : (v : Bytes) (ws : List Bytes) → IsSorted ws → IsSorted (insert_by_number v ws)
unfolding insert_by_number contains_version
insert-IsSorted v [] s = (λ u h. cc, tt)
insert-IsSorted v (w ∷ ws) s =
    elim (Bool-cases (leb_ℤ (api_version_number v) (api_version_number w))) [
      | inl first ↦ rw first (
        λ u h. ground (
          arith,
          bytes_beq_iff w u,
          s.0 u,
          leb_ℤ_trans (api_version_number v) (api_version_number w) (api_version_number u),
        ),
        (s.0, s.1),
      )
      | inr later ↦ rw later (
        λ u h. ground (
          arith,
          bytes_beq_iff v u,
          contains-insert v ws u,
          s.0 u,
          leb_ℤ_total (api_version_number v) (api_version_number w),
        ),
        insert-IsSorted v ws s.1,
      )
    ]

sort-IsSorted : (vs : List Bytes) → IsSorted (sort_by_number vs)
unfolding sort_by_number
sort-IsSorted [] = tt
sort-IsSorted (v ∷ vs) = insert-IsSorted v (sort_by_number vs) (sort-IsSorted vs)

-- `v` is an element that passes, with the greatest number of those that pass.
pub record IsLast (p : Bytes → Bool) (vs : List Bytes) (v : Bytes) : Type 0 where
  pub passes : p v ≡ true
  pub there : contains_version vs v ≡ true
  pub greatest :
      (u : Bytes)
      → contains_version vs u ≡ true
      → p u ≡ true
      → leb_ℤ (api_version_number u) (api_version_number v) ≡ true

last_where-none :
    (p : Bytes → Bool) (vs : List Bytes) (u : Bytes)
    → last_where p vs ≡ none
    → contains_version vs u ≡ true
    → p u ≡ false
unfolding last_where contains_version
last_where-none p [] u e h = cc
last_where-none p (v ∷ vs) u e h = ground (
  arith,
  last_where-none p vs u,
  bytes_beq_iff v u,
  Option-cases (last_where p vs),
  Bool-cases (p v),
)

last_where-IsLast :
    (p : Bytes → Bool) (vs : List Bytes) (v : Bytes)
    → IsSorted vs
    → last_where p vs ≡ some v
    → IsLast p vs v
unfolding last_where contains_version
last_where-IsLast p [] v s e = cc
last_where-IsLast p (w ∷ ws) v s e = elim (Option-cases (last_where p ws)) [
  | inl missing ↦ record {
    passes = ground (arith, Bool-cases (p w));
    there = ground (arith, Bool-cases (p w), bytes_beq_iff w v);
    greatest = λ u h k. ground (
      arith,
      Bool-cases (p w),
      last_where-none p ws u missing,
      bytes_beq_iff w u,
      leb_ℤ_refl (api_version_number w),
    );
  }
  | inr (x, later) ↦
      let best = last_where-IsLast p ws x s.1 later in
      let same : x ≡ v = ground arith in
      record {
        passes = ground (arith, best.passes);
        there = ground (arith, best.there);
        greatest = λ u h k. ground (arith, best.greatest u, bytes_beq_iff w u, s.0 x best.there);
      }
]

-- The profile allows the version, and the server has it.
abbrev pub shared : Profile → List Bytes → Bytes → Bool
shared p advertised u =
    contains_version p.api_versions u && contains_version (server_set advertised) u

module _ (p : Profile) (advertised : List Bytes) where
  abbrev candidates : List Bytes
  candidates = sort_by_number (common_versions p.api_versions (server_set advertised))

  contains-candidates : (u : Bytes) → contains_version candidates u ≡ shared p advertised u
  contains-candidates u =
      contains-sort (common_versions p.api_versions (server_set advertised)) u
      ∙ contains-common p.api_versions (server_set advertised) u

  found-IsLast :
      (test : Bytes → Bool) (v : Bytes)
      → found (last_where test candidates) ≡ ok v
      → IsLast test candidates v
  found-IsLast test v e = go (last_where test candidates) refl e
    where
      go :
          (o : Option Bytes)
          → last_where test candidates ≡ o
          → found o ≡ ok v
          → IsLast test candidates v
      go none q e = cc
      go (some w) q e =
          last_where-IsLast test candidates v
            (sort-IsSorted (common_versions p.api_versions (server_set advertised))) (ground arith)

  found-err :
      (test : Bytes → Bool) (x : Error) (u : Bytes)
      → found (last_where test candidates) ≡ err x
      → shared p advertised u ≡ true
      → test u ≡ false
  found-err test x u e h =
      last_where-none test candidates u (missing (last_where test candidates) e)
        (contains-candidates u ∙ h)
    where
      missing : (o : Option Bytes) → found o ≡ err x → o ≡ none
      missing none e = refl
      missing (some w) e = cc

  -- Under the policy highest the selected version is shared by profile and server, and no shared
  -- version has a greater number; selection fails only if no version is shared.
  pub select_api_version-highest :
      (wanted : Bytes)
      → ((v : Bytes)
          → select_api_version p advertised highest wanted ≡ ok v
          → (shared p advertised v ≡ true)
            × ((u : Bytes)
                → shared p advertised u ≡ true
                → leb_ℤ (api_version_number u) (api_version_number v) ≡ true))
        × ((x : Error) (u : Bytes)
            → select_api_version p advertised highest wanted ≡ err x
            → shared p advertised u ≡ false)
  unfolding select_api_version
  select_api_version-highest wanted = (
    λ v e.
        let best = found-IsLast (λ w. true) v e in
        (
          sym (contains-candidates v) ∙ best.there,
          λ u h. best.greatest u (contains-candidates u ∙ h) refl,
        ),
    λ x u e. ground (arith, found-err (λ w. true) x u e),
  )

  -- Under the policy stable the selected version is shared, its number is at most that of the
  -- profile's stable version, and no shared version in that range has a greater one; selection fails
  -- only if no shared version is in the range.
  pub select_api_version-stable :
      (wanted : Bytes)
      → ((v : Bytes)
          → select_api_version p advertised stable wanted ≡ ok v
          → (shared p advertised v ≡ true)
            × (leb_ℤ (api_version_number v) (api_version_number p.stable_api_version) ≡ true)
            × ((u : Bytes)
                → shared p advertised u ≡ true
                → leb_ℤ (api_version_number u) (api_version_number p.stable_api_version) ≡ true
                → leb_ℤ (api_version_number u) (api_version_number v) ≡ true))
        × ((x : Error) (u : Bytes)
            → select_api_version p advertised stable wanted ≡ err x
            → shared p advertised u ≡ true
            → leb_ℤ (api_version_number u) (api_version_number p.stable_api_version) ≡ false)
  unfolding select_api_version
  select_api_version-stable wanted = (
    λ v e.
        let best =
          found-IsLast (λ w. leb_ℤ (api_version_number w) (api_version_number p.stable_api_version))
            v e in
        (
          sym (contains-candidates v) ∙ best.there,
          best.passes,
          λ u h k. best.greatest u (contains-candidates u ∙ h) k,
        ),
    λ x u e h.
        found-err (λ w. leb_ℤ (api_version_number w) (api_version_number p.stable_api_version)) x u
          e h,
  )

  -- Under the policy explicit the wanted version is selected if it is shared, and nothing else ever is.
  pub select_api_version-explicit :
      (wanted v : Bytes)
      → (select_api_version p advertised explicit wanted ≡ ok v)
        ↔ ((v ≡ wanted) × (shared p advertised wanted ≡ true))
  unfolding select_api_version
  select_api_version-explicit wanted v = (λ e. ground arith, λ h. ground arith)
