-- ===== src/Compatibility/Selection.antt =====
-- `selectAPIVersion`.
use flink_sql_go.Prelude.{
  Bool, true, List, [], ◌∷◌, Option, none, some, Bytes, if◌then◌else◌, Result, ok, err, leb_ℤ,
}
use flink_sql_go.Compatibility.Profile.{
  Profile, Policy, stable, highest, explicit, Error, no_compatible_api_version,
  explicit_unsupported_by_server, explicit_unsupported_by_profile, contains_version,
}
use flink_sql_go.Compatibility.Version.{normalize_version, api_version_number}

-- The keys of `serverSet`; what cannot be normalized is left out.
unfoldable pub server_set : List Bytes → List Bytes
unfolding normalize_version
server_set [] = []
server_set (v ∷ vs) =
    let rest = server_set vs in elim (normalize_version v) [ none ↦ rest | some n ↦ n ∷ rest ]

-- The versions of the profile that the server has, in the profile's order.
unfoldable pub common_versions : List Bytes → List Bytes → List Bytes
unfolding contains_version
common_versions [] server = []
common_versions (v ∷ vs) server =
    let rest = common_versions vs server in if contains_version server v then v ∷ rest else rest

-- sort.Slice by the number. It orders equal numbers in no set way; this puts them in one.
unfoldable pub insert_by_number : Bytes → List Bytes → List Bytes
unfolding api_version_number
insert_by_number v [] = v ∷ []
insert_by_number v (w ∷ ws) =
    let rest = insert_by_number v ws in
    if leb_ℤ (api_version_number v) (api_version_number w) then v ∷ w ∷ ws else w ∷ rest

unfoldable pub sort_by_number : List Bytes → List Bytes
unfolding insert_by_number
sort_by_number [] = []
sort_by_number (v ∷ vs) = insert_by_number v (sort_by_number vs)

-- The loop from the last index down: the last element that passes the test.
unfoldable pub last_where : (Bytes → Bool) → List Bytes → Option Bytes
last_where p [] = none
last_where p (v ∷ vs) =
    let here = if p v then some v else none in
    elim (last_where p vs) [ some w ↦ some w | none ↦ here ]

abbrev pub found : Option Bytes → Result Error Bytes
found none = err no_compatible_api_version
found (some v) = ok v

unfoldable pub select_api_version : Profile → List Bytes → Policy → Bytes → Result Error Bytes
unfolding server_set common_versions sort_by_number last_where
select_api_version p advertised explicit wanted =
    if contains_version p.api_versions wanted
    then (if contains_version (server_set advertised) wanted
        then ok wanted
        else err explicit_unsupported_by_server)
    else err explicit_unsupported_by_profile
select_api_version p advertised highest wanted = found (
    last_where (λ v. true)
      (sort_by_number (common_versions p.api_versions (server_set advertised))))
select_api_version p advertised stable wanted = found (
    last_where (λ v. leb_ℤ (api_version_number v) (api_version_number p.stable_api_version))
      (sort_by_number (common_versions p.api_versions (server_set advertised))))
