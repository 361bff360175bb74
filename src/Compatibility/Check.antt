-- ===== src/Compatibility/Check.antt =====
-- `CheckAPIVersion`, `resolveCompatibility` and the gate in front of optional endpoints. What the
-- server answers to GET /info and GET /api_versions is an argument; a failed request is `none`.
-- One call runs at a time: a call that waits for another's result is not in the model.
use flink_sql_go.Prelude.{
  Bool, true, false, List, [], ◌∷◌, Option, none, some, Bytes, if◌then◌else◌, Result, ok, err,
  ◌>>=◌, ◌>>◌, guard, codes,
}
use flink_sql_go.Go.Space.{trim_space}
use flink_sql_go.Compatibility.Profile.{
  Profile, Mode, auto, other_mode, Policy, stable, highest, explicit, Capabilities, no_capabilities,
  DetectionSource, detected, configured, no_source, Error, detection, unsupported_capability,
  explicit_unsupported_by_profile, contains_version, capabilities_for_profile,
  profile_for_release_line, release_line_for_mode,
}
use flink_sql_go.Compatibility.Version.{normalize_version, parse_flink_release_line}
use flink_sql_go.Compatibility.Selection.{select_api_version}

pub record Settings : Type 0 where
  pub mode : Mode
  pub policy : Policy
  pub api_version : Bytes

pub record Info : Type 0 where
  pub flink_version : Bytes
  pub release_line : Bytes
  pub api_version : Bytes
  pub capabilities : Capabilities
  pub source : DetectionSource

-- The server's answers to the two metadata requests.
pub record Answers : Type 0 where
  pub info : Option Bytes
  pub versions : Option (List Bytes)

-- The fields of the client that the check keeps.
pub record Checked : Type 0 where
  pub version_checked : Bool
  pub version_err : Option Error
  pub compatibility : Option Info

abbrev pub normalized : List Bytes → List Bytes
normalized [] = []
normalized (v ∷ vs) = elim (normalize_version v) [ none ↦ v | some n ↦ n ] ∷ normalized vs

abbrev pub answered {ℓ} : {A : Type ℓ} → Option A → Result Error A
answered none = err detection
answered (some a) = ok a

unfoldable pub profile_for_mode : Mode → Result Error (Profile × Bytes × DetectionSource)
profile_for_mode mode = do
  line ← release_line_for_mode mode
  p ← profile_for_release_line line
  ok (p, [], configured)

-- The profile, and the product version that led to it.
unfoldable pub choose_profile :
    Settings → Answers → Mode → Result Error (Profile × Bytes × DetectionSource)
unfolding profile_for_mode
choose_profile s a auto = do
  version ← answered a.info
  line ← parse_flink_release_line version
  p ← profile_for_release_line line
  ok (p, trim_space version, detected)
choose_profile s a mode = profile_for_mode mode

abbrev info_of : Profile → Bytes → DetectionSource → Bytes → Info
info_of p version source selected = record {
  flink_version = version;
  release_line = p.release_line;
  api_version = selected;
  capabilities = capabilities_for_profile p selected;
  source = source;
}

unfoldable pub resolve_compatibility : Settings → Answers → Result Error Info
unfolding choose_profile
resolve_compatibility s a = do
  (p, version, source) ← choose_profile s a s.mode
  advertised ← answered a.versions
  selected ← select_api_version p (normalized advertised) s.policy s.api_version
  ok (info_of p version source selected)

unfoldable pub profile_for_mode_or_default : Mode → Result Error Profile
profile_for_mode_or_default auto = profile_for_release_line (codes "1.20")
profile_for_mode_or_default (other_mode []) = profile_for_release_line (codes "1.20")
profile_for_mode_or_default mode = do
  line ← release_line_for_mode mode
  profile_for_release_line line

-- What is known before any request: `none` where the server has to be asked.
abbrev configured_explicit : Settings → Policy → Option (Result Error Info)
configured_explicit s explicit = some (do
  p ← profile_for_mode_or_default s.mode
  guard (contains_version p.api_versions s.api_version) explicit_unsupported_by_profile
  ok (info_of p [] configured s.api_version))
configured_explicit s stable = none
configured_explicit s highest = none

unfoldable pub configured_compatibility : Settings → Mode → Option (Result Error Info)
unfolding profile_for_mode_or_default
configured_compatibility s auto = none
configured_compatibility s mode = configured_explicit s s.policy

abbrev cached : Option Error → Result Error (Unit {0})
cached none = ok tt
cached (some e) = err e

abbrev refuse_early : Checked → Error → Checked
refuse_early c e =
    if c.version_checked then c else record c { version_checked = true; version_err = some e }

abbrev is_detection : Error → Bool
is_detection detection = true
is_detection _ = false

abbrev remember : Checked → Result Error Info → Checked × Result Error (Unit {0})
remember c (ok info) = (record c { compatibility = some info; version_checked = true }, ok tt)
remember c (err e) =
    if is_detection e
    then (c, err e)
    else (record c { version_checked = true; version_err = some e }, err e)

-- The loop of `CheckAPIVersion`, given what `resolveCompatibility` would return.
unfoldable pub ask_server : Result Error Info → Checked → Checked × Result Error (Unit {0})
ask_server resolved c = if c.version_checked then (c, cached c.version_err) else remember c resolved

unfoldable pub check_with :
    Option (Result Error Info) → Result Error Info → Checked → Checked × Result Error (Unit {0})
unfolding ask_server
check_with (some (err e)) resolved c = let c' = refuse_early c e in (c', cached c'.version_err)
check_with (some (ok info)) resolved c = ask_server resolved c
check_with none resolved c = ask_server resolved c

unfoldable pub check_api_version : Settings → Answers → Checked → Checked × Result Error (Unit {0})
unfolding configured_compatibility check_with resolve_compatibility
check_api_version s a c =
    check_with (configured_compatibility s s.mode) (resolve_compatibility s a) c

-- `compatibilitySnapshot`: the result of the check, or what the settings alone say.
unfoldable pub compatibility_snapshot : Settings → Checked → Info
compatibility_snapshot s c = elim c.compatibility [
  | some info ↦ info
  | none ↦ elim (profile_for_mode_or_default s.mode) [
    | ok p ↦ info_of p [] configured s.api_version
    | err e ↦ record {
      flink_version = [];
      release_line = [];
      api_version = s.api_version;
      capabilities = no_capabilities;
      source = no_source;
    }
  ]
]

abbrev pub known_unsupported :
    (Capabilities → Bool) → Option (Result Error Info) → Result Error (Unit {0})
known_unsupported supported none = ok tt
known_unsupported supported (some (err e)) = err e
known_unsupported supported (some (ok info)) =
    guard (supported info.capabilities) unsupported_capability

unfoldable pub supported_info : (Capabilities → Bool) → Info → Result Error Info
supported_info supported info =
    if supported info.capabilities then ok info else err unsupported_capability

-- What follows the early refusal.
unfoldable pub gate :
    Settings
    → Answers
    → (Capabilities → Bool)
    → Checked
    → Result Error (Unit {0})
    → Checked × Result Error Info
unfolding check_api_version compatibility_snapshot supported_info
gate s a supported c (err e) = (c, err e)
gate s a supported c (ok u) =
    let (c', checked) = check_api_version s a c in
    (c', checked >> supported_info supported (compatibility_snapshot s c'))

unfoldable pub compatibility_for_capability :
    Settings → Answers → (Capabilities → Bool) → Checked → Checked × Result Error Info
unfolding gate
compatibility_for_capability s a supported c =
    gate s a supported c (known_unsupported supported (configured_compatibility s s.mode))
