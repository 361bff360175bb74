-- ===== src/Compatibility/Contract.antt =====
-- What the compatibility check promises: what it selects, that it settles once, and that an optional
-- endpoint is used only where it is supported.
use flink_sql_go.Prelude.{
  ◌≡◌, refl, sym, subst, ◌∙◌, ◌≢◌, true, false, ◌&&◌, ◌||◌, List, [], ◌∷◌, Option, none, some,
  Bytes, bytes_beq_iff, arith, Option-cases, Result, ok, err, >>=-eq-ok,
}
use flink_sql_go.Compatibility.Profile.{
  Profile, Mode, auto, flink120, flink20, flink21, flink22, flink23, other_mode, Policy, stable,
  highest, explicit, DetectionSource, Error, detection, contains_version, selectable,
  capabilities_for_profile, profile_in, profiles, profile_for_release_line, release_line_for_mode,
}
use flink_sql_go.Compatibility.Version.{parse_flink_release_line}
use flink_sql_go.Compatibility.Selection.{select_api_version}
use flink_sql_go.Compatibility.Choice.{
  shared, select_api_version-highest, select_api_version-stable, select_api_version-explicit,
}
use flink_sql_go.Compatibility.Check.{
  Settings, Info, Answers, Checked, normalized, answered, choose_profile, resolve_compatibility,
  configured_compatibility, check_with, profile_for_mode, check_api_version,
}

-- Before it settles the check has kept nothing; once it settles without an error it has a result.
pub record IsCoherent (c : Checked) : Type 0 where
  pub unsettled : c.version_checked ≡ false → (c.version_err ≡ none) × (c.compatibility ≡ none)
  pub selected : c.version_checked ≡ true → c.version_err ≡ none → c.compatibility ≢ none

check_with-settled :
    (known : Option (Result Error Info)) (r q : Result Error Info) (c : Checked)
    → IsCoherent c
    → (check_with known r c).0.version_checked ≡ true
    → check_with known q (check_with known r c).0 ≡ check_with known r c
unfolding check_with
check_with-settled (some (err e)) r q c v h = ground arith
check_with-settled (some (ok info)) (ok i) q c v h = ground (arith, v.unsettled)
check_with-settled (some (ok info)) (err x) q c v h = ground (arith, v.unsettled)
check_with-settled none (ok i) q c v h = ground (arith, v.unsettled)
check_with-settled none (err x) q c v h = ground (arith, v.unsettled)

check_with-IsCoherent :
    (known : Option (Result Error Info)) (r : Result Error Info) (c : Checked)
    → IsCoherent c
    → IsCoherent (check_with known r c).0
unfolding check_with
check_with-IsCoherent (some (err e)) r c v = record {
  unsettled = λ h. ground (arith, v.unsettled);
  selected = λ h k. ground (arith, v.unsettled, v.selected);
}
check_with-IsCoherent (some (ok i)) (ok j) c v = record {
  unsettled = λ h. ground (arith, v.unsettled);
  selected = λ h k. ground (arith, v.unsettled, v.selected);
}
check_with-IsCoherent (some (ok i)) (err x) c v = record {
  unsettled = λ h. ground (arith, v.unsettled);
  selected = λ h k. ground (arith, v.unsettled, v.selected);
}
check_with-IsCoherent none (ok j) c v = record {
  unsettled = λ h. ground (arith, v.unsettled);
  selected = λ h k. ground (arith, v.unsettled, v.selected);
}
check_with-IsCoherent none (err x) c v = record {
  unsettled = λ h. ground (arith, v.unsettled);
  selected = λ h k. ground (arith, v.unsettled, v.selected);
}

-- No release and no API version has both the materialized table endpoint and the script endpoint, and
-- a version that the profile does not list has no capability at all.
capabilities_for_profile-exclusive :
    (p : Profile) (v : Bytes)
    → let c = capabilities_for_profile p v in
      (c.materialized_table && c.deploy_script ≡ false)
      × (contains_version p.api_versions v ≡ false
          → (c.configure_session || c.complete_statement || c.row_format || c.materialized_table
              || c.deploy_script || c.wire_execution_timeout)
            ≡ false)
unfolding capabilities_for_profile
capabilities_for_profile-exclusive p v = (ground arith, λ h. ground arith)

select-shared :
    (p : Profile) (advertised : List Bytes) (policy : Policy) (wanted v : Bytes)
    → select_api_version p advertised policy wanted ≡ ok v
    → shared p advertised v ≡ true
select-shared p advertised explicit wanted v e =
    let (same, both) = (select_api_version-explicit p advertised wanted v).0 e in rw same both
select-shared p advertised highest wanted v e =
    ((select_api_version-highest p advertised wanted).0 v e).0
select-shared p advertised stable wanted v e =
    ((select_api_version-stable p advertised wanted).0 v e).0

profile_in-line :
    (ps : List Profile) (line : Bytes) (p : Profile)
    → profile_in ps line ≡ ok p
    → (p.release_line ≡ line) × (selectable p.status ≡ true)
unfolding profile_in
profile_in-line [] line p e = cc
profile_in-line (q ∷ ps) line p e =
    ground (arith, profile_in-line ps line p, bytes_beq_iff q.release_line line)

-- The profile that a resolved result was made from.
pub record Resolved (a : Answers) (info : Info) : Type 0 where
  pub profile : Profile
  pub advertised : List Bytes
  pub from_registry : profile_for_release_line info.release_line ≡ ok profile
  pub status_selectable : selectable profile.status ≡ true
  pub server_answer : a.versions ≡ some advertised
  pub both : shared profile (normalized advertised) info.api_version ≡ true
  pub capable : info.capabilities ≡ capabilities_for_profile profile info.api_version

-- A registered profile is found under its own line.
FromRegistry : Profile → Type 0
FromRegistry p = (profile_for_release_line p.release_line ≡ ok p) × (selectable p.status ≡ true)

registered : (line : Bytes) (p : Profile) → profile_for_release_line line ≡ ok p → FromRegistry p
unfolding profile_for_release_line FromRegistry
registered line p e =
    let (same, usable) = profile_in-line profiles line p e in
    (subst (λ l. profile_for_release_line l ≡ ok p) (sym same) e, usable)

of_mode :
    (m : Mode) (p : Profile) (version : Bytes) (origin : DetectionSource)
    → profile_for_mode m ≡ ok (p, version, origin)
    → FromRegistry p
unfolding profile_for_mode
of_mode m p version origin e =
    let (line, _, e') = >>=-eq-ok (release_line_for_mode m) _ e in
    let (q, found, e'') = >>=-eq-ok (profile_for_release_line line) _ e' in
    registered line p (found ∙ ground arith)

choose_profile-registered :
    (s : Settings) (a : Answers) (m : Mode) (p : Profile) (version : Bytes)
    (origin : DetectionSource)
    → choose_profile s a m ≡ ok (p, version, origin)
    → FromRegistry p
unfolding choose_profile
choose_profile-registered s a auto p version origin e =
    let (v, _, e1) = >>=-eq-ok (answered a.info) _ e in
    let (line, _, e2) = >>=-eq-ok (parse_flink_release_line v) _ e1 in
    let (q, found, e3) = >>=-eq-ok (profile_for_release_line line) _ e2 in
    registered line p (found ∙ ground arith)
choose_profile-registered s a flink120 p version origin e = of_mode flink120 p version origin e
choose_profile-registered s a flink20 p version origin e = of_mode flink20 p version origin e
choose_profile-registered s a flink21 p version origin e = of_mode flink21 p version origin e
choose_profile-registered s a flink22 p version origin e = of_mode flink22 p version origin e
choose_profile-registered s a flink23 p version origin e = of_mode flink23 p version origin e
choose_profile-registered s a (other_mode m) p version origin e =
    of_mode (other_mode m) p version origin e

-- A resolved result comes from a registered profile of a status that may be used; the profile and the
-- server's answer share the API version, and the capabilities are those of the two together.
pub resolve_compatibility-Resolved :
    (s : Settings) (a : Answers) (info : Info)
    → resolve_compatibility s a ≡ ok info
    → Resolved a info
unfolding resolve_compatibility FromRegistry
resolve_compatibility-Resolved s a info e =
    let ((p, version, origin), chosen, e1) = >>=-eq-ok (choose_profile s a s.mode) _ e in
    let (adv, got, e2) = >>=-eq-ok (answered a.versions) _ e1 in
    let (v, selected, e3) =
      >>=-eq-ok (select_api_version p (normalized adv) s.policy s.api_version) _ e2 in
    let (reg, usable) = choose_profile-registered s a s.mode p version origin chosen in
    record {
      profile = p;
      advertised = adv;
      from_registry = ground arith;
      status_selectable = usable;
      server_answer = ground (arith, Option-cases a.versions);
      both = ground (arith, select-shared p (normalized adv) s.policy s.api_version v selected);
      capable = ground arith;
    }

-- Once a check has settled, it gives the same result for good, whatever the server would answer.
pub check_api_version-settled :
    (s : Settings) (a b : Answers) (c : Checked)
    → IsCoherent c
    → (check_api_version s a c).0.version_checked ≡ true
    → check_api_version s b (check_api_version s a c).0 ≡ check_api_version s a c
unfolding check_api_version
check_api_version-settled s a b c =
    check_with-settled (configured_compatibility s s.mode) (resolve_compatibility s a)
      (resolve_compatibility s b) c

-- A check keeps the state coherent: nothing is kept before it settles, and a check that settles
-- without an error keeps a result.
check_api_version-IsCoherent :
    (s : Settings) (a : Answers) (c : Checked)
    → IsCoherent c
    → IsCoherent (check_api_version s a c).0
unfolding check_api_version
check_api_version-IsCoherent s a c =
    check_with-IsCoherent (configured_compatibility s s.mode) (resolve_compatibility s a) c

-- A failure to reach the server leaves the state as it was, so that the next check asks again, where
-- the settings alone are no error.
check_api_version-retry :
    (s : Settings) (a : Answers) (c : Checked)
    → c.version_checked ≡ false
    → ((x : Error) → configured_compatibility s s.mode ≢ some (err x))
    → resolve_compatibility s a ≡ err detection
    → check_api_version s a c ≡ (c, err detection)
unfolding check_api_version
check_api_version-retry s a c fresh good failed =
    rw failed (go (configured_compatibility s s.mode) good)
  where
    go :
        (known : Option (Result Error Info))
        → ((x : Error) → known ≢ some (err x))
        → check_with known (err detection) c ≡ (c, err detection)
    go (some (err e)) good = absurd (good e refl)
    go (some (ok i)) good = ground arith
    go none good = ground arith
