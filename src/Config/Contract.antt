-- ===== src/Config/Contract.antt =====
-- What a configuration is after `normalize`.
use flink_sql_go.Prelude.{
  ◌≡◌, refl, sym, ap, subst, ◌∙◌, Bool, true, false, ◌&&◌, not, Option, Bytes, bytes_eq, ok, guard,
  >>=-eq-ok, arith,
}
use flink_sql_go.Go.Space.{is_empty, trim_space}
use flink_sql_go.Compatibility.Version.{normalize_version}
use flink_sql_go.Compatibility.Check.{Settings}
use flink_sql_go.Execution.Operation.{chosen_format, is_valid_format, json_format}
use flink_sql_go.Config.Fields.{
  ClientConfig, bad_mode, bad_policy, no_version, unwanted_version, bad_version, bad_format,
  host_header, Url, with_defaults, normalize_mode, normalize_policy, has_host,
}
use flink_sql_go.Config.Normalize.{
  Normalized, needed, check_base, is_explicit, normalize_settings, check_numbers, normalize,
}
use flink_sql_go.Config.Positive.{
  IsPositive, ok_injective, guard-not, guard-true, check_numbers-IsPositive,
}
use flink_sql_go.Config.Address.{IsGateway, check_base-IsGateway}

-- The policy is `explicit` exactly if a version is given.
normalize_settings-explicit :
    (mode policy version : Bytes) (s : Settings)
    → normalize_settings mode policy version ≡ ok s
    → is_explicit s.policy ≡ not (is_empty (trim_space version))
unfolding normalize_settings
normalize_settings-explicit mode policy version s h =
    let (m, _, h1) = >>=-eq-ok (needed bad_mode (normalize_mode mode)) _ h in
    let raw = trim_space version in
    let (p, _, h2) =
      >>=-eq-ok (needed bad_policy (normalize_policy policy (not (is_empty raw)))) _ h1 in
    let (_, given, h3) = >>=-eq-ok (guard (not (is_explicit p && is_empty raw)) no_version) _ h2 in
    let (_, wanted, h4) =
      >>=-eq-ok (guard (not (not (is_explicit p) && not (is_empty raw))) unwanted_version) _ h3 in
    let (v, _, h5) = >>=-eq-ok (needed bad_version (normalize_version raw)) _ h4 in
    ap (λ t. is_explicit t.policy)
      (sym (ok_injective (record { mode = m; policy = p; api_version = v }) s h5))
    ∙ agree (is_explicit p) (is_empty raw) (guard-not _ no_version given)
        (guard-not _ unwanted_version wanted)
  where
    agree : (a b : Bool) → (a && b) ≡ false → (not a && not b) ≡ false → a ≡ not b
    agree true true h k = ground arith
    agree true false h k = refl
    agree false true h k = refl
    agree false false h k = ground arith

-- A normalized configuration: the address is one of a gateway, every number is positive and is the given one or, for
-- 0, the default, the interval of polls may grow, a version is given exactly under the policy `explicit`, the
-- format is a known one, and the headers are the given ones and do not set the host.
pub normalize-IsUsable :
    (parse : Bytes → Option Url) (c : ClientConfig) (n : Normalized)
    → normalize parse c ≡ ok n
    → IsGateway n.base
      × (with_defaults c.numbers ≡ n.numbers)
      × IsPositive n.numbers
      × (is_explicit n.settings.policy ≡ not (is_empty (trim_space c.api_version)))
      × (is_valid_format n.row_format ≡ true)
      × (n.headers ≡ c.headers)
      × (has_host c.headers ≡ false)
unfolding normalize
normalize-IsUsable parse c n h =
    let (base, b, h1) = >>=-eq-ok (check_base parse c.base_url) _ h in
    let (settings, s, h2) =
      >>=-eq-ok (normalize_settings c.compatibility_mode c.api_version_policy c.api_version) _ h1 in
    let (numbers, x, h3) = >>=-eq-ok (check_numbers c.numbers) _ h2 in
    let (_, format, h4) =
      >>=-eq-ok
        (guard (is_valid_format (chosen_format c.default_row_format json_format)) bad_format) _
        h3 in
    let (_, host, h5) = >>=-eq-ok (guard (not (has_host c.headers)) host_header) _ h4 in
    let (same, positive) = check_numbers-IsPositive c.numbers numbers x in
    let e = ok_injective _ n h5 in
    (
      subst IsGateway (ap (λ m. m.base) e) (check_base-IsGateway parse c.base_url base b),
      same ∙ ap (λ m. m.numbers) e,
      subst IsPositive (ap (λ m. m.numbers) e) positive,
      ap (λ m. is_explicit m.settings.policy) (sym e)
          ∙ normalize_settings-explicit c.compatibility_mode c.api_version_policy c.api_version
              settings s,
      ap (λ m. is_valid_format m.row_format) (sym e) ∙ guard-true _ bad_format format,
      ap (λ m. m.headers) (sym e),
      guard-not _ host_header host,
    )
