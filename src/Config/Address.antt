-- ===== src/Config/Address.antt =====
-- The address of a configuration after `check_base`.
use flink_sql_go.Prelude.{
  ℕ, ◌≡◌, ◌≢◌, refl, subst, if_both, Bool, true, false, ◌&&◌, ◌||◌, not, [], ◌∷◌, ◌++◌, Option,
  Bytes, ◌=?◌, bytes_eq, codes, ok, guard, >>=-eq-ok, ◌==◌, ==_iff, arith,
}
use flink_sql_go.Go.Space.{is_empty, trim_space}
use flink_sql_go.Config.Fields.{
  no_base_url, bad_base_url, bad_scheme, has_user, has_query, Url, trim_right_slashes,
}
use flink_sql_go.Config.Normalize.{needed, check_base}
use flink_sql_go.Config.Positive.{ok_injective, not-false, guard-not, guard-true}

-- The slashes at the end of the path are gone.
abbrev EndsOtherwise : Bytes → Type 0
EndsOtherwise s = (front : Bytes) → s ≢ front ++ b'/' ∷ []

empty-EndsOtherwise : EndsOtherwise []
empty-EndsOtherwise [] e = ground arith
empty-EndsOtherwise (c ∷ front) e = ground arith

cons-EndsOtherwise :
    (c : ℕ) (rest : Bytes)
    → (c == b'/' && is_empty rest) ≡ false
    → EndsOtherwise rest
    → EndsOtherwise (c ∷ rest)
cons-EndsOtherwise c rest h k [] e = ground (arith, ==_iff c b'/')
cons-EndsOtherwise c rest h k (f ∷ front) e = k front (ground arith)

trim_right_slashes-EndsOtherwise : (s : Bytes) → EndsOtherwise (trim_right_slashes s)
unfolding trim_right_slashes
trim_right_slashes-EndsOtherwise [] = empty-EndsOtherwise
trim_right_slashes-EndsOtherwise (c ∷ s) =
    if_both EndsOtherwise (c == b'/' && is_empty (trim_right_slashes s))
      (λ slash. empty-EndsOtherwise)
      (λ other.
        cons-EndsOtherwise c (trim_right_slashes s) other (trim_right_slashes-EndsOtherwise s))

-- An address of a gateway: nothing but a scheme, a host and a path without a slash at its end.
pub record IsGateway (u : Url) : Type 0 where
  pub is_http : (u.scheme =? codes "http" || u.scheme =? codes "https") ≡ true
  pub host_given : is_empty u.host ≡ false
  pub no_user : u.has_user_info ≡ false
  pub no_query : is_empty u.raw_query ≡ true
  pub no_fragment : is_empty u.fragment ≡ true
  pub no_slash : EndsOtherwise u.path

all_of : (a b : Bool) → (a && b) ≡ true → (a ≡ true) × (b ≡ true)
all_of true b h = (refl, h)
all_of false b h = ground arith

pub check_base-IsGateway :
    (parse : Bytes → Option Url) (text : Bytes) (u : Url)
    → check_base parse text ≡ ok u
    → IsGateway u
unfolding check_base
check_base-IsGateway parse text u h =
    let (_, _, h1) = >>=-eq-ok (guard (not (is_empty (trim_space text))) no_base_url) _ h in
    let (url, _, h2) = >>=-eq-ok (needed bad_base_url (parse (trim_space text))) _ h1 in
    let (_, place, h3) =
      >>=-eq-ok
        (guard
          ((url.scheme =? codes "http" || url.scheme =? codes "https") && not (is_empty url.host))
          bad_scheme)
        _ h2 in
    let (_, user, h4) = >>=-eq-ok (guard (not url.has_user_info) has_user) _ h3 in
    let (_, tail, h5) =
      >>=-eq-ok (guard (is_empty url.raw_query && is_empty url.fragment) has_query) _ h4 in
    let (http, host) = all_of _ _ (guard-true _ bad_scheme place) in
    let (query, fragment) = all_of _ _ (guard-true _ has_query tail) in
    subst IsGateway (ok_injective (record url { path = trim_right_slashes url.path }) u h5)
      (record {
        is_http = http;
        host_given = not-false _ host;
        no_user = guard-not _ has_user user;
        no_query = query;
        no_fragment = fragment;
        no_slash = trim_right_slashes-EndsOtherwise url.path;
      })
