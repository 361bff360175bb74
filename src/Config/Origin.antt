-- ===== src/Config/Origin.antt =====
-- Which addresses of a next page are accepted.
use flink_sql_go.Prelude.{
  ◌≡◌, refl, ap, ◌∙◌, ◌=?◌, bytes_eq, codes, subst, Bool, true, false, ◌||◌, not, [], Option, some,
  Bytes, ok, Result, guard, >>=-eq-ok, arith,
}
use flink_sql_go.Go.Space.{is_empty}
use flink_sql_go.Config.Fields.{Url}
use flink_sql_go.Config.NextResult.{
  UnsafeUri, user_or_fragment, foreign_scheme, foreign_origin, parsed, is_web, folder,
  validate_next_result_uri,
}

both_hold : (a b : Bool) → not (not a || not b) ≡ true → (a ≡ true) × (b ≡ true)
both_hold true b h = (refl, ground arith)
both_hold false b h = ground arith

holds : (b : Bool) (e : UnsafeUri) {u : Unit {0}} → guard b e ≡ ok u → b ≡ true
holds b e h = ground arith

same_url : (u v : Url) → ◌≡◌ {A = Result UnsafeUri Url} (ok u) (ok v) → u ≡ v
same_url u v h = ground arith

no_identity : (b : Bool) (f : Bytes) → b ≡ false → f ≡ [] → (b || not (is_empty f)) ≡ false
no_identity b f h k = rw (h, k) refl

module _ (parse : Bytes → Option Url) (resolve : Url → Url → Url)
    (equal_fold : Bytes → Bytes → Bool) (base : Url) where
  abbrev IsSameOrigin : Url → Type 0
  IsSameOrigin u =
      (is_web u ≡ true)
      × (equal_fold u.scheme base.scheme ≡ true)
      × (equal_fold u.host base.host ≡ true)

  -- An accepted address has the scheme and the host of the gateway.
  validate_next_result_uri-IsSameOrigin :
      (value : Bytes) (u : Url)
      → validate_next_result_uri parse resolve equal_fold base value ≡ ok u
      → IsSameOrigin u
  unfolding validate_next_result_uri
  validate_next_result_uri-IsSameOrigin value u h =
      let (ref, _, h1) = >>=-eq-ok (parsed (parse value)) _ h in
      let (_, _, h2) =
        >>=-eq-ok (guard (not (ref.has_user_info || not (is_empty ref.fragment))) user_or_fragment)
          _ h1 in
      let there = resolve (folder base) ref in
      let (_, web, h3) = >>=-eq-ok (guard (is_web there) foreign_scheme) _ h2 in
      let (_, origin, h4) =
        >>=-eq-ok
          (guard
            (not
              (not (equal_fold there.scheme base.scheme) || not (equal_fold there.host base.host)))
            foreign_origin)
          _ h3 in
      let (scheme, host) = both_hold _ _ (holds _ foreign_origin origin) in
      subst IsSameOrigin (same_url there u h4) (holds _ foreign_scheme web, scheme, host)

  -- A reference that leaves the scheme and the host as they are, as every relative one does, is accepted if it has
  -- no user information and no fragment.
  validate_next_result_uri-relative :
      (value : Bytes) (ref : Url)
      → is_web base ≡ true
      → ((text : Bytes) → equal_fold text text ≡ true)
      → parse value ≡ some ref
      → ref.has_user_info ≡ false
      → ref.fragment ≡ []
      → (resolve (folder base) ref).scheme ≡ base.scheme
      → (resolve (folder base) ref).host ≡ base.host
      → validate_next_result_uri parse resolve equal_fold base value
        ≡ ok (resolve (folder base) ref)
  unfolding validate_next_result_uri
  validate_next_result_uri-relative value ref web reflexive read user fragment scheme host =
      let there = resolve (folder base) ref in
      let known = ap (λ s. s =? codes "http" || s =? codes "https") scheme ∙ web in
      let one = ap (λ s. equal_fold s base.scheme) scheme ∙ reflexive base.scheme in
      let two = ap (λ s. equal_fold s base.host) host ∙ reflexive base.host in
      rw (read, known, one, two, no_identity _ _ user fragment) refl
