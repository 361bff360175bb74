-- ===== src/Config/NextResult.antt =====
-- security.go: the URL of the next result page stays with the gateway of the client. url.Parse, ResolveReference and
-- strings.EqualFold are arguments.
use flink_sql_go.Prelude.{
  Bool, ◌||◌, not, [], ◌∷◌, ◌++◌, Option, none, some, Bytes, ◌=?◌, bytes_eq, codes, Result, ok, err,
  guard, ◌>>=◌, ◌>>◌,
}
use flink_sql_go.Go.Space.{is_empty}
use flink_sql_go.Config.Fields.{Url, trim_right_slashes}

-- Why an address is `ErrUnsafeNextResultURI`.
pub data UnsafeUri : Type 0 where
  not_a_uri user_or_fragment foreign_scheme foreign_origin : UnsafeUri

abbrev pub parsed : Option Url → Result UnsafeUri Url
parsed none = err not_a_uri
parsed (some ref) = ok ref

abbrev pub is_web : Url → Bool
is_web u = u.scheme =? codes "http" || u.scheme =? codes "https"

-- The address of the gateway that a reference is resolved against.
abbrev pub folder : Url → Url
folder base = record base { path = trim_right_slashes base.path ++ b'/' ∷ [] }

module _ (parse : Bytes → Option Url) (resolve : Url → Url → Url)
    (equal_fold : Bytes → Bytes → Bool) (base : Url) where
  unfoldable pub validate_next_result_uri : Bytes → Result UnsafeUri Url
  unfolding trim_right_slashes
  validate_next_result_uri value = do
    ref ← parsed (parse value)
    guard (not (ref.has_user_info || not (is_empty ref.fragment))) user_or_fragment
    let resolved = resolve (folder base) ref
    guard (is_web resolved) foreign_scheme
    guard
        (not (
          not (equal_fold resolved.scheme base.scheme) || not (equal_fold resolved.host base.host)))
        foreign_origin
    ok resolved
