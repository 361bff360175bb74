-- ===== src/Config/Positive.antt =====
-- The numbers of a configuration after `check_numbers`.
use flink_sql_go.Prelude.{
  zero, suc, ◌≡◌, refl, subst, Bool, true, false, ◌||◌, not, bytes_eq, ℤ, pos, negsuc, leb_ℤ,
  Result, ok, guard, >>=-eq-ok, arith,
}
use flink_sql_go.Config.Fields.{
  Numbers, ConfigError, bad_time, bad_poll_interval, bad_limit, default_numbers, or_default_number,
  with_defaults, is_negative, at_most_zero,
}
use flink_sql_go.Config.Normalize.{has_bad_time, has_bad_limit, check_numbers}

-- Every number is positive, and the interval of polls may grow.
pub record IsPositive (n : Numbers) : Type 0 where
  pub request_timeout : at_most_zero n.request_timeout ≡ false
  pub execution_timeout : at_most_zero n.execution_timeout ≡ false
  pub poll_interval : at_most_zero n.poll_interval ≡ false
  pub max_poll_interval : at_most_zero n.max_poll_interval ≡ false
  pub heartbeat_interval : at_most_zero n.heartbeat_interval ≡ false
  pub max_result_rows : at_most_zero n.max_result_rows ≡ false
  pub max_response_bytes : at_most_zero n.max_response_bytes ≡ false
  pub max_polls : at_most_zero n.max_polls ≡ false
  pub stream_buffer : at_most_zero n.stream_buffer ≡ false
  pub observer_timeout : at_most_zero n.observer_timeout ≡ false
  pub observer_max_in_flight : at_most_zero n.observer_max_in_flight ≡ false
  pub ordered : leb_ℤ n.poll_interval n.max_poll_interval ≡ true

or_default_number-positive :
    (n d : ℤ)
    → at_most_zero d ≡ false
    → is_negative (or_default_number n d) ≡ false
    → at_most_zero (or_default_number n d) ≡ false
or_default_number-positive (pos zero) d h k = h
or_default_number-positive (pos (suc n)) d h k = ground arith
or_default_number-positive (negsuc n) d h k = ground arith

pub ok_injective : {A : Type 0} (a b : A) → ◌≡◌ {A = Result ConfigError A} (ok a) (ok b) → a ≡ b
ok_injective a b h = ground arith

pub not-false : (b : Bool) → not b ≡ true → b ≡ false
not-false b h = ground arith

pub guard-not : (b : Bool) (e : ConfigError) {u : Unit {0}} → guard (not b) e ≡ ok u → b ≡ false
guard-not b e h = ground arith

pub guard-true : (b : Bool) (e : ConfigError) {u : Unit {0}} → guard b e ≡ ok u → b ≡ true
guard-true b e h = ground arith

none_of : (a b : Bool) → (a || b) ≡ false → (a ≡ false) × (b ≡ false)
none_of false b h = (refl, h)
none_of true b h = ground arith

module _ (given : Numbers) where
  abbrev filled : Numbers
  filled = with_defaults given

  numbers-IsPositive :
      has_bad_time filled ≡ false
      → leb_ℤ filled.poll_interval filled.max_poll_interval ≡ true
      → has_bad_limit filled ≡ false
      → IsPositive filled
  unfolding with_defaults
  numbers-IsPositive times order limits =
      let (t, f) = none_of _ (is_negative filled.observer_timeout) times in
      let (t2, e) = none_of _ (at_most_zero filled.heartbeat_interval) t in
      let (t3, d) = none_of _ (at_most_zero filled.max_poll_interval) t2 in
      let (t4, c) = none_of _ (at_most_zero filled.poll_interval) t3 in
      let (a, b) = none_of _ (is_negative filled.execution_timeout) t4 in
      let (l, y) = none_of _ (at_most_zero filled.observer_max_in_flight) limits in
      let (l2, x) = none_of _ (at_most_zero filled.stream_buffer) l in
      let (l3, w) = none_of _ (at_most_zero filled.max_polls) l2 in
      let (r, v) = none_of _ (at_most_zero filled.max_response_bytes) l3 in
      record {
        request_timeout =
            or_default_number-positive given.request_timeout default_numbers.request_timeout refl a;
        execution_timeout =
            or_default_number-positive given.execution_timeout default_numbers.execution_timeout
              refl b;
        poll_interval = c;
        max_poll_interval = d;
        heartbeat_interval = e;
        max_result_rows =
            or_default_number-positive given.max_result_rows default_numbers.max_result_rows refl r;
        max_response_bytes = v;
        max_polls = w;
        stream_buffer = x;
        observer_timeout =
            or_default_number-positive given.observer_timeout default_numbers.observer_timeout refl
              f;
        observer_max_in_flight = y;
        ordered = order;
      }

  pub check_numbers-IsPositive :
      (n : Numbers) → check_numbers given ≡ ok n → (filled ≡ n) × IsPositive n
  unfolding check_numbers
  check_numbers-IsPositive n h =
      let (_, times, h1) = >>=-eq-ok (guard (not (has_bad_time filled)) bad_time) _ h in
      let (_, order, h2) =
        >>=-eq-ok (guard (leb_ℤ filled.poll_interval filled.max_poll_interval) bad_poll_interval) _
          h1 in
      let (_, limits, h3) = >>=-eq-ok (guard (not (has_bad_limit filled)) bad_limit) _ h2 in
      let same = ok_injective filled n h3 in
      (
        same,
        subst IsPositive same (
            numbers-IsPositive (guard-not _ bad_time times) (guard-true _ bad_poll_interval order)
              (guard-not _ bad_limit limits)),
      )
