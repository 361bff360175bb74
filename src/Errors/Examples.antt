-- ===== src/Errors/Examples.antt =====
-- Tests of the texts, of Unwrap and of Is.
use flink_sql_go.Prelude.{◌≡◌, refl, [], ◌∷◌, true, some, codes}
use flink_sql_go.Go.Space.{trim_space}
use flink_sql_go.Go.Decimal.{itoa_from, itoa}
use flink_sql_go.Session.Handle.{mask_handle}
use flink_sql_go.Setup.Plan.{table_step}
use flink_sql_go.Setup.Quote.{double, quote, quote_identifier}
use flink_sql_go.Metadata.Name.{quote_given}
use flink_sql_go.Transport.Response.{possibly_sent}
use flink_sql_go.Errors.Tree.{
  unsupported_api, no_compatible_version, execution_unknown, operation_not_found, number, same,
  is_unsupported_api, execute_request, RequestContext, GatewayError, no_error, sentinel,
  request_unknown, setup_error, execution_error, limit_error, is_nil_error, unwrap_error, is_here,
}
use flink_sql_go.Errors.Text.{
  sentinel_text, request_text, configuration_text, format_target, setup_text, limit_text, message,
}

program : Unit {0}
unfolding number same is_unsupported_api is_nil_error unwrap_error is_here itoa_from itoa
    mask_handle double quote quote_identifier quote_given trim_space sentinel_text request_text
    configuration_text format_target setup_text limit_text message
program = tt

abbrev context : RequestContext
context = record {
  session_handle = codes "0123456789abcdef";
  http_method = codes "POST";
  endpoint = codes "/s";
  phase = possibly_sent;
}

abbrev unknown_outcome : GatewayError
unknown_outcome = request_unknown execute_request context (sentinel no_compatible_version)

-- A row limit, behind which the close failed.
abbrev cleaned_up : GatewayError
cleaned_up =
    execution_error (limit_error (codes "rows") 10 11) no_error (sentinel operation_not_found)

masked :
    message unknown_outcome
    ≡ codes
        "statement execution outcome is unknown: POST /s phase=POSSIBLY_SENT session=0123...cdef"
unfolding program
masked = refl

both_parts :
    message cleaned_up
    ≡ codes
        "flink sql execution failed: flink sql result limit exceeded: rows limit=10 received=11; close cleanup: flink sql operation not found"
unfolding program
both_parts = refl

kept_out :
    message (
      setup_error
        (record {
          failed_step = some (2, table_step);
          target = record { catalog = codes "c"; database = codes "d"; object = codes "o" };
          is_unknown = true;
        })
        unknown_outcome
        no_error)
    ≡ codes
        "flink sql session setup failed at step 2 kind=TABLE target=`c`.`d`.`o`: outcome unknown"
unfolding program
kept_out = refl

unwrapped :
    (unwrap_error cleaned_up ≡ limit_error (codes "rows") 10 11 ∷ sentinel operation_not_found ∷ [])
    × (unwrap_error (sentinel no_compatible_version) ≡ sentinel unsupported_api ∷ [])
    × (is_here unknown_outcome execution_unknown ≡ true)
unfolding program
unwrapped = (refl, refl, refl)
