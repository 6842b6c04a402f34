-- ===== src/Server/Reports.antt =====
-- The report of an error does not change the state of a connection.
use pgwire.Base.{Bytes}
use pgwire.Errors.{
  PgWireError, user_error, api_error, invalid_protocol_version, invalid_message_type,
  invalid_target_type, io_error, portal_not_found, statement_not_found, unknown_type_id,
  parameter_index_out_of_bound, parameter_type_index_out_of_bound, invalid_rust_type_for_parameter,
  failed_to_parse_parameter, invalid_scram_message, unsupported_certificate_signature_algorithm,
  user_name_required, ErrorInfo,
}
use pgwire.Api.Client.{PgWireConnectionState, Sink}
use pgwire.Api.Query.{idle}
use pgwire.Api.Preserved.{
  Preserves, OfClient, Preserves-then, Preserves-feed, Preserves-flush, Preserves-close,
  Preserves-send,
}
use pgwire.Server.{process_error, report, report_fatal}

module _ ⦃s : Sink⦄ (P : PgWireConnectionState → Type 0) where
  Preserves-report : (info : ErrorInfo) → Preserves (OfClient P) (report info)
  unfolding report
  Preserves-report info =
      Preserves-then (OfClient P) _ _ (Preserves-feed P _)
        (Preserves-then (OfClient P) _ _ (Preserves-feed P idle) (Preserves-flush P))

  Preserves-report_fatal : (info : ErrorInfo) → Preserves (OfClient P) (report_fatal info)
  unfolding report_fatal
  Preserves-report_fatal info =
      Preserves-then (OfClient P) _ _ (Preserves-send P _) (Preserves-close P)

  pub Preserves-process_error :
      (display : PgWireError → Bytes) (e : PgWireError)
      → Preserves (OfClient P) (process_error display e)
  unfolding process_error
  Preserves-process_error display (user_error info) = Preserves-report info
  Preserves-process_error display (api_error e) = Preserves-report _
  Preserves-process_error display (invalid_protocol_version n) = Preserves-report_fatal _
  Preserves-process_error display (invalid_message_type n) = Preserves-report_fatal _
  Preserves-process_error display (invalid_target_type n) = Preserves-report_fatal _
  Preserves-process_error display (io_error n) = Preserves-report_fatal _
  Preserves-process_error display (portal_not_found n) = Preserves-report_fatal _
  Preserves-process_error display (statement_not_found n) = Preserves-report_fatal _
  Preserves-process_error display (unknown_type_id n) = Preserves-report_fatal _
  Preserves-process_error display (parameter_index_out_of_bound n) = Preserves-report_fatal _
  Preserves-process_error display (parameter_type_index_out_of_bound n) = Preserves-report_fatal _
  Preserves-process_error display (invalid_rust_type_for_parameter n) = Preserves-report_fatal _
  Preserves-process_error display (failed_to_parse_parameter n) = Preserves-report_fatal _
  Preserves-process_error display (invalid_scram_message n) = Preserves-report_fatal _
  Preserves-process_error display unsupported_certificate_signature_algorithm =
      Preserves-report_fatal _
  Preserves-process_error display user_name_required = Preserves-report_fatal _
