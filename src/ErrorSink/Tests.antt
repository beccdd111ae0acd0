-- ===== src/ErrorSink/Tests.antt =====
-- Runs of the redaction and of a report, and the witnesses.
use workbench.Prelude.{◌≡◌, refl, ◌↔◌, ◌==◌, true, false, none, some, [], ◌∷◌, if◌then◌else◌}
use workbench.ErrorSink.{
  text, scalar, null, array, object, nil, cons, Fields, end, field, Patterns, is_secret_key,
  redact_text, hides, redact_record, error_at, ErrorObject, ErrorContext, Sink, report_error,
}
use workbench.ErrorSink.Redaction.{LeafOf, FieldOf, text_leaf, Comes, redact_record-leaves}
use workbench.ErrorSink.Reports.{IsReported, report_error-IsReported}

abbrev patterns : Patterns
patterns = record {
  provider_key_shape = λ key. false;
  secret_values = (λ s. if s == "Bearer abc" then "[redacted]" else s) ∷ [];
  sensitive_assignment = λ s. s;
  query_param_assignment = λ s. s;
}

secret_keys : is_secret_key "xApi-KeyId" ≡ true
unfolding is_secret_key
secret_keys = refl

plain_keys : is_secret_key "apiNumber" ≡ false
unfolding is_secret_key
plain_keys = refl

abbrev extra : Fields
extra =
    field "headers"
      (array
        (cons (object (field "Cookie" (object end) (field "url" (text "Bearer abc") end))) nil))
      (field "userTokens" (array nil) (field "count" (scalar null) end))

abbrev redacted_extra : Fields
redacted_extra =
    field "headers"
      (array (
        cons (object (field "Cookie" (text "[redacted]") (field "url" (text "[redacted]") end)))
          nil))
      (field "userTokens" (text "[redacted]") (field "count" (scalar null) end))

redact_record_test : redact_record patterns extra ≡ redacted_extra
unfolding redact_record hides redact_text
redact_record_test = refl

redact_record-leaves_example :
    LeafOf (redact_record patterns extra) ("headers" ∷ "Cookie" ∷ []) (text_leaf "[redacted]")
    ↔ Comes patterns
        (LeafOf extra ("headers" ∷ "Cookie" ∷ []))
        (FieldOf extra ("headers" ∷ "Cookie" ∷ []))
        ("headers" ∷ "Cookie" ∷ [])
        (text_leaf "[redacted]")
redact_record-leaves_example =
    redact_record-leaves patterns extra ("headers" ∷ "Cookie" ∷ []) (text_leaf "[redacted]")

-- Its cause is itself.
abbrev cyclic : ErrorObject
cyclic = record { message = "Bearer abc"; stack = none; cause = some (error_at 0) }

abbrev sink : Sink
sink = record {
  patterns = patterns;
  heap = λ e. cyclic;
  new_stack = λ s. s;
  generated_id = "r";
  context_shape = λ c. some c;
  log_throws = λ copy properties. false;
}

abbrev context : ErrorContext
context = record {
  operation = "op";
  tenant_id = none;
  workbench_id = none;
  agent_id = none;
  ref_id = none;
  extra = some extra;
}

report_error-IsReported_example : IsReported sink (error_at 0) context
report_error-IsReported_example = report_error-IsReported sink (error_at 0) context

reported_id : (report_error sink (error_at 0) context).0 ≡ "r"
unfolding report_error
reported_id = refl
