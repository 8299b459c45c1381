-- ===== src/Tests/Answers.antt =====
-- internal/httpapi/responses.go: answers to concrete errors.
use k8s_panel.Base.{◌≡◌, refl, ◌↔◌, runes, text_dec, some}
use k8s_panel.Domain.{Error, wrapped, deadline_exceeded, timeout, busy}
use k8s_panel.Http.{write_error, write_error_status, write_invalid_json, answer}
use k8s_panel.Http.Distinct
use k8s_panel.Http.Distinct.{shown_error}
use k8s_panel.Domain.{root}

abbrev late : Error
late = wrapped (runes "list cluster nodes") deadline_exceeded

busy-retried :
    (write_error (runes "req") (wrapped (runes "admit") busy)).retry_after ≡ some (runes "2")
unfolding write_error answer write_error_status root runes text_dec
busy-retried = refl

invalid_json-status : (write_invalid_json (runes "req")).status ≡ 400
unfolding write_invalid_json write_error_status
invalid_json-status = refl

write_error-shown_error_example :
    (write_error (runes "req") late ≡ write_error (runes "req") timeout)
    ↔ (shown_error late ≡ shown_error timeout)
write_error-shown_error_example = Distinct.write_error-shown_error (runes "req") late timeout
