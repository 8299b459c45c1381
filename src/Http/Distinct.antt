-- ===== src/Http/Distinct.antt =====
-- internal/httpapi/responses.go: which errors the answers tell apart.
use k8s_panel.Base.{
  List, [], ◌∷◌, ◌==◌, if◌then◌else◌, Text, runes, same, text_dec, ◌≡◌, refl, sym, ap, ◌∙◌, ◌↔◌,
}
use k8s_panel.Domain.{
  Error, not_found, conflict, unauthorized, forbidden, invalid_state, busy, upstream, timeout,
  context_canceled, deadline_exceeded, invalid, other, wrapped, root,
}
use k8s_panel.Http.{FieldError, Response, write_error_status, answer, write_error}

-- What a client may learn of an error: the sentinel or the validation error under the wrappings;
-- the two timeouts are one, and nothing is said of any other error.
unfoldable pub shown_error : Error → Error
shown_error (wrapped m e) = shown_error e
shown_error deadline_exceeded = timeout
shown_error context_canceled = other []
shown_error (other m) = other []
shown_error e = e

-- The error that a client reads in an answer.
unfoldable read_details : List FieldError → Error
read_details [] = other []
read_details (d ∷ ds) = invalid d.field d.message

unfoldable read_response : Response → Error
unfolding runes
read_response r =
    if r.status == 422
    then read_details r.error.details
    else if r.status == 401
    then unauthorized
    else if r.status == 403
    then forbidden
    else if r.status == 404
    then not_found
    else if r.status == 409
    then (if same r.error.code (runes "conflict") then conflict else invalid_state)
    else if r.status == 503
    then busy
    else if r.status == 504
    then timeout
    else if r.status == 502
    then upstream
    else other []

read_response-write_error :
    (id : Text) (e : Error) → read_response (write_error id e) ≡ shown_error e
unfolding write_error answer write_error_status root shown_error read_response read_details runes
    text_dec
read_response-write_error id (wrapped m e) = read_response-write_error id e
read_response-write_error id not_found = refl
read_response-write_error id conflict = refl
read_response-write_error id unauthorized = refl
read_response-write_error id forbidden = refl
read_response-write_error id invalid_state = refl
read_response-write_error id busy = refl
read_response-write_error id upstream = refl
read_response-write_error id timeout = refl
read_response-write_error id context_canceled = refl
read_response-write_error id deadline_exceeded = refl
read_response-write_error id (invalid f m) = refl
read_response-write_error id (other m) = refl

write_error-shown_only : (id : Text) (e : Error) → write_error id e ≡ write_error id (shown_error e)
unfolding write_error answer root shown_error
write_error-shown_only id (wrapped m e) = write_error-shown_only id e
write_error-shown_only id not_found = refl
write_error-shown_only id conflict = refl
write_error-shown_only id unauthorized = refl
write_error-shown_only id forbidden = refl
write_error-shown_only id invalid_state = refl
write_error-shown_only id busy = refl
write_error-shown_only id upstream = refl
write_error-shown_only id timeout = refl
write_error-shown_only id context_canceled = refl
write_error-shown_only id deadline_exceeded = refl
write_error-shown_only id (invalid f m) = refl
write_error-shown_only id (other m) = refl

-- Two errors have the same answer exactly where a client may learn the same of them: whatever wraps
-- them, the sentinels and the validation errors, with their fields and messages, are told apart, but
-- the two timeouts are not, and no other error's text is shown.
pub write_error-shown_error :
    (id : Text) (e e' : Error)
    → (write_error id e ≡ write_error id e') ↔ (shown_error e ≡ shown_error e')
write_error-shown_error id e e' = (
  λ p. sym (read_response-write_error id e) ∙ ap read_response p ∙ read_response-write_error id e',
  λ p. write_error-shown_only id e ∙ ap (write_error id) p ∙ sym (write_error-shown_only id e'),
)
