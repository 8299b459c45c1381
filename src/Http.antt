-- ===== src/Http.antt =====
-- internal/httpapi/responses.go: the answer of the HTTP interface to an error.
pub mod Distinct
use k8s_panel.Base.{
  ℕ, zero, suc, Bool, true, false, ◌&&◌, Option, none, some, List, [], ◌∷◌, ◌==◌, if◌then◌else◌,
  Text, runes, same,
}
use k8s_panel.Domain.{
  Error, not_found, conflict, unauthorized, forbidden, invalid_state, busy, upstream, timeout,
  context_canceled, deadline_exceeded, invalid, other, wrapped, root,
}

pub record FieldError : Type 0 where
  pub field : Text
  pub message : Text

pub record ErrorBody : Type 0 where
  pub code : Text
  pub message : Text
  pub details : List FieldError
  pub request_id : Text

-- What is sent: the status, the header `Retry-After`, and the body under the key `error`.
pub record Response : Type 0 where
  pub status : ℕ
  pub retry_after : Option Text
  pub error : ErrorBody

-- The answer to a request of an identity, with a status, a code, a message and details.
unfoldable pub write_error_status : Text → ℕ → Text → Text → List FieldError → Response
unfolding runes
write_error_status request_id status code message details = record {
  status = status;
  retry_after = if status == 503 && same code (runes "server_busy") then some (runes "2") else none;
  error = record { code = code; message = message; details = details; request_id = request_id };
}

-- The cases of the switch, on what is under the wrappings.
unfoldable pub answer : Text → Error → Response
unfolding runes
answer id (invalid field message) =
    write_error_status id 422 (runes "validation_error") (runes "请求参数不合法")
      (record { field = field; message = message } ∷ [])
answer id unauthorized = write_error_status id 401 (runes "unauthorized") (runes "请先登录或重新登录") []
answer id forbidden = write_error_status id 403 (runes "forbidden") (runes "没有执行该操作的权限") []
answer id not_found = write_error_status id 404 (runes "not_found") (runes "目标资源不存在") []
answer id conflict = write_error_status id 409 (runes "conflict") (runes "资源名称或状态发生冲突") []
answer id invalid_state =
    write_error_status id 409 (runes "invalid_state") (runes "资源当前状态不允许该操作") []
answer id busy = write_error_status id 503 (runes "server_busy") (runes "服务繁忙，请稍后重试") []
answer id timeout = write_error_status id 504 (runes "upstream_timeout") (runes "上游请求超时") []
answer id deadline_exceeded =
    write_error_status id 504 (runes "upstream_timeout") (runes "上游请求超时") []
answer id upstream =
    write_error_status id 502 (runes "upstream_unavailable") (runes "上游服务不可用或拒绝了请求") []
answer id _ = write_error_status id 500 (runes "internal_error") (runes "服务处理请求时发生错误") []

-- `writeError`: `errors.Is` and `errors.As` look under the wrappings.
unfoldable pub write_error : Text → Error → Response
write_error id e = answer id (root e)

-- `writeInvalidJSON`
unfoldable pub write_invalid_json : Text → Response
unfolding runes
write_invalid_json id = write_error_status id 400 (runes "invalid_json") (runes "请求正文不是有效的 JSON") []
