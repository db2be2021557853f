-- ===== src/Api/Tokens.antt =====
-- internal/api/server.go: the handler that issues tokens.
use open_mcp_chain.Prelude.{
  ℕ, not, Option, none, some, Text, txt, text_eq, ◌==◌, is_empty, if◌then◌else◌, inl, inr,
}
use open_mcp_chain.Errors.Value.{GoError, error_text}
use open_mcp_chain.Errors.Reading.{is_sentinel}
use open_mcp_chain.Auth.Tokens.{Outcome, Crypto, TokenPair}
use open_mcp_chain.Auth.Service.{TokenRequest, Service}
use open_mcp_chain.Auth.Service.Requests.{is_disabled, authenticate}
use open_mcp_chain.Api.{Response, respond, issued, write_json_error}

-- The switch on the error; the errors of the package auth are told by their texts.
unfoldable pub token_refused : GoError → Response
unfolding is_sentinel
token_refused e =
    if is_sentinel (txt "invalid credentials") e
    then write_json_error 401 (txt "INVALID_CREDENTIALS") (txt "认证失败")
    else if is_sentinel (txt "unsupported grant type") e
    then write_json_error 400 (txt "UNSUPPORTED_GRANT") (error_text e)
    else if is_sentinel (txt "subject is disabled") e
    then write_json_error 403 (txt "ACCOUNT_DISABLED") (txt "账号已禁用")
    else if is_sentinel (txt "authentication disabled") e
    then write_json_error 503 (txt "AUTH_DISABLED") (txt "身份认证未启用")
    else write_json_error 500 (txt "TOKEN_ISSUE_FAILED") (txt "服务器内部错误")

abbrev token_response : Outcome TokenPair → Response
token_response (inr e) = token_refused e
token_response (inl token) = respond 200 (
    issued
      (if is_empty token.token_type then record token { token_type = txt "Bearer" } else token))

abbrev issue_to : {W : Type 0} → Crypto → Service W → ℕ → Option TokenRequest → W → Response
issue_to crypto service now none w = write_json_error 400 (txt "INVALID_REQUEST") (txt "请求体解析失败")
issue_to crypto service now (some req) w = token_response (authenticate crypto service now req w)

abbrev auth_disabled : Response
auth_disabled = write_json_error 503 (txt "AUTH_DISABLED") (txt "身份认证未启用")

-- `body` is what the JSON decoder makes of the request's body; a server without a service has `none`.
unfoldable pub handle_auth_token :
    {W : Type 0} → Crypto → Option (Service W) → ℕ → Text → Option TokenRequest → W → Response
unfolding authenticate token_refused
handle_auth_token crypto auth now method body w =
    if not (method == txt "POST")
    then write_json_error 405 (txt "METHOD_NOT_ALLOWED") (txt "仅支持 POST")
    else elim auth [
      | none ↦ auth_disabled
      | some service ↦
          if is_disabled service.mode then auth_disabled else issue_to crypto service now body w
    ]
