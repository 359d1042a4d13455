-- ===== src/McpError.antt =====
-- The typed tool errors of the MCP server, crates/cognis-mcp/src/errors.rs, without their JSON.
use Prim.Native.String.{String}
use text.Mathlib.Text.{◌==◌ as str_eq}
use cognis.Base.{Bool, true, false, ◌||◌, Option, none, some}

pub record McpError : Type 0 where
  pub code : String
  pub message : String
  pub retryable : Option Bool

abbrev pub symbol_not_found : String
symbol_not_found = "SYMBOL_NOT_FOUND"

abbrev pub index_not_ready : String
index_not_ready = "INDEX_NOT_READY"

abbrev pub timeout_code : String
timeout_code = "TIMEOUT"

abbrev pub invalid_argument_code : String
invalid_argument_code = "INVALID_ARGUMENT"

abbrev pub internal_error : String
internal_error = "INTERNAL_ERROR"

abbrev pub is_retryable_code : String → Bool
is_retryable_code code = str_eq timeout_code code || str_eq index_not_ready code

abbrev pub new : String → String → McpError
new code message = record { code = code; message = message; retryable = none }

abbrev pub with_retryable : String → String → Bool → McpError
with_retryable code message retryable = record {
  code = code;
  message = message;
  retryable = some retryable;
}

abbrev pub invalid_argument : String → McpError
invalid_argument message = with_retryable invalid_argument_code message false

abbrev pub timeout : String → McpError
timeout message = with_retryable timeout_code message true

abbrev pub not_found : String → McpError
not_found message = with_retryable symbol_not_found message false

abbrev pub internal : String → McpError
internal message = with_retryable internal_error message false

abbrev pub not_ready : String → McpError
not_ready message = with_retryable index_not_ready message true

unfoldable pub is_retryable : McpError → Bool
is_retryable e = elim e.retryable [ none ↦ is_retryable_code e.code | some b ↦ b ]
