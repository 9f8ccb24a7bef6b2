-- ===== src/Api.antt =====
-- internal/api: the handlers of the HTTP interface, as functions of the request and of the service
-- that a handler holds. Lookups, Lists and Actions have the handlers that show one record, that list
-- and that act; Paths splits a request's path; Routes, Statuses and Replies have theorems.
--
-- The mux has chosen the handler before. What the package encoding/json reads of a body is a
-- parameter of each handler, and what it writes is the struct that the handler encodes.
pub mod Paths
pub mod Lookups
pub mod Lists
pub mod Actions
pub mod Reply
pub mod Routes
pub mod Ids
pub mod Refusals
use agent_layer.Prelude.{String, ℕ, Bool, Option, none, some, if◌then◌else◌}
use agent_layer.Prelude.Int.{ℤ, pos, negsuc}
use agent_layer.Prelude.Exec.{Exec, Error, Result, ok, err, not_found}
use agent_layer.Domain.{Time, Bytes, is_zero}

-- What arrives of a body, and whether reading it ends without an error.
pub record RequestBody : Type 0 where
  pub bytes : Bytes
  pub complete : Bool

-- io.ReadAll(request.Body)
abbrev pub read_all : RequestBody → Option Bytes
read_all body = if body.complete then some body.bytes else none

-- `query` and `header` are the `Get` of request.URL.Query() and of request.Header.
pub record Request : Type 0 where
  pub path : String
  pub query : String → String
  pub header : String → String
  pub body : RequestBody

-- What a handler writes: an http.Error, or a status with a struct in JSON.
pub data Response (A : Type 0) : Type 0 where
  refused : ℕ → String → Response A
  encoded : ℕ → A → Response A

abbrev pub status : {A : Type 0} → Response A → ℕ
status (refused n message) = n
status (encoded n a) = n

-- strconv.Atoi, and the layouts http.TimeFormat and time.RFC3339.
pub record Formats : Type 0 where
  pub atoi : String → Option ℤ
  pub http_time : Time → String
  pub rfc3339 : Time → String

abbrev pub Handler : Type 0 → Type 0 → Type 0
Handler S A = Request → S → Response A × S

-- errors.Is(err, domain.ErrNotFound)
abbrev pub is_not_found : Error → Bool
is_not_found (not_found message) = Bool.true
is_not_found Error.recipient_suppressed = Bool.false
is_not_found Error.provider_message_not_found = Bool.false
is_not_found Error.replay_request_unavailable = Bool.false
is_not_found (Error.failure message) = Bool.false

module _ {A : Type 0} where
  -- writeLookupError
  unfoldable pub write_lookup_error : String → String → Error → Response A
  write_lookup_error not_found_message internal_message e =
      if is_not_found e
      then Response.refused 404 not_found_message
      else Response.refused 500 internal_message

  -- The answer of a handler that calls its service.
  abbrev pub respond :
      {B : Type 0} → (Error → Response A) → (B → Response A) → Result B → Response A
  respond on_error on_result (ok b) = on_result b
  respond on_error on_result (err e) = on_error e

module _ {S A B : Type 0} where
  abbrev pub answer : Exec S B → (Error → Response A) → (B → Response A) → S → Response A × S
  answer call on_error on_result s = let (r, s') = call s in (respond on_error on_result r, s')

-- formatResponseTime
unfoldable pub format_response_time : Formats → Time → String
format_response_time formats value = if is_zero value then "" else formats.rfc3339 value
