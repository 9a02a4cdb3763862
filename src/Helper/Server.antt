-- ===== src/Helper/Server.antt =====
-- internal/vscodehelper/server.go: the ids of requests, the registry of their cancellations, and the
-- loop that reads requests, as steps on a state. The requests run at the same time, so each step of
-- one of them may come at any time. JSON is decoded outside the program.
pub mod Registry
pub mod Refinement
pub mod Rest
use gitgit.Prelude.{
  ℕ, ◌+◌, ◌≡◌, Bool, true, false, not, ◌&&◌, ◌||◌, Option, none, some, List, [], ◌∷◌, ◌++◌, ltb,
  if◌then◌else◌, ◌==◌,
}
use gitgit.Text.{Text, lit, text_eq, is_empty, trim_space}
use gitgit.Assoc.{Assoc, get, put, delete}
use gitgit.Helper.Rpc.{
  RpcError, rpc_error, code_parse_error, code_invalid_request, Answer, answered, refused,
}
use gitgit.Apperr.{plain_message}

-- What `json.Decoder` makes of a value, with numbers kept as texts.
pub data JsonValue : Type 0 where
  json_string json_number : Text → JsonValue
  json_other : JsonValue

-- `request`: an absent id is the empty text.
pub record Request : Type 0 where
  pub json_rpc : Text
  pub id : Text
  pub method : Text
  pub params : Text

-- The JSON of the standard library: whether a text is valid, a value, a request, and the id in the
-- params of a cancellation.
pub record Json : Type 0 where
  pub is_valid : Text → Bool
  pub decode_value : Text → Option JsonValue
  pub decode_message : Text → Option Request
  pub decode_cancel : Text → Option Text

abbrev is_null : Text → Bool
is_null raw = text_eq (trim_space raw) (lit "null")

abbrev is_id_value : Option JsonValue → Bool
is_id_value none = false
is_id_value (some (json_string t)) = true
is_id_value (some (json_number t)) = true
is_id_value (some json_other) = false

-- `validRequestID`.
unfoldable pub valid_request_id : Json → Text → Bool
valid_request_id json raw = if is_null raw then true else is_id_value (json.decode_value raw)

abbrev key_of_value : Option JsonValue → Option Text
key_of_value none = none
key_of_value (some (json_string t)) = some (lit "string:" ++ t)
key_of_value (some (json_number t)) = some (lit "number:" ++ t)
key_of_value (some json_other) = none

-- `requestIDKey`.
unfoldable pub request_id_key : Json → Text → Option Text
request_id_key json raw =
    let trimmed = trim_space raw in
    if is_empty trimmed || text_eq trimmed (lit "null")
    then none
    else key_of_value (json.decode_value trimmed)

abbrev starts_object : Text → Bool
starts_object [] = false
starts_object (c ∷ _) = c == b'{'

abbrev invalid_request : Text → Text → Answer Request
invalid_request code text = refused (rpc_error code_invalid_request code (plain_message text))

-- The tests of `decodeRequest` on what was decoded.
abbrev checked_request : Json → Option Request → Answer Request
checked_request json none = invalid_request (lit "invalid_request") (lit "invalid JSON-RPC request")
checked_request json (some r) =
    if not (text_eq r.json_rpc (lit "2.0")) || is_empty (trim_space r.method)
    then invalid_request (lit "invalid_request") (lit "jsonrpc must be 2.0 and method is required")
    else if not (is_empty r.id) && not (valid_request_id json r.id)
    then invalid_request (lit "invalid_request_id") (lit "id must be a string, number, or null")
    else answered r

-- `decodeRequest`.
unfoldable pub decode_request : Json → Text → Answer Request
decode_request json line =
    if not (json.is_valid line)
    then refused
        (rpc_error code_parse_error (lit "parse_error") (plain_message (lit "invalid JSON")))
    else if not (starts_object line)
    then invalid_request (lit "invalid_request") (lit "request must be a JSON object")
    else checked_request json (json.decode_message line)

-- A request that runs: the number of its context, its id, and whether its reply is written.
pub record Running : Type 0 where
  pub number : ℕ
  pub id : Text
  pub replied : Bool

-- What is written: the reply of a running request, or an error for an id.
pub data Written : Type 0 where
  reply : ℕ → Text → Written
  error_reply : Text → RpcError → Written

-- The map `cancellations`: the context that a key cancels.
abbrev pub Registry : Type 0
Registry = Assoc ℕ

-- `registerCancellation`, with none for false: an id without a key is always let through.
unfoldable pub register_cancellation : Option Text → ℕ → Registry → Option Registry
register_cancellation none number registry = some registry
register_cancellation (some key) number registry = elim (get key registry) [
  | some _ ↦ none
  | none ↦ some (put key number registry)
]

-- `finishRequest`.
unfoldable pub finish_request : Option Text → Registry → Registry
finish_request none registry = registry
finish_request (some key) registry = delete key registry

-- `handleCancel`, of the key of the id in its params: the contexts that are cancelled behind it.
unfoldable pub handle_cancel : Option Text → Registry → List ℕ → List ℕ
handle_cancel none registry cancelled = cancelled
handle_cancel (some key) registry cancelled = elim (get key registry) [
  | none ↦ cancelled
  | some number ↦ number ∷ cancelled
]

-- `cancelAll`.
unfoldable pub cancel_all : Registry → List ℕ → List ℕ
cancel_all [] cancelled = cancelled
cancel_all ((key, number) ∷ registry) cancelled = cancel_all registry (number ∷ cancelled)

-- The server while it serves. `next` numbers the contexts, `written` has the last first.
pub record Serving : Type 0 where
  pub next : ℕ
  pub running : List Running
  pub registry : Registry
  pub cancelled : List ℕ
  pub written : List Written

unfoldable pub new_server : Serving
new_server = record { next = 0; running = []; registry = []; cancelled = []; written = [] }

abbrev running_of : ℕ → Text → Running
running_of number id = record { number = number; id = id; replied = false }

duplicate_id : RpcError
duplicate_id =
    rpc_error code_invalid_request (lit "duplicate_request_id")
      (plain_message (lit "request id is already in flight"))

abbrev cancel_key : Json → Option Text → Option Text
cancel_key json none = none
cancel_key json (some id) = request_id_key json id

-- The key under which a request is registered: none for one that wants no reply.
unfoldable pub registered_key : Json → Text → Option Text
unfolding request_id_key
registered_key json id = if is_empty id then none else request_id_key json id

-- A request that is let through, or refused because its id is in flight.
unfoldable pub start_request : Request → Option Registry → Serving → Serving
unfolding duplicate_id
start_request r none s = record s {
  next = s.next + 1;
  cancelled = s.next ∷ s.cancelled;
  written = error_reply r.id duplicate_id ∷ s.written;
}
start_request r (some registry) s = record s {
  next = s.next + 1;
  running = running_of s.next r.id ∷ s.running;
  registry = registry;
}

-- The body of the loop of `Serve`, for a line that is not blank.
unfoldable pub receive_request : Json → Answer Request → Serving → Serving
unfolding register_cancellation handle_cancel start_request registered_key
receive_request json (refused e) s = record s { written = error_reply (lit "null") e ∷ s.written }
receive_request json (answered r) s =
    if text_eq r.method (lit "$/cancelRequest")
    then record s {
      cancelled =
          handle_cancel
            (cancel_key json (if is_empty r.params then none else json.decode_cancel r.params))
            s.registry s.cancelled;
    }
    else start_request r (register_cancellation (registered_key json r.id) s.next s.registry) s

unfoldable pub receive_line : Json → Text → Serving → Serving
unfolding receive_request decode_request
receive_line json line s =
    let trimmed = trim_space line in
    if is_empty trimmed then s else receive_request json (decode_request json trimmed) s

-- The reply of a running request is written where it has an id.
unfoldable pub write_reply : Running → List Running → List Running → Serving → Serving
write_reply r before after s = record s {
  running = before ++ record r { replied = true } ∷ after;
  written = if is_empty r.id then s.written else reply r.number r.id ∷ s.written;
}

-- The deferred calls behind the reply: its key is removed, and its context is cancelled.
unfoldable pub end_request : Json → Running → List Running → List Running → Serving → Serving
unfolding finish_request registered_key
end_request json r before after s = record s {
  running = before ++ after;
  registry = finish_request (registered_key json r.id) s.registry;
  cancelled = r.number ∷ s.cancelled;
}

-- The input fails or the context of the server is cancelled.
unfoldable pub cancel_requests : Serving → Serving
unfolding cancel_all
cancel_requests s = record s { cancelled = cancel_all s.registry s.cancelled }

-- The steps of the server, in any order: a line is read, all requests are cancelled, or one of the
-- requests that run writes its reply, or ends behind it.
pub data Step (json : Json) : Serving → Serving → Type 0 where
  read_line : (line : Text) (s : Serving) → Step json s (receive_line json line s)
  cancel_every : (s : Serving) → Step json s (cancel_requests s)
  replies :
      (s : Serving) (r : Running) (before after : List Running)
      → s.running ≡ before ++ r ∷ after
      → r.replied ≡ false
      → Step json s (write_reply r before after s)
  ends :
      (s : Serving) (r : Running) (before after : List Running)
      → s.running ≡ before ++ r ∷ after
      → r.replied ≡ true
      → Step json s (end_request json r before after s)

pub data Steps (json : Json) : Serving → Serving → Type 0 where
  stay : (s : Serving) → Steps json s s
  also : (s t u : Serving) → Steps json s t → Step json t u → Steps json s u
