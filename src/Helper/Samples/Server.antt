-- ===== src/Helper/Samples/Server.antt =====
-- A run of the server with two requests, and its theorems at it.
use gitgit.Prelude.{◌≡◌, refl, true, false, none, some, [], ◌∷◌}
use gitgit.Text.{Text, lit, text_eq, is_empty, trim_space}
use gitgit.Assoc.{get, put}
use gitgit.Helper.Server.{
  Json, json_number, Request, Serving, registered_key, request_id_key, valid_request_id,
  register_cancellation, start_request, decode_request, receive_request, receive_line, new_server,
  Steps, read_line, stay, also,
}
use gitgit.Helper.Server.Registry.{IsRefined}
use gitgit.Helper.Server.Refinement.{Steps-IsRefined}

-- JSON in which a line is a request: its first byte and its id, and the method `refs.list`.
abbrev request_line : Text → Request
request_line line = record {
  json_rpc = lit "2.0";
  id = line;
  method = lit "refs.list";
  params = [];
}

abbrev json : Json
json = record {
  is_valid = λ t. true;
  decode_value = λ t. some (json_number t);
  decode_message = λ t. some (request_line t);
  decode_cancel = λ t. none;
}

-- Two requests are read, and the second has the id of the first: it is refused. Then the first is
-- replied to.
abbrev one_line : Text
one_line = lit "{1"

abbrev after_one : Serving
after_one = receive_line json one_line new_server

abbrev after_two : Serving
after_two = receive_line json one_line after_one

two-Steps : Steps json new_server after_two
two-Steps =
    also _ _ _ (also _ _ _ (stay _) (read_line one_line new_server)) (read_line one_line after_one)

-- One request runs, and the other was refused.
one_runs : after_two.running ≡ record { number = 0; id = one_line; replied = false } ∷ []
unfolding receive_line receive_request decode_request start_request register_cancellation
    registered_key request_id_key valid_request_id new_server is_empty trim_space text_eq lit get
    put
one_runs = refl

Steps-IsRefined_example : IsRefined json after_two
Steps-IsRefined_example = Steps-IsRefined json after_two two-Steps
