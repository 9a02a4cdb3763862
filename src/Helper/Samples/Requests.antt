-- ===== src/Helper/Samples/Requests.antt =====
-- Requests of the helper at a concrete host, and their theorems.
use gitgit.Prelude.{◌≡◌, refl, true, false, not, ◌&&◌, none, some, [], ◌∷◌, All, pos}
use gitgit.Text.{
  lit, text_eq, is_empty, has_prefix, contains_byte, contains_any, split, cut, trim_space, to_lower,
  equal_fold, join,
}
use gitgit.Text.Search.{index?, contains_text, trim_byte, trim_left_byte}
use gitgit.Path.{is_abs, clean, join_paths, path_elements, written, clean_elements, clean_element}
use gitgit.Apperr.{ok}
use gitgit.Git.Repository.{resolved_or_same}
use gitgit.Search.Options.{
  validate_search_options, is_source, is_join, has_file_predicate, has_file_source, none_of,
}
use gitgit.Helper.Rpc.{answered}
use gitgit.Helper.Rpc.Offline.{KeepsIn, IsReading}
use gitgit.Helper.Revision.{has_control, validate_revision}
use gitgit.Helper.Paths.{
  validate_relative_path, check_location, windows_drive_path, has_bad_component, bad_component,
  path_within, canonical_path, relative_path, relative_elements, stays_inside,
  resolve_existing_ancestor,
}
use gitgit.Helper.Paths.Inside.{IsRequestPath, validate_relative_path-IsRequestPath}
use gitgit.Helper.Web.{
  normalize_web_repository_url, scp_address, ssh_web_host, without_user, is_drive_letter,
  build_web_repository_url, refused_address, web_host_text, web_path_text, without_git_suffix,
  valid_web_host, valid_labels, valid_label, valid_label_rest, ascii_letter_or_digit, https_address,
}
use gitgit.Helper.Web.Address.{IsWebAddress, normalize_web_repository_url-IsWebAddress}
use gitgit.Helper.Handlers.Blame.{BlameLinesParams, BlameLinesResult}
use gitgit.Helper.SearchRun.{
  SearchPattern, SearchRunParams, SearchRequest, search_request, check_pattern_count, search_limit,
  search_context, search_engine, refuse_filter, pattern_predicates_from, pattern_predicate,
  pattern_join, search_scope,
}
use gitgit.Helper.SearchRun.Accepted.{search_request-validate_search_options}
use gitgit.Helper.Server.{Request, json_number}
use gitgit.Helper.Dispatch.{Decoders, handle}
use gitgit.Search.Patterns.{Regexp}
use gitgit.Helper.Dispatch.Reading.{handle-IsReading}
use gitgit.Helper.Samples.History.{host, commit_id}

path_valid : validate_relative_path host (lit "/repo") (lit "src/a.go") ≡ answered (lit "src/a.go")
unfolding validate_relative_path check_location windows_drive_path has_control has_bad_component
    bad_component path_within canonical_path relative_path relative_elements stays_inside
    resolve_existing_ancestor resolved_or_same is_abs clean join_paths path_elements written
    clean_elements clean_element lit text_eq is_empty has_prefix contains_byte split join trim_space
path_valid = refl

validate_relative_path-IsRequestPath_example :
    (lit "src/a.go" ≡ lit "src/a.go") × IsRequestPath host (lit "/repo") (lit "src/a.go")
validate_relative_path-IsRequestPath_example =
    validate_relative_path-IsRequestPath host (lit "/repo") (lit "src/a.go") path_valid

web_address :
    normalize_web_repository_url host (lit "git@github.com:owner/name.git")
    ≡ some (lit "https://github.com/owner/name")
unfolding normalize_web_repository_url scp_address ssh_web_host without_user is_drive_letter
    build_web_repository_url refused_address web_host_text web_path_text without_git_suffix
    valid_web_host valid_labels valid_label valid_label_rest ascii_letter_or_digit https_address
    has_bad_component bad_component contains_text index? trim_byte trim_left_byte lit text_eq
    is_empty has_prefix contains_byte contains_any split cut trim_space to_lower equal_fold
web_address = refl

normalize_web_repository_url-IsWebAddress_example :
    IsWebAddress host (lit "https://github.com/owner/name")
normalize_web_repository_url-IsWebAddress_example =
    normalize_web_repository_url-IsWebAddress host (lit "git@github.com:owner/name.git") web_address

abbrev pattern : SearchPattern
pattern = record {
  source = lit "file";
  value = lit " *.go ";
  joined_by = [];
  open_groups = pos 0;
  open_groups_snake = pos 1;
  close_groups = pos 1;
  close_groups_snake = pos 0;
}

abbrev search_params : SearchRunParams
search_params = record {
  repository_root = lit "/repo";
  repository_root_snake = [];
  repository = [];
  patterns = pattern ∷ [];
  engine = lit " GLOB";
  scope = lit "main";
  all_refs = false;
  all_refs_snake = false;
  author = [];
  since = [];
  until = [];
  follow_rename = false;
  follow_rename_snake = true;
  limit = pos 1000;
  context_lines = pos 0;
}

abbrev made_request : SearchRequest
made_request = record {
  root = lit "/repo";
  scope = lit "main";
  options = record {
    predicates =
        record {
          source = lit "file";
          value = lit "*.go";
          joined_by = [];
          open_groups = pos 1;
          close_groups = pos 1;
        }
        ∷ [];
    messages = [];
    diffs = [];
    files = [];
    engine = lit "glob";
    follow_rename = true;
    revision = lit "main";
    all_refs = false;
    paths = [];
    author = [];
    since = [];
    until = [];
    limit = pos 250;
    context_lines = pos 3;
    omit_result_diff = true;
  };
}

request_made : search_request (some search_params) ≡ answered made_request
unfolding search_request check_pattern_count search_limit search_context search_engine refuse_filter
    pattern_predicates_from pattern_predicate pattern_join search_scope is_source is_join
    has_control validate_revision lit text_eq is_empty has_prefix contains_byte trim_space to_lower
request_made = refl

follows_file :
    (made_request.options.follow_rename && not (has_file_predicate made_request.options)) ≡ false
unfolding has_file_predicate has_file_source none_of lit trim_space equal_fold
follows_file = refl

search_request-validate_search_options_example :
    validate_search_options made_request.options ≡ ok tt
search_request-validate_search_options_example =
    search_request-validate_search_options search_params request_made follows_file

abbrev decoders : Decoders
decoders = record {
  json = record {
    is_valid = λ t. true;
    decode_value = λ t. some (json_number t);
    decode_message = λ t. none;
    decode_cancel = λ t. none;
  };
  protocol_version = λ t. some t;
  is_one = λ t. true;
  discover_path = λ t. some t;
  repository = λ t. some (record { repository_root = lit "/repo"; repository = [] });
  blame = λ t. none;
  history = λ t. none;
  content = λ t. none;
  search = λ t. none;
  diff = λ t. none;
}

abbrev refs_request : Request
refs_request = record {
  json_rpc = lit "2.0";
  id = lit "1";
  method = lit "refs.list";
  params = lit "{\"repositoryRoot\":\"/repo\"}";
}

resolves : KeepsIn host.resolve_git
unfolding KeepsIn
resolves log h = h

abbrev no_regexp : Regexp
no_regexp = record { compile = λ t. ok (λ value. false); quote_meta = λ t. t }

refs_method : text_eq refs_request.method (lit "search.run") ≡ false
unfolding text_eq lit
refs_method = refl

handle-IsReading_example :
    All IsReading (handle host (λ s o. []) decoders no_regexp (λ visited. none) refs_request []).1
handle-IsReading_example =
    handle-IsReading host (λ s o. []) decoders resolves no_regexp (λ visited. none) refs_request
      refs_method [] tt

abbrev blame_params : BlameLinesParams
blame_params = record {
  file_params = record {
    repository_params = record { repository_root = lit "/repo"; repository = [] };
    relative_path = lit "f";
    file = [];
  };
  start_line = pos 1;
  end_line = pos 1;
  revision = [];
  contents = some (lit "x\n");
  ignore_whitespace = false;
}

abbrev blame_result : BlameLinesResult
blame_result = record {
  lines =
      record {
        line = pos 1;
        original_line = pos 1;
        commit = commit_id;
        author = record { name = lit "Ann"; email = [] };
        date = [];
        message = [];
        content = lit "x";
      }
      ∷ [];
  commit_metadata = [];
}
