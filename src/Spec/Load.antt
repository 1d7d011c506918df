-- ===== src/Spec/Load.antt =====
-- modules_unzipped/endpoint_discovery/endpoint_discovery/parser.py: `from_content`, `from_url` and
-- `from_file`.
use integrated_work_tll.Prelude.{String, ◌&◌, Option, none, some}
use integrated_work_tll.Json.{Json, obj, end}
use integrated_work_tll.Discovery.{Parser, new_parser, add_error}

-- A value that was read, or the text of the exception.
pub data Read : Type 0 where
  value : Json → Read
  failed : String → Read

abbrev pub empty_parser : (error : String) → Parser
empty_parser error = add_error error (new_parser (obj end))

unfoldable pub from_content :
    (loads : String → Read)
    → (safe_load : Option (String → Read)) → (content source_name : String) → Parser
from_content loads safe_load content source_name = elim (loads content) [
  | value data_ ↦ new_parser data_
  | failed e ↦ elim safe_load [
    | none ↦
        empty_parser
          ("Failed to parse " & source_name & " as JSON and YAML support is missing: " & e)
    | some load ↦ elim (load content) [
      | value data_ ↦ new_parser data_
      | failed ye ↦
          empty_parser ("Failed to parse " & source_name & " as JSON or YAML: " & e & ", " & ye)
    ]
  ]
]

-- The text of an address or a file, or the text of the exception.
pub data Loaded : Type 0 where
  loaded : String → Loaded
  load_failed : String → Loaded

-- The client for addresses, the reading of a file, `json.loads`, and `yaml.safe_load`, which is
-- `none` without the library for YAML.
pub record Loader : Type 0 where
  pub get_text : (url : String) → Loaded
  pub read_file : (filepath : String) → Loaded
  pub loads : String → Read
  pub safe_load : Option (String → Read)

unfoldable pub from_url : Loader → (url : String) → Parser
unfolding from_content
from_url loader url = elim (loader.get_text url) [
  | loaded text ↦ from_content loader.loads loader.safe_load text url
  | load_failed e ↦ empty_parser ("Could not fetch URL " & url & ": " & e)
]

unfoldable pub from_file : Loader → (filepath : String) → Parser
unfolding from_content
from_file loader filepath = elim (loader.read_file filepath) [
  | loaded text ↦ from_content loader.loads loader.safe_load text filepath
  | load_failed e ↦ empty_parser ("Could not load file " & filepath & ": " & e)
]
