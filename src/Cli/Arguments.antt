-- ===== src/Cli/Arguments.antt =====
-- src/main.rs: the arguments of a command.
use Prim.Native.String.{String}
use platarium_core.Base.{Option, none, some, Result, ok, err}
use platarium_core.Data.Parse.{strip_prefix, trim_text}

-- `read` is `std::fs::read_to_string`. Only the test for the `@` trims.
unfoldable pub resolve_cli_json_arg : (String → Result String) → String → Result String
unfolding strip_prefix
resolve_cli_json_arg read s = elim (strip_prefix "@" (trim_text s)) [
  | some path ↦ read path
  | none ↦ ok s
]

-- `map` of `read_to_string` over an optional path
abbrev pub read_optional : (String → Result String) → Option String → Result (Option String)
read_optional read none = ok none
read_optional read (some path) = elim (read path) [ err e ↦ err e | ok text ↦ ok (some text) ]
