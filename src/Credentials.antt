-- ===== src/Credentials.antt =====
-- src/runner_observability/credentials.py: the token file. Its content is given as `Path.read_text`
-- reads it, stripped; `none` is an OSError or a UnicodeError.
use runner_observability.Base.{
  String, Bool, false, ◌||◌, Option, none, some, Result, ok, err, string_eq, ◌==◌, if◌then◌else◌,
}
use Prim.Native.Char.{code}
use runner_observability.Base.{nat_eq}

-- "\n" in value or "\r" in value
unfoldable pub has_line_break : String → Bool
has_line_break String.[] = false
has_line_break (String.◌∷◌ c s) = nat_eq (code c) 10 || nat_eq (code c) 13 || has_line_break s

unfoldable pub read_token_file : Option String → Result String String
unfolding has_line_break
read_token_file none = err "auth_credential_file_missing"
read_token_file (some value) =
    if value == ""
    then err "auth_credential_invalid"
    else if has_line_break value
    then err "auth_credential_invalid"
    else ok value
