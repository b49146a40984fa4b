-- ===== src/Config/Files.antt =====
-- config/env.go, and in config.go the reading of a configuration file.
-- `os.LookupEnv`, the variables of the `.env` file (none if it cannot be read), `os.Stat`,
-- `os.ReadFile`, `strings.ToLower`, `strconv.Atoi` and the parsers of JSON and YAML are parameters;
-- a parser gets the configuration that it fills in. The two regular expressions of
-- `substituteEnvVars` are written out as automata.
use Prim.Native.Char.{Char, code}
use Prim.Native.String.{len, slice, ◌++◌ as concat}
use webtracker.Shared.{
  ℕ, ◌-◌, Bool, true, false, not, ◌&&◌, ◌||◌, Option, none, some, String, if◌then◌else◌, leb, ◌==◌,
  str_eq,
}
use webtracker.Shared.Int.{ℤ}
use webtracker.Shared.Errors.{Result, ok, err}
use webtracker.Shared.Effects.{in_context}
use webtracker.Config.{Config, default_config}

pub record Sources : Type 0 where
  pub os_env : String → Option String
  pub dot_env : String → Option String
  pub exists : String → Bool
  pub read_file : String → Result String
  pub from_json : String → Config → Result Config
  pub from_yaml : String → Config → Result Config
  pub atoi : String → Result ℤ
  pub to_lower : String → String

-- How far a match has come: not begun, at the `$`, or in the name, with what was read of it.
pub data Match : Type 0 where
  outside at_dollar : Match
  in_name : String → Match

abbrev pub text_of : Char → String
text_of c = String.◌∷◌ c ""

abbrev pub is_char : ℕ → Char → Bool
is_char n c = code c == n

-- [A-Za-z_]
abbrev pub starts_name : Char → Bool
starts_name c =
    (leb b'A' (code c) && leb (code c) b'Z')
    || (leb b'a' (code c) && leb (code c) b'z')
    || is_char b'_' c

-- [A-Za-z0-9_]
abbrev pub continues_name : Char → Bool
continues_name c = starts_name c || (leb b'0' (code c) && leb (code c) b'9')

-- One pass over a text, with what each state puts out for a character, and at the end.
pub record Automaton : Type 0 where
  pub next : Match → Char → Match
  pub out : Match → Char → String
  pub at_end : Match → String

unfoldable pub rewrite : Automaton → Match → String → String
rewrite a m String.[] = a.at_end m
rewrite a m (String.◌∷◌ c s) = concat (a.out m c) (rewrite a (a.next m c) s)

unfoldable pub brace_next : Match → Char → Match
brace_next outside c = if is_char b'$' c then at_dollar else outside
brace_next at_dollar c =
    if is_char b'$' c then at_dollar else if is_char b'{' c then in_name "" else outside
brace_next (in_name name) c = if is_char b'}' c then outside else in_name (concat name (text_of c))

unfoldable pub name_next : Match → Char → Match
name_next outside c = if is_char b'$' c then at_dollar else outside
name_next at_dollar c =
    if is_char b'$' c then at_dollar else if starts_name c then in_name (text_of c) else outside
name_next (in_name name) c =
    if continues_name c
    then in_name (concat name (text_of c))
    else if is_char b'$' c
    then at_dollar
    else outside

module _ (src : Sources) where
  unfoldable pub lookup_env : String → Option String
  lookup_env key = elim (src.os_env key) [ some value ↦ some value | none ↦ src.dot_env key ]

  unfoldable pub get_env : String → String
  get_env key = elim (lookup_env key) [ some value ↦ value | none ↦ "" ]

  unfoldable pub has_env : String → Bool
  has_env key = elim (lookup_env key) [ some value ↦ true | none ↦ false ]

  -- What a match is replaced by.
  unfoldable pub value_or : String → String → String
  value_or name whole = if str_eq (get_env name) "" then whole else get_env name

  unfoldable pub brace_out : Match → Char → String
  unfolding value_or
  brace_out outside c = if is_char b'$' c then "" else text_of c
  brace_out at_dollar c =
      if is_char b'$' c then "$" else if is_char b'{' c then "" else concat "$" (text_of c)
  brace_out (in_name name) c =
      if not (is_char b'}' c)
      then ""
      else if str_eq name ""
      then "${}"
      else value_or name (concat "${" (concat name "}"))

  unfoldable pub name_out : Match → Char → String
  unfolding value_or
  name_out outside c = if is_char b'$' c then "" else text_of c
  name_out at_dollar c =
      if is_char b'$' c then "$" else if starts_name c then "" else concat "$" (text_of c)
  name_out (in_name name) c =
      if continues_name c
      then ""
      else concat (value_or name (concat "$" name)) (if is_char b'$' c then "" else text_of c)

  abbrev brace_end : Match → String
  brace_end outside = ""
  brace_end at_dollar = "$"
  brace_end (in_name name) = concat "${" name

  abbrev name_end : Match → String
  name_end outside = ""
  name_end at_dollar = "$"
  name_end (in_name name) = value_or name (concat "$" name)

  -- `\$\{([^}]+)\}`
  abbrev pub braces : Automaton
  braces = record { next = brace_next; out = brace_out; at_end = brace_end }

  -- `\$([A-Za-z_][A-Za-z0-9_]*)`
  abbrev pub names : Automaton
  names = record { next = name_next; out = name_out; at_end = name_end }

  unfoldable pub substitute_env_vars : String → String
  unfolding rewrite brace_next brace_out name_next name_out
  substitute_env_vars content = rewrite names outside (rewrite braces outside content)

  abbrev pub has_suffix : String → String → Bool
  has_suffix s suffix =
      leb (len suffix) (len s) && str_eq (slice s (len s - len suffix) (len s)) suffix

  abbrev parsed : String → String → Result Config
  parsed filename content =
      if has_suffix (src.to_lower filename) ".json"
      then in_context (concat "failed to parse JSON config file " filename)
          (src.from_json content default_config)
      else in_context (concat "failed to parse YAML config file " filename)
          (src.from_yaml content default_config)

  abbrev read_config : String → Result String → Result Config
  read_config filename (err e) = err e
  read_config filename (ok content) = parsed filename (substitute_env_vars content)

  unfoldable pub load_from_file : String → Result Config
  unfolding substitute_env_vars
  load_from_file filename =
      read_config filename
        (in_context (concat "failed to read config file " filename) (src.read_file filename))
