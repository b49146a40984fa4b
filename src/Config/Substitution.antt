-- ===== src/Config/Substitution.antt =====
-- config.go: what the substitution of variables in a configuration file leaves alone.
use Prim.Native.Char.{Char, code}
use Prim.Native.String.{◌++◌ as concat}
use text.Mathlib.TextLemmas.{nil-append, cons-append, append-nil, append_assoc}
use text.Mathlib.TextEquality.{Char-path}
use webtracker.Shared.{
  ◌≡◌, refl, ap, sym, ◌∙◌, Bool, true, false, String, if◌then◌else◌, arith, ==_iff, eq_iff, eq_iff,
}
use webtracker.Config.Files.{
  Sources, Match, outside, at_dollar, in_name, text_of, is_char, starts_name, Automaton, rewrite,
  braces, names, brace_next, brace_out, name_next, name_out, get_env, value_or, substitute_env_vars,
}

text_append : (c : Char) (s : String) → concat (text_of c) s ≡ String.◌∷◌ c s
text_append c s = cons-append c "" s ∙ ap (String.◌∷◌ c) (nil-append s)

char_text : (d c : Char) → is_char (code d) c ≡ true → text_of c ≡ text_of d
char_text d c h = ap text_of (Char-path c d ((==_iff (code c) (code d)).0 h))

-- The character after a `$`, which is a `$` again, or goes on with a match, or neither.
dollar_step :
    (held : Match → String) (again goes_on : Bool) (name : String) (t : String)
    → held outside ≡ ""
    → (again ≡ true → concat "$" (held at_dollar) ≡ concat "$" t)
    → (goes_on ≡ true → held (in_name name) ≡ concat "$" t)
    → concat
        (if again then "$" else if goes_on then "" else concat "$" t)
        (held (if again then at_dollar else if goes_on then in_name name else outside))
      ≡ concat "$" t
dollar_step held true goes_on name t e h k = h refl
dollar_step held false true name t e h k = nil-append _ ∙ k refl
dollar_step held false false name t e h k = ap (concat (concat "$" t)) e ∙ append-nil _

empty_name : (name t : String) → name ≡ "" → t ≡ "}" → concat (concat "${" name) t ≡ "${}"
empty_name name t e h = rw (e, h) refl

-- A pass that only holds text back gives the text again.
pub record Delays (a : Automaton) (held : Match → String) : Type 0 where
  pub steps :
      (m : Match) (c : Char) → concat (a.out m c) (held (a.next m c)) ≡ concat (held m) (text_of c)
  pub ends : (m : Match) → a.at_end m ≡ held m

pub rewrite-Delays :
    (a : Automaton) (held : Match → String)
    → Delays a held
    → (m : Match) (s : String) → rewrite a m s ≡ concat (held m) s
unfolding rewrite
rewrite-Delays a held d m String.[] = d.ends m ∙ sym (append-nil (held m))
rewrite-Delays a held d m (String.◌∷◌ c s) =
    ap (concat (a.out m c)) (rewrite-Delays a held d (a.next m c) s)
    ∙ sym (append_assoc (a.out m c) (held (a.next m c)) s)
    ∙ ap (λ t. concat t s) (d.steps m c)
    ∙ append_assoc (held m) (text_of c) s
    ∙ ap (concat (held m)) (text_append c s)

abbrev brace_held : Match → String
brace_held outside = ""
brace_held at_dollar = "$"
brace_held (in_name name) = concat "${" name

abbrev name_held : Match → String
name_held outside = ""
name_held at_dollar = "$"
name_held (in_name name) = concat "$" name

module _ (src : Sources) (unset : (name : String) → get_env src name ≡ "") where
  value_or_whole : (name whole : String) → value_or src name whole ≡ whole
  unfolding value_or
  value_or_whole name whole = rw (unset name) refl

  brace_steps :
      (m : Match) (c : Char)
      → concat (brace_out src m c) (brace_held (brace_next m c)) ≡ concat (brace_held m) (text_of c)
  unfolding brace_next brace_out
  brace_steps outside c =
      ground (arith, char_text "$" c, nil-append (text_of c), append-nil (text_of c))
  brace_steps at_dollar c =
      dollar_step brace_held (is_char b'$' c) (is_char b'{' c) "" (text_of c) refl
        (λ h. ap (concat "$") (sym (char_text "$" c h)))
        (λ h. ap (concat "$") (sym (char_text "{" c h)))
  brace_steps (in_name name) c = ground (
    arith,
    char_text "}" c,
    value_or_whole name (concat "${" (concat name "}")),
    append-nil (concat "${" (concat name "}")),
    append_assoc "${" name (text_of c),
    append_assoc "${" name "}",
    eq_iff name "",
    nil-append (concat "${" (concat name (text_of c))),
    empty_name name (text_of c),
  )

  braces-Delays : Delays (braces src) brace_held
  braces-Delays = record { steps = brace_steps; ends = λ m. refl }

  name_steps :
      (m : Match) (c : Char)
      → concat (name_out src m c) (name_held (name_next m c)) ≡ concat (name_held m) (text_of c)
  unfolding name_next name_out
  name_steps outside c =
      ground (arith, char_text "$" c, nil-append (text_of c), append-nil (text_of c))
  name_steps at_dollar c =
      dollar_step name_held (is_char b'$' c) (starts_name c) (text_of c) (text_of c) refl
        (λ h. ap (concat "$") (sym (char_text "$" c h))) (λ h. refl)
  name_steps (in_name name) c = ground (
    arith,
    char_text "$" c,
    value_or_whole name (concat "$" name),
    append_assoc "$" name (text_of c),
    nil-append (concat "$" (concat name (text_of c))),
    append-nil (concat (concat "$" name) (text_of c)),
    append-nil (concat "$" name),
  )

  name_ends : (m : Match) → (names src).at_end m ≡ name_held m
  name_ends outside = refl
  name_ends at_dollar = refl
  name_ends (in_name name) = value_or_whole name (concat "$" name)

  names-Delays : Delays (names src) name_held
  names-Delays = record { steps = name_steps; ends = name_ends }

  -- Where no variable is set to a text, the substitution changes nothing.
  pub unset_substitution : (content : String) → substitute_env_vars src content ≡ content
  unfolding substitute_env_vars
  unset_substitution content =
      rewrite-Delays (names src) name_held names-Delays outside _
      ∙ nil-append _
      ∙ rewrite-Delays (braces src) brace_held braces-Delays outside content
      ∙ nil-append content
