-- ===== src/Locale.antt =====
-- internal/locale/locale.go. The two tables of messages and `fmt.Sprintf` are arguments of `t`.
use jira_bot.Base.{
  List, [], ◌∷◌, Option, none, some, if◌then◌else◌, Text, text_eq, ◌==◌, lookup, codes,
}

pub data Lang : Type 0 where
  en ru : Lang

abbrev pub default_lang : Lang
default_lang = en

unfoldable pub from_text : Text → Lang
from_text s = if s == codes "en" then en else if s == codes "ru" then ru else default_lang

abbrev text_or_empty : Option Text → Text
text_or_empty none = []
text_or_empty (some s) = s

-- The template of a language, or else the default language's.
template : (Lang → List (Text × Text)) → Lang → Text → Text
template translations lang key = elim (lookup key (translations lang)) [
  | none ↦ text_or_empty (lookup key (translations default_lang))
  | some tmpl ↦ tmpl
]

with_args : (Text → List Text → Text) → Text → Text → List Text → Text
with_args sprintf key [] args = key
with_args sprintf key (c ∷ s) [] = c ∷ s
with_args sprintf key (c ∷ s) (a ∷ args) = sprintf (c ∷ s) (a ∷ args)

pub t : (Lang → List (Text × Text)) → (Text → List Text → Text) → Lang → Text → List Text → Text
unfolding template with_args
t translations sprintf lang key args = with_args sprintf key (template translations lang key) args
