-- ===== src/Client/Commands.antt =====
-- main.rs: which command lines run a command.
use mehoy_malloy_ai_runtime.Common.{◌≡◌, refl, ◌∙◌, Option, none, some, List, [], ◌∷◌, ok}
use mehoy_malloy_ai_runtime.Common.Text.{Text, text_eq, starts_with}
use mehoy_malloy_ai_runtime.Client.{
  Command, health, runtime, run, endpoint_flag, health_word, runtime_word, classify_argument,
  parse_from, parse_args,
}

-- The options that name endpoints, one after another, and then more arguments.
abbrev pub endpoint_args : List Text → List Text → List Text
endpoint_args [] rest = rest
endpoint_args (e ∷ es) rest = endpoint_flag ∷ e ∷ endpoint_args es rest

-- The last of some endpoints, if there is one, and otherwise the one from before.
abbrev pub last_endpoint : Option Text → List Text → Option Text
last_endpoint before [] = before
last_endpoint before (e ∷ es) = last_endpoint (some e) es

abbrev pub command_word : Command → Text
command_word health = health_word
command_word runtime = runtime_word

options-parse :
    (es rest : List Text) (endpoint : Option Text) (command : Option Command)
    → parse_from (endpoint_args es rest) endpoint command
      ≡ parse_from rest (last_endpoint endpoint es) command
unfolding parse_from classify_argument text_eq starts_with
options-parse [] rest endpoint command = refl
options-parse (e ∷ es) rest endpoint command = options-parse es rest (some e) command

word-parse :
    (c : Command) (rest : List Text) (endpoint : Option Text)
    → parse_from (command_word c ∷ rest) endpoint none ≡ parse_from rest endpoint (some c)
unfolding parse_from classify_argument text_eq starts_with
word-parse health [] endpoint = refl
word-parse health (arg ∷ rest) endpoint = refl
word-parse runtime [] endpoint = refl
word-parse runtime (arg ∷ rest) endpoint = refl

-- A command line with one command is run wherever its endpoints stand, before the command or behind
-- it, and the last endpoint given is the one that is used, whatever its text.
pub parse_args-command :
    (c : Command) (before behind : List Text)
    → parse_args (endpoint_args before (command_word c ∷ endpoint_args behind []))
      ≡ ok (run c (last_endpoint (last_endpoint none before) behind))
unfolding parse_args parse_from
parse_args-command c before behind =
    options-parse before (command_word c ∷ endpoint_args behind []) none none
    ∙ word-parse c (endpoint_args behind []) (last_endpoint none before)
    ∙ options-parse behind [] (last_endpoint none before) (some c)
    ∙ finished c (last_endpoint (last_endpoint none before) behind)
  where
    finished : (c : Command) (e : Option Text) → parse_from [] e (some c) ≡ ok (run c e)
    finished c e = refl
