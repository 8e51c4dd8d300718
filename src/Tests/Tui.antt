-- ===== src/Tests/Tui.antt =====
-- Concrete runs of the shell.
use dropboy.Base.{Text, text_eq, codes, Bool, false, any, has_prefix, [], ◌∷◌, ◌++◌, ◌≡◌, refl, ◌⊎◌}
use dropboy.Base.Dict.{Dict, lookup}
use dropboy.Base.Outcome.{Exec, ok}
use dropboy.Config
use dropboy.Config.Files.{Yaml, load}
use dropboy.Tui.Commands.{Terminal, all_commands, catalog}
use dropboy.Tui.Model.{
  TextInput, enter, up, Model, start_with, not_set_up, other_message, say, LineKind, info,
  handle_line, compute_suggestion, initial_model, update,
}
use dropboy.Tui.Model.Cursor.{Fine, Reach, starts, reads, Reach-Fine}
use dropboy.Tui.Completion.{Found, compute_suggestion-Found}
use dropboy.Tests.Memory.{memory_os}

-- A terminal without styles, on which every line is one field.
abbrev plain : Terminal
plain = record {
  title_style = λ s. s;
  cmd_style = λ s. s;
  hint_style = λ s. s;
  arg_style = λ s. s;
  ok_style = λ s. s;
  warn_style = λ s. s;
  error_style = λ s. s;
  format_int = λ n. n ∷ [];
  pad = λ n s. s;
  error_text = λ e. codes "error";
  trim_space = λ s. s;
  fields = λ s. s ∷ [];
  join = λ sep parts. [];
  sort_by_name = λ cmds. cmds;
}

-- A field that is its text, into which a key is put at the end.
abbrev field : TextInput
field = record {
  State = Text;
  Key = Text;
  new = [];
  value = λ s. s;
  set_value = λ t s. t;
  cursor_end = λ s. s;
  fit = λ w s. s;
  resized = λ w h. [];
  update = λ k s. s ++ k;
}

abbrev constant_yaml : Yaml
constant_yaml = record {
  marshal = λ cfg. ok (codes "default");
  unmarshal = λ text old. ok Config.default;
}

abbrev home : Exec (Dict Text) Text
home s = (ok (codes "/h"), s)

abbrev first_model : Model field
first_model =
    start_with field plain memory_os constant_yaml home
      (not_set_up field plain memory_os constant_yaml home) []

first_model_reached : Reach field plain memory_os constant_yaml home first_model
unfolding initial_model load lookup
first_model_reached = starts [] refl

-- After "hi" and the return key, the shell has a past command.
abbrev typed : Model field
typed = record first_model { input = codes "hi" }

abbrev entered : Model field
entered =
    record (say field info (codes "I only speak in slash commands today. Try /help.")
      (say field LineKind.input (codes "hi") first_model)) { past_cmds = codes "hi" ∷ [] }

entered_reached : Reach field plain memory_os constant_yaml home entered
unfolding update compute_suggestion handle_line has_prefix text_eq
entered_reached =
    reads enter [] (reads {n = typed} (other_message (codes "hi")) [] first_model_reached refl) refl

Reach-Fine_example : Fine field up (update field plain memory_os constant_yaml home up entered []).0
Reach-Fine_example =
    Reach-Fine field plain memory_os constant_yaml home entered up [] entered_reached

sorted : (p : Text × Text → Bool) → any p (all_commands plain) ≡ any p catalog
unfolding all_commands
sorted p = refl

compute_suggestion-Found_example :
    ((compute_suggestion plain (codes "/he") ≡ [])
      × ((codes "/he" ≡ codes "/") ⊎ (has_prefix (codes "/he") (codes "/") ≡ false)))
    ⊎ Found catalog (codes "/he") (compute_suggestion plain (codes "/he"))
compute_suggestion-Found_example = compute_suggestion-Found plain (codes "/he") sorted
