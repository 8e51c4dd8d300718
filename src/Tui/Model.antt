-- ===== src/Tui/Model.antt =====
-- The state of the shell and its update function, backend/internal/tui/model.go. `TextInput` is the
-- field of bubbles/textinput. The counters of the status line, which nothing sets, are left out.
pub mod Cursor
use dropboy.Base.{
  ℕ, zero, suc, ◌+◌, ◌-◌, Text, text_eq, nat_eq, codes, ◌==◌, if◌then◌else◌, Bool, true, false, not,
  ◌&&◌, ◌||◌, Option, none, some, List, [], ◌∷◌, ◌++◌, length, ltb, leb, has_prefix,
}
use dropboy.Base.Outcome.{Exec, Outcome, ok, err, panic, Error}
use dropboy.Os.{Os}
use dropboy.Config.{Config}
use dropboy.Config.Files.{Yaml, load}
use dropboy.Tui.Commands.{Terminal, catalog, all_commands, builtin}

pub record TextInput : Type 1 where
  pub State : Type 0
  pub Key : Type 0
  pub new : State
  pub value : State → Text
  pub set_value : Text → State → State
  pub cursor_end : State → State
  -- sets Width to the window's width less 4
  pub fit : ℕ → State → State
  -- the messages, and what Update makes of one that the shell does not answer by itself
  pub resized : ℕ → ℕ → Key
  pub update : Key → State → State

pub data LineKind : Type 0 where
  input : LineKind
  output : LineKind
  error : LineKind
  info : LineKind

pub record HistoryLine : Type 0 where
  pub kind : LineKind
  pub text : Text

-- tea.Msg
pub data Msg (I : TextInput) : Type 0 where
  window_size : ℕ → ℕ → Msg I
  leave : Msg I
  enter : Msg I
  tab : Msg I
  up : Msg I
  down : Msg I
  other_message : I.Key → Msg I

-- The element at an index; out of range is a panic.
abbrev pub index : List Text → ℕ → Outcome Text
index [] i = panic
index (x ∷ xs) zero = ok x
index (x ∷ xs) (suc i) = index xs i

-- computeSuggestion over the commands that are left
unfoldable pub first_match : Text → List (Text × Text) → Text
first_match prefix [] = []
first_match prefix ((name, help) ∷ rest) =
    let later = first_match prefix rest in
    if has_prefix name prefix && not (name == prefix) then name else later

module _ (T : Terminal) where
  unfoldable pub compute_suggestion : Text → Text
  unfolding first_match
  compute_suggestion prefix =
      if not (has_prefix prefix (codes "/")) || prefix == codes "/"
      then []
      else first_match prefix (all_commands T)

module _ (I : TextInput) where
  -- past_cursor is none for -1.
  pub record Model : Type 0 where
    pub input : I.State
    pub history : List HistoryLine
    pub past_cmds : List Text
    pub past_cursor : Option ℕ
    pub suggest : Text
    pub width : ℕ
    pub height : ℕ
    pub bucket_label : Text
    pub quit : Bool

  abbrev pub say : LineKind → Text → Model → Model
  say kind text m = record m { history = m.history ++ record { kind = kind; text = text } ∷ [] }

  module _ (T : Terminal) (X : Os) (Y : Yaml) (home : Exec X.State Text) where
    -- The middle dot in UTF-8.
    abbrev pub label_of : Config → Text
    label_of cfg =
        cfg.bucket
        ++ (b' '
            ∷ 0xC2
            ∷ 0xB7
            ∷ b' '
            ∷ (cfg.region ++ (b' ' ∷ 0xC2 ∷ 0xB7 ∷ b' ' ∷ cfg.machine_id)))

    abbrev pub start_with : Text → Text → Model
    start_with label bucket = record {
      input = I.new;
      history = record { kind = info; text = codes "Welcome. " ++ bucket } ∷ [];
      past_cmds = [];
      past_cursor = none;
      suggest = [];
      width = 0;
      height = 0;
      bucket_label = label;
      quit = false;
    }

    abbrev pub not_set_up : Text
    not_set_up = codes "not configured " ++ (0xE2 ∷ 0x80 ∷ 0x94 ∷ codes " /help")

    abbrev pub model_of : Outcome Config → Outcome Model
    model_of (ok cfg) =
        ok (start_with (if cfg.bucket == [] then not_set_up else label_of cfg) cfg.bucket)
    model_of (err e) = ok (start_with not_set_up [])
    model_of panic = panic

    -- initialModel
    unfoldable pub initial_model : Exec X.State Model
    initial_model s = let (r, s') = load X Y home s in (model_of r, s')

    -- What handleLine does with what a command returns.
    abbrev pub report : Outcome Text → Model → Outcome Model
    report (ok out) m = ok (say output out m)
    report (err e) m = ok (say error (T.error_text e) m)
    report panic m = panic

    abbrev pub run_builtin :
        Text
        → Option (Option (List Text → Exec X.State Text))
        → List Text
        → Model
        → Exec X.State Model
    run_builtin name none args m s = (
      ok (
          say error
            (codes "unknown command: "
              ++ (name ++ (codes "  (try " ++ (T.cmd_style (codes "/help") ++ codes ")"))))
            m),
      s,
    )
    run_builtin name (some none) args m s = (ok m, s)
    run_builtin name (some (some run)) args m s = let (r, s') = run args s in (report r m, s')

    -- fields[0] of a line, and the rest; of a line without fields it is out of range.
    abbrev pub run_fields : List Text → Model → Exec X.State Model
    run_fields [] m s = (panic, s)
    run_fields (name ∷ args) m s =
        if name == codes "/exit" || name == codes "/quit"
        then (ok (record (say info (codes "bye") m) { quit = true }), s)
        else if name == codes "/clear"
        then (ok (record m { history = [] }), s)
        else run_builtin name (builtin T X Y home name) args m s

    unfoldable pub handle_line : Text → Model → Exec X.State Model
    handle_line line m s =
        let said = say LineKind.input line m in
        if not (has_prefix line (codes "/"))
        then (
          ok (
              say info
                (codes "I only speak in slash commands today. Try "
                  ++ (T.cmd_style (codes "/help") ++ codes "."))
                said),
          s,
        )
        else run_fields (T.fields line) said s

    -- What Update returns: the model, and whether the command is tea.Quit.
    abbrev pub Updated : Type 0
    Updated = Model × Bool

    abbrev pub with_value : Model → Outcome Text → Outcome Updated
    with_value m (ok v) = ok (record m { input = I.cursor_end (I.set_value v m.input) }, false)
    with_value m (err e) = err e
    with_value m panic = panic

    -- The index that the up key moves to.
    abbrev pub earlier : ℕ → Option ℕ → ℕ
    earlier count none = count - 1
    earlier count (some i) = i - 1

    -- The case of the down key.
    abbrev pub move_down : Model → Option ℕ → Outcome Updated
    move_down m none = ok (m, false)
    move_down m (some i) =
        if leb (length m.past_cmds) (suc i)
        then ok (record m { past_cursor = none; input = I.set_value [] m.input }, false)
        else with_value (record m { past_cursor = some (suc i) }) (index m.past_cmds (suc i))

    -- The model after a line, which says by its field whether to quit.
    abbrev pub quitting : Outcome Model → Outcome Updated
    quitting (ok m) = ok (m, m.quit)
    quitting (err e) = err e
    quitting panic = panic

    -- The default case, and what follows the switch.
    abbrev pub retyped : Model → I.State → Updated
    retyped m field =
        (record m { input = field; suggest = compute_suggestion T (I.value field) }, false)

    unfoldable pub update : Msg I → Model → Exec X.State Updated
    update (window_size w h) m s =
        let sized = record m { width = w; height = h; input = I.fit w m.input } in
        (ok (retyped sized (I.update (I.resized w h) sized.input)), s)
    update leave m s = (ok (m, true), s)
    update enter m s =
        let line = T.trim_space (I.value m.input) in
        let cleared = record m { input = I.set_value [] m.input; suggest = [] } in
        if line == []
        then (ok (cleared, false), s)
        else let (r, s') =
            handle_line line
              (record cleared { past_cmds = m.past_cmds ++ line ∷ []; past_cursor = none }) s in
          (quitting r, s')
    update tab m s =
        if not (m.suggest == [])
        then (
          ok (
            record m { input = I.cursor_end (I.set_value m.suggest m.input); suggest = [] },
            false,
          ),
          s,
        )
        else (ok (m, false), s)
    update up m s =
        if length m.past_cmds == 0
        then (ok (m, false), s)
        else let i = earlier (length m.past_cmds) m.past_cursor in
          (with_value (record m { past_cursor = some i }) (index m.past_cmds i), s)
    update down m s = (move_down m m.past_cursor, s)
    update (other_message k) m s = (ok (retyped m (I.update k m.input)), s)
