-- ===== src/Tui/View.antt =====
-- What the shell draws: View and statusLine of backend/internal/tui/model.go, and app.go. `Layout` is
-- what they take of lipgloss beside the styles, of bubbles/textinput and of package version.
-- Widths are natural numbers: a box in a window narrower than two columns has the width 0 here.
use dropboy.Base.{
  ℕ, ◌-◌, ◌+◌, zero, suc, Text, text_eq, nat_eq, codes, ◌==◌, if◌then◌else◌, not, ◌&&◌, ltb,
  has_prefix, trim_prefix, Option, none, some, List, [], ◌∷◌, ◌++◌,
}
use dropboy.Base.Outcome.{Exec, ok, pure, trying, ◌>>=◌}
use dropboy.Os.{Os}
use dropboy.Config.{Config}
use dropboy.Config.Files.{Yaml, load}
use dropboy.Tui.Commands.{Terminal, trim_newlines}
use dropboy.Tui.Model.{TextInput, input, output, error, info, HistoryLine, Model}

pub record Layout : Type 0 where
  pub prompt_style : Text → Text
  pub section_title_style : Text → Text
  pub subtitle_style : Text → Text
  pub mascot_style : Text → Text
  -- boxes of a width, or of their own
  pub box : ℕ → Text → Text
  pub welcome_box : Option ℕ → Text → Text
  pub status_bar : ℕ → Text → Text
  -- an empty cell of a width
  pub cell : ℕ → Text
  pub width : Text → ℕ
  -- aligned at the top, and at the left
  pub join_horizontal : List Text → Text
  pub join_vertical : List Text → Text
  pub version : Text

-- user.Current, os.Getwd and os.UserHomeDir
pub record Session (S : Type 0) : Type 0 where
  pub user : Exec S Text
  pub directory : Exec S Text
  pub home : Exec S Text

abbrev newline : Text
newline = b'\n' ∷ []

abbrev dot : Text
dot = 0x20 ∷ 0xC2 ∷ 0xB7 ∷ 0x20 ∷ []

-- strings.Join of lines
lines : List Text → Text
lines [] = []
lines (t ∷ []) = t
lines (t ∷ u ∷ ts) = t ++ (newline ++ lines (u ∷ ts))

-- strings.Repeat(" ", n)
spaces : ℕ → Text
spaces zero = []
spaces (suc n) = b' ' ∷ spaces n

-- The path with the home directory that is known.
abbrev pub compact : Option Text → Text → Text
compact none p = p
compact (some h) p = if has_prefix p h then codes "~" ++ trim_prefix p h else p

module _ {S : Type 0} (U : Session S) where
  unfoldable pub compact_path : Text → Exec S Text
  compact_path p = do h ← trying U.home; pure (compact h p)

  -- The user's name, where there is one.
  name_of : Option Text → Text
  name_of none = codes "there"
  name_of (some u) = if u == [] then codes "there" else u

module _ (T : Terminal) where
  abbrev render_line : (L : Layout) → HistoryLine → Text
  render_line L l = elim l.kind [
    | input ↦
        L.prompt_style (0xE2 ∷ 0x80 ∷ 0xBA ∷ []) ++ (codes " " ++ (T.arg_style l.text ++ newline))
    | output ↦ l.text ++ newline
    | error ↦ T.error_style ((0xE2 ∷ 0x9C ∷ 0x97 ∷ b' ' ∷ []) ++ l.text) ++ newline
    | info ↦ T.hint_style l.text ++ newline
  ]

  module _ (L : Layout) where
    rendered : List HistoryLine → Text
    rendered [] = []
    rendered (l ∷ history) = render_line L l ++ rendered history

    unfoldable pub render_history : List HistoryLine → Text
    unfolding rendered
    render_history history = trim_newlines (rendered history)

    right_panel : Text
    unfolding lines
    right_panel = L.join_vertical (
        L.section_title_style (codes "Tips for getting started")
        ∷ lines (
            (codes "Run " ++ (T.cmd_style (codes "/init") ++ codes " to scaffold a config"))
            ∷ (codes "Use " ++ (T.cmd_style (codes "/add <path>") ++ codes " to watch a folder"))
            ∷ (codes "Run " ++ (T.cmd_style (codes "/doctor") ++ codes " to verify your setup"))
            ∷ [])
        ∷ []
        ∷ L.section_title_style (codes "What's new")
        ∷ lines (
            codes "Interactive shell with slash commands and tab-complete"
            ∷ codes "Envelope encryption (AES-256-GCM) for files at rest"
            ∷ (codes "Local UI on " ++ T.cmd_style (codes "http://127.0.0.1:7777"))
            ∷ T.hint_style (codes "/help for the full command list")
            ∷ [])
        ∷ [])

    bucket_of : Option Config → Text
    bucket_of none = codes "not configured"
    bucket_of (some cfg) =
        if cfg.bucket == [] then codes "not configured" else cfg.bucket ++ (dot ++ cfg.region)

    abbrev text_or_empty : Option Text → Text
    text_or_empty none = []
    text_or_empty (some t) = t

    module _ (X : Os) (Y : Yaml) (U : Session X.State) where
      left_panel : Exec X.State Text
      unfolding compact_path name_of bucket_of lines
      left_panel = do
        u ← trying U.user
        cwd ← trying U.directory
        shown ← compact_path U (text_or_empty cwd)
        cfg ← trying (load X Y U.home)
        pure (
            L.join_vertical (
              (L.section_title_style (codes "dropboy ")
                ++ L.subtitle_style (codes "v" ++ L.version))
              ∷ []
              ∷ L.mascot_style (
                  lines (
                    codes "  ______   "
                    ∷ codes " /     /|  "
                    ∷ codes "/_____/ |  "
                    ∷ codes "|     | /  "
                    ∷ codes "|_____|/   "
                    ∷ []))
              ∷ []
              ∷ T.title_style (codes "Welcome back " ++ (name_of U u ++ codes "!"))
              ∷ L.subtitle_style
                  (codes "self-hosted cloud drive" ++ (dot ++ codes "your bucket, your keys"))
              ∷ []
              ∷ (T.hint_style (codes "bucket: ") ++ T.arg_style (bucket_of cfg))
              ∷ T.hint_style shown
              ∷ []))

      unfoldable pub banner : ℕ → Exec X.State Text
      unfolding left_panel right_panel
      banner width = do
        left ← left_panel
        let inner = L.join_horizontal (left ∷ L.cell 4 ∷ right_panel ∷ [])
        pure (L.welcome_box (if ltb 4 width then some (width - 2) else none) inner)

      module _ (I : TextInput) (field : I.State → Text) where
        -- The counters, which nothing sets, are at their start.
        unfoldable pub status_line : Model I → Text
        unfolding spaces
        status_line m =
            let left = codes " " ++ (m.bucket_label ++ codes " ") in
            let right =
              (0xE2 ∷ 0x86 ∷ 0x91 ∷ codes "0 ")
              ++ ((0xE2 ∷ 0x86 ∷ 0x93 ∷ codes "0")
                  ++ (dot ++ (codes "0 KB/s" ++ (dot ++ codes "running ")))) in
            let room = m.width - (L.width left + L.width right) in
            L.status_bar m.width (left ++ (spaces (if ltb room 1 then 1 else room) ++ right))

        -- The prompt with the rest of the suggestion.
        prompt_of : Model I → Text
        prompt_of m =
            let shown = L.prompt_style (0xE2 ∷ 0x80 ∷ 0xBA ∷ []) ++ (codes " " ++ field m.input) in
            if not (m.suggest == []) && has_prefix m.suggest (I.value m.input)
            then shown ++ T.hint_style (trim_prefix m.suggest (I.value m.input))
            else shown

        drawn : Model I → Text → Text
        unfolding status_line prompt_of render_history
        drawn m top =
            let body = render_history m.history in
            let below =
              L.box (m.width - 2) (prompt_of m)
              ∷ T.hint_style (
                  codes "? for shortcuts"
                  ++ (dot ++ (codes "tab to autocomplete" ++ (dot ++ codes "esc to exit"))))
              ∷ status_line m
              ∷ [] in
            L.join_vertical (top ∷ [] ∷ (if body == [] then below else body ∷ [] ∷ below))

        unfoldable pub view : Model I → Exec X.State Text
        unfolding drawn
        view m s =
            if m.width == 0 then (ok [], s) else (do top ← banner m.width; pure (drawn m top)) s
