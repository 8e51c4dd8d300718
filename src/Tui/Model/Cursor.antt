-- ===== src/Tui/Model/Cursor.antt =====
-- The cursor into the past commands stays inside them, so that no key reads out of range.
use dropboy.Base.{
  ℕ, zero, suc, ◌<◌, Text, text_eq, nat_eq, codes, ◌==◌, Bool, false, ◌||◌, Option, none, some,
  List, [], ◌∷◌, ◌++◌, length, leb, ◌≡◌, refl, arith, has_prefix, inl, inr, Bool-cases, ap,
}
use dropboy.Base.Outcome.{Exec, Outcome, ok, err, panic}
use dropboy.Os.{Os}
use dropboy.Config.{Config}
use dropboy.Config.Files.{Yaml, load}
use dropboy.Tui.Commands.{Terminal, builtin}
use dropboy.Tui.Model.{
  TextInput, LineKind, Msg, window_size, leave, enter, tab, up, down, other_message, index, Model,
  say, initial_model, model_of, handle_line, report, run_builtin, run_fields, with_value, earlier,
  move_down, quitting, update,
}

abbrev IsWithin : List Text → Option ℕ → Type 0
IsWithin past none = Unit {0}
IsWithin past (some i) = i < length past

index-eq-ok : (xs : List Text) (i : ℕ) → i < length xs → (x : Text) × (index xs i ≡ ok x)
index-eq-ok [] i h = absurd (omega arith)
index-eq-ok (x ∷ xs) zero h = (x, refl)
index-eq-ok (x ∷ xs) (suc i) h = index-eq-ok xs i (omega arith)

module _ (I : TextInput) where
  pub IsValid : Model I → Type 0
  IsValid m = IsWithin m.past_cmds m.past_cursor

  -- Only a command that is entered may panic, and nothing returns an error.
  abbrev pub MayPanic : Msg I → Type 0
  MayPanic enter = Unit {0}
  MayPanic _ = ⊥

  abbrev pub Fine : Msg I → Outcome (Model I × Bool) → Type 0
  Fine msg (ok (m, quits)) = IsValid m
  Fine msg (err e) = ⊥
  Fine msg panic = MayPanic msg

  module _ (T : Terminal) (X : Os) (Y : Yaml) (home : Exec X.State Text) where
    with_value-Fine :
        (msg : Msg I) (m : Model I) (v : Outcome Text) (x : Text)
        → v ≡ ok x
        → IsValid m
        → Fine msg (with_value I T X Y home m v)
    unfolding IsValid
    with_value-Fine msg m v x e h = rw e h

    -- A line leaves the past commands and the cursor as they are.
    Stays : Model I → Outcome (Model I) → Type 0
    Stays m (ok n) = (n.past_cmds ≡ m.past_cmds) × (n.past_cursor ≡ m.past_cursor)
    Stays m (err e) = ⊥
    Stays m panic = Unit {0}

    report-Stays : (m : Model I) (r : Outcome Text) → Stays m (report I T X Y home r m)
    unfolding Stays
    report-Stays m (ok out) = (refl, refl)
    report-Stays m (err e) = (refl, refl)
    report-Stays m panic = tt

    run_builtin-Stays :
        (name : Text) (run : Option (Option (List Text → Exec X.State Text))) (args : List Text)
        (m : Model I) (s : X.State)
        → Stays m (run_builtin I T X Y home name run args m s).0
    unfolding Stays
    run_builtin-Stays name none args m s = (refl, refl)
    run_builtin-Stays name (some none) args m s = (refl, refl)
    run_builtin-Stays name (some (some run)) args m s = report-Stays m (run args s).0

    run_fields-Stays :
        (fields : List Text) (m : Model I) (s : X.State)
        → Stays m (run_fields I T X Y home fields m s).0
    unfolding Stays
    run_fields-Stays [] m s = tt
    run_fields-Stays (name ∷ args) m s =
        elim (Bool-cases (name == codes "/exit" || name == codes "/quit")) [
          | inl leaving ↦ rw leaving (refl, refl)
          | inr staying ↦ rw staying (elim (Bool-cases (name == codes "/clear")) [
            | inl cleared ↦ rw cleared (refl, refl)
            | inr other ↦ rw other (run_builtin-Stays name (builtin T X Y home name) args m s)
          ])
        ]

    handle_line-Stays :
        (line : Text) (m : Model I) (s : X.State) → Stays m (handle_line I T X Y home line m s).0
    unfolding handle_line Stays
    handle_line-Stays line m s = elim (Bool-cases (has_prefix line (codes "/"))) [
      | inl slash ↦ rw slash (run_fields-Stays (T.fields line) (say I LineKind.input line m) s)
      | inr plain ↦ rw plain (refl, refl)
    ]

    quitting-Fine :
        (m : Model I) (r : Outcome (Model I))
        → IsValid m
        → Stays m r
        → Fine enter (quitting I T X Y home r)
    unfolding Stays IsValid
    quitting-Fine m (ok n) h (past, cursor) = rw (past, cursor) h
    quitting-Fine m (err e) h k = k
    quitting-Fine m panic h k = tt

    move_down-Fine :
        (m : Model I) (c : Option ℕ)
        → m.past_cursor ≡ c
        → IsValid m
        → Fine down (move_down I T X Y home m c)
    unfolding IsValid
    move_down-Fine m none e h = h
    move_down-Fine m (some i) e h = elim (Bool-cases (leb (length m.past_cmds) (suc i))) [
      | inl past ↦ rw past tt
      | inr more ↦
          let inside : suc i < length m.past_cmds = ground arith in
          let (x, found) = index-eq-ok m.past_cmds (suc i) inside in rw (more, found) inside
    ]

    earlier-lt :
        (past : List Text) (c : Option ℕ)
        → (length past == 0) ≡ false
        → IsWithin past c
        → earlier I T X Y home (length past) c < length past
    earlier-lt past none n h = ground arith
    earlier-lt past (some i) n h = omega arith

    update-Fine :
        (msg : Msg I) (m : Model I) (s : X.State)
        → IsValid m
        → Fine msg (update I T X Y home msg m s).0
    unfolding update IsValid
    update-Fine (window_size w h) m s v = v
    update-Fine leave m s v = v
    update-Fine enter m s v = elim (Bool-cases (T.trim_space (I.value m.input) == [])) [
      | inl blank ↦ rw blank v
      | inr typed ↦
          let line = T.trim_space (I.value m.input) in
          let next : Model I = record m {
            input = I.set_value [] m.input;
            suggest = [];
            past_cmds = m.past_cmds ++ line ∷ [];
            past_cursor = none;
          } in
          rw typed (quitting-Fine next _ tt (handle_line-Stays line next s))
    ]
    update-Fine tab m s v = elim (Bool-cases (m.suggest == [])) [
      | inl nothing ↦ rw nothing v
      | inr some_text ↦ rw some_text v
    ]
    update-Fine up m s v = elim (Bool-cases (length m.past_cmds == 0)) [
      | inl fresh ↦ rw fresh v
      | inr used ↦
          let inside = earlier-lt m.past_cmds m.past_cursor used v in
          let (x, found) = index-eq-ok m.past_cmds _ inside in rw (used, found) inside
    ]
    update-Fine down m s v = move_down-Fine m m.past_cursor refl v
    update-Fine (other_message k) m s v = v

    -- The models of a session: the first, and what each message makes of one.
    pub data Reach : Model I → Type 0 where
      starts : {m : Model I} (s : X.State) → (initial_model I T X Y home s).0 ≡ ok m → Reach m
      reads :
          {m n : Model I} {quits : Bool} (msg : Msg I) (s : X.State)
          → Reach m
          → (update I T X Y home msg m s).0 ≡ ok (n, quits)
          → Reach n

    abbrev cursor_of : Outcome (Model I) → Option ℕ
    cursor_of (ok m) = m.past_cursor
    cursor_of (err e) = none
    cursor_of panic = none

    starts-IsValid : (r : Outcome Config) (m : Model I) → model_of I T X Y home r ≡ ok m → IsValid m
    unfolding IsValid
    starts-IsValid (ok cfg) m e = rw (← ap cursor_of e) tt
    starts-IsValid (err x) m e = rw (← ap cursor_of e) tt
    starts-IsValid panic m e = ground arith

    Reach-IsValid : (m : Model I) → Reach m → IsValid m
    unfolding initial_model
    Reach-IsValid m (starts s e) = starts-IsValid (load X Y home s).0 m e
    Reach-IsValid m (reads {m = before} msg s r e) =
        rw e at (update-Fine msg before s (Reach-IsValid before r))

    -- In any session, after any messages, the next message returns a model whose cursor into the past
    -- commands is inside them. No message returns an error, and none panics but a line that is entered.
    pub Reach-Fine :
        (m : Model I) (msg : Msg I) (s : X.State)
        → Reach m
        → Fine msg (update I T X Y home msg m s).0
    Reach-Fine m msg s r = update-Fine msg m s (Reach-IsValid m r)
