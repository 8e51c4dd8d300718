-- ===== src/Cli/Init/Asking.antt =====
-- When the questions end.
use dropboy.Base.{
  ℕ, zero, suc, ◌<◌, Text, text_eq, codes, ◌==◌, Bool, true, false, if◌then◌else◌, not, ◌&&◌, ◌||◌,
  any, is_some, length, none, some, List, [], ◌∷◌, ◌≡◌, refl, sym, ap, ◌∙◌, arith, Bool-cases, inl,
  inr,
}
use dropboy.Cli.Init.{Words, prompt, show_recovery_code}

nil-ne-saved : ([] == codes "saved") ≡ false
unfolding text_eq
nil-ne-saved = refl

denied : (b c r : Bool) → (not b && c || r) ≡ false → b ≡ false → c ≡ false
denied b c r h k = ground arith

later_only : (b c r : Bool) → (not b && c || r) ≡ false → r ≡ false
later_only b c r h = ground arith

module _ {S : Type 0} (W : Words S) where
  -- Whether a line confirms the code.
  abbrev pub confirms : Text → Bool
  confirms line = not (W.trim_space line == []) && W.to_lower (W.trim_space line) == codes "saved"

  rest_denies :
      (line : Text) (lines : List Text)
      → any confirms (line ∷ lines) ≡ false
      → any confirms lines ≡ false
  rest_denies line lines h =
      later_only (W.trim_space line == []) (W.to_lower (W.trim_space line) == codes "saved")
        (any confirms lines) h

  prompt-blank :
      (line : Text) (lines : List Text)
      → (W.trim_space line == []) ≡ true
      → prompt W [] true (line ∷ lines) ≡ prompt W [] true lines
  unfolding prompt text_eq
  prompt-blank line lines h = rw h refl

  prompt-answer :
      (line : Text) (lines : List Text)
      → (W.trim_space line == []) ≡ false
      → prompt W [] true (line ∷ lines) ≡ (W.trim_space line, lines)
  unfolding prompt
  prompt-answer line lines h = rw h refl

  -- A blank line is asked for again.
  show_recovery_code-blank :
      (fuel : ℕ) (line : Text) (lines : List Text)
      → (W.trim_space line == []) ≡ true
      → show_recovery_code W fuel (line ∷ lines) ≡ show_recovery_code W fuel lines
  unfolding show_recovery_code
  show_recovery_code-blank zero line lines h = refl
  show_recovery_code-blank (suc fuel) line lines h = rw (prompt-blank line lines h) refl

  show_recovery_code-answer :
      (fuel : ℕ) (line : Text) (lines : List Text)
      → (W.trim_space line == []) ≡ false
      → show_recovery_code W (suc fuel) (line ∷ lines) ≡ (
          if W.to_lower (W.trim_space line) == codes "saved"
          then some lines
          else show_recovery_code W fuel lines)
  unfolding show_recovery_code
  show_recovery_code-answer fuel line lines h = rw (prompt-answer line lines h) refl

  none_at_zero : (lines : List Text) → show_recovery_code W zero lines ≡ none
  unfolding show_recovery_code
  none_at_zero lines = refl

  module _ (lower_nil : W.to_lower [] ≡ []) where
    show_recovery_code-end : (fuel : ℕ) → show_recovery_code W fuel [] ≡ none
    unfolding show_recovery_code prompt
    show_recovery_code-end zero = refl
    show_recovery_code-end (suc fuel) = rw lower_nil (rw nil-ne-saved (show_recovery_code-end fuel))

    asks_on :
        (lines : List Text) (fuel : ℕ)
        → any confirms lines ≡ false
        → show_recovery_code W fuel lines ≡ none
    asks_on [] fuel h = show_recovery_code-end fuel
    asks_on (line ∷ lines) zero h = none_at_zero (line ∷ lines)
    asks_on (line ∷ lines) (suc fuel) h = elim (Bool-cases (W.trim_space line == [])) [
      | inl blank ↦
          show_recovery_code-blank (suc fuel) line lines blank
          ∙ asks_on lines (suc fuel) (rest_denies line lines h)
      | inr answer ↦
          show_recovery_code-answer fuel line lines answer
          ∙ rw
              (denied (W.trim_space line == []) (W.to_lower (W.trim_space line) == codes "saved")
                (any confirms lines) h answer)
              (asks_on lines fuel (rest_denies line lines h))
    ]

    ends :
        (lines : List Text) (fuel : ℕ)
        → any confirms lines ≡ true
        → length lines < fuel
        → is_some (show_recovery_code W fuel lines) ≡ true
    ends lines zero h k = ground arith
    ends [] (suc fuel) h k = ground arith
    ends (line ∷ lines) (suc fuel) h k = elim (Bool-cases (W.trim_space line == [])) [
      | inl blank ↦
          rw (show_recovery_code-blank (suc fuel) line lines blank)
            (ends lines (suc fuel) (ground (arith, h)) (omega arith))
      | inr answer ↦
          rw (show_recovery_code-answer fuel line lines answer)
            (elim (Bool-cases (W.to_lower (W.trim_space line) == codes "saved")) [
              | inl said ↦ rw said refl
              | inr other ↦ rw other (ends lines fuel (ground (arith, h)) (omega arith))
            ])
    ]

    -- Where the lower case of the empty text is empty, showRecoveryCode, once it may ask more questions
    -- than the input has lines, has returned just when one of these lines is not blank and reads
    -- "saved" without its blanks and in lower case; otherwise it asks on.
    pub show_recovery_code-returns :
        (lines : List Text) (fuel : ℕ)
        → length lines < fuel
        → is_some (show_recovery_code W fuel lines) ≡ any confirms lines
    show_recovery_code-returns lines fuel h = elim (Bool-cases (any confirms lines)) [
      | inl said ↦ ends lines fuel said h ∙ sym said
      | inr unsaid ↦ ap is_some (asks_on lines fuel unsaid) ∙ sym unsaid
    ]
