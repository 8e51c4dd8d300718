-- ===== src/Tui/Completion.antt =====
-- What the shell suggests.
use dropboy.Base.{
  Text, text_eq, nat_eq, codes, ◌==◌, if◌then◌else◌, Bool, true, false, not, ◌&&◌, ◌||◌, List, [],
  ◌∷◌, ◌≡◌, refl, arith, has_prefix, any, sym, ◌∙◌, inl, inr, Bool-cases, ==-refl, ◌⊎◌, eq_of_==,
}
use dropboy.Tui.Commands.{Terminal, catalog, all_commands}
use dropboy.Tui.Model.{first_match, compute_suggestion}

-- Whether a listed command has the name.
unfoldable pub called : Text → Text × Text → Bool
called name (n, _) = n == name

-- The suggestion for a text: a listed name that goes on from it.
unfoldable pub Completes : List (Text × Text) → Text → Text → Type 0
Completes cmds prefix name =
    (any (called name) cmds ≡ true) × (has_prefix name prefix ≡ true) × ((name == prefix) ≡ false)

-- Whether a name goes on from the text.
unfoldable pub goes_on : Text → Text × Text → Bool
goes_on prefix (name, _) = has_prefix name prefix && not (name == prefix)

-- What a look through the commands gives.
unfoldable pub Found : List (Text × Text) → Text → Text → Type 0
Found cmds prefix name =
    ((name ≡ []) × (any (goes_on prefix) cmds ≡ false)) ⊎ Completes cmds prefix name

or_right : (a b : Bool) → b ≡ true → (a || b) ≡ true
or_right a b h = ground arith

or_false : (a b : Bool) → a ≡ false → b ≡ false → (a || b) ≡ false
or_false a b h k = ground arith

or_left : (a b : Bool) → a ≡ true → (a || b) ≡ true
or_left a b h = ground arith

Found-here :
    (prefix name help : Text) (rest : List (Text × Text))
    → goes_on prefix (name, help) ≡ true
    → Found ((name, help) ∷ rest) prefix name
unfolding Found Completes goes_on called
Found-here prefix name help rest h = inr (or_left _ _ (==-refl name), ground arith, ground arith)

Found-later :
    (prefix name : Text) (c : Text × Text) (rest : List (Text × Text))
    → goes_on prefix c ≡ false
    → Found rest prefix name
    → Found (c ∷ rest) prefix name
unfolding Found Completes
Found-later prefix name c rest h (inl (empty, nothing)) = inl (empty, or_false _ _ h nothing)
Found-later prefix name c rest h (inr (listed, begins, longer)) =
    inr (or_right _ _ listed, begins, longer)

first_match-here :
    (prefix name help : Text) (rest : List (Text × Text))
    → goes_on prefix (name, help) ≡ true
    → first_match prefix ((name, help) ∷ rest) ≡ name
unfolding first_match goes_on
first_match-here prefix name help rest h = rw h refl

first_match-later :
    (prefix name help : Text) (rest : List (Text × Text))
    → goes_on prefix (name, help) ≡ false
    → first_match prefix ((name, help) ∷ rest) ≡ first_match prefix rest
unfolding first_match goes_on
first_match-later prefix name help rest h = rw h refl

no_command-Found : (prefix : Text) → Found [] prefix (first_match prefix [])
unfolding Found first_match
no_command-Found prefix = inl (refl, refl)

first_match-Found :
    (prefix : Text) (cmds : List (Text × Text)) → Found cmds prefix (first_match prefix cmds)
first_match-Found prefix [] = no_command-Found prefix
first_match-Found prefix ((name, help) ∷ rest) = elim (Bool-cases (goes_on prefix (name, help))) [
  | inl fits ↦ rw (first_match-here prefix name help rest fits) (Found-here _ _ _ _ fits)
  | inr other ↦
      rw (first_match-later prefix name help rest other)
        (Found-later _ _ _ _ other (first_match-Found prefix rest))
]

Found-kept :
    (sorted cmds : List (Text × Text)) (prefix name : Text)
    → ((p : Text × Text → Bool) → any p sorted ≡ any p cmds)
    → Found sorted prefix name
    → Found cmds prefix name
unfolding Found Completes
Found-kept sorted cmds prefix name kept (inl (empty, nothing)) =
    inl (empty, sym (kept (goes_on prefix)) ∙ nothing)
Found-kept sorted cmds prefix name kept (inr (listed, begins, longer)) =
    inr (sym (kept (called name)) ∙ listed, begins, longer)

always_silent : (b : Bool) (found : Text) → (if b || true then [] else found) ≡ []
always_silent true found = refl
always_silent false found = refl

module _ (T : Terminal) where
  compute_suggestion-plain :
      (prefix : Text) → has_prefix prefix (codes "/") ≡ false → compute_suggestion T prefix ≡ []
  unfolding compute_suggestion
  compute_suggestion-plain prefix h = rw h refl

  compute_suggestion-bare :
      (prefix : Text) → (prefix == codes "/") ≡ true → compute_suggestion T prefix ≡ []
  unfolding compute_suggestion
  compute_suggestion-bare prefix h = rw h (always_silent (not (has_prefix prefix (codes "/"))) _)

  compute_suggestion-further :
      (prefix : Text)
      → has_prefix prefix (codes "/") ≡ true
      → (prefix == codes "/") ≡ false
      → compute_suggestion T prefix ≡ first_match prefix (all_commands T)
  unfolding compute_suggestion
  compute_suggestion-further prefix h k = rw h (rw k refl)

  -- Where sorting the catalog keeps the tests that some entry passes, the shell suggests nothing for
  -- a text that is just a slash or does not begin with one, and else either suggests nothing, and
  -- then no catalog name goes on from the text, or suggests a catalog name that begins with the text
  -- and differs from it.
  pub compute_suggestion-Found :
      (prefix : Text)
      → ((p : Text × Text → Bool) → any p (all_commands T) ≡ any p catalog)
      → ((compute_suggestion T prefix ≡ [])
          × ((prefix ≡ codes "/") ⊎ (has_prefix prefix (codes "/") ≡ false)))
        ⊎ Found catalog prefix (compute_suggestion T prefix)
  unfolding compute_suggestion
  compute_suggestion-Found prefix kept = elim (Bool-cases (has_prefix prefix (codes "/"))) [
    | inr plain ↦ inl (compute_suggestion-plain prefix plain, inr plain)
    | inl slash ↦ elim (Bool-cases (prefix == codes "/")) [
      | inl bare ↦ inl (compute_suggestion-bare prefix bare, inl (eq_of_== prefix (codes "/") bare))
      | inr more ↦
          rw (compute_suggestion-further prefix slash more)
            (inr (Found-kept _ _ prefix _ kept (first_match-Found prefix (all_commands T))))
    ]
  ]
