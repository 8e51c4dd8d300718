-- ===== src/Service/Reading.antt =====
-- What launchd and systemd read of the files that an installation writes: the command that they run.
use dropboy.Base.{
  Text, text_eq, nat_eq, codes, ◌==◌, if◌then◌else◌, false, Option, none, some, List, [], ◌∷◌, ◌++◌,
  ◌≡◌, refl, ap, ◌∙◌, arith, contains, has_prefix, trim_prefix, ==-comm, ℕ, Bool-cases, inl, inr,
}
use dropboy.Service.Launchd.{lines_of, plist}
use dropboy.Service.Systemd.{unit}

-- The value of a key of a unit file.
unfoldable pub value_of : Text → List Text → Option Text
value_of key [] = none
value_of key (l ∷ ls) =
    let later = value_of key ls in if has_prefix l key then some (trim_prefix l key) else later

unfoldable pub before_tag : Text → Text
before_tag [] = []
before_tag (c ∷ s) = let rest = before_tag s in if c == b'<' then [] else c ∷ rest

-- The strings of the lines before the end of an array.
unfoldable pub array_items : List Text → List Text
unfolding before_tag
array_items [] = []
array_items (l ∷ ls) =
    let rest = array_items ls in
    if l == codes "    </array>"
    then []
    else before_tag (trim_prefix l (codes "        <string>")) ∷ rest

-- The strings of the first array of a property list.
unfoldable pub first_array : List Text → List Text
unfolding array_items
first_array [] = []
first_array (l ∷ ls) =
    let later = first_array ls in if l == codes "    <array>" then array_items ls else later

lines_of-cons : (s : Text) → (first : Text) × (rest : List Text) × (lines_of s ≡ first ∷ rest)
unfolding lines_of
lines_of-cons [] = ([], [], refl)
lines_of-cons (c ∷ s) =
    let (first, rest, e) = lines_of-cons s in
    elim (Bool-cases (c == b'\n')) [
      | inl end ↦ ([], first ∷ rest, rw (e, end) refl)
      | inr other ↦ (c ∷ first, rest, rw (e, other) refl)
    ]

-- A line without a newline in it.
lines_of-line :
    (x rest : Text)
    → contains x b'\n' ≡ false
    → lines_of ((x ++ codes "\n") ++ rest) ≡ x ∷ lines_of rest
unfolding lines_of nat_eq
lines_of-line [] rest h = let (first, others, e) = lines_of-cons rest in rw e refl
lines_of-line (c ∷ x) rest h =
    let (inside, other) = apart c x h in rw (lines_of-line x rest inside) (rw other refl)
  where
    apart :
        (c : ℕ) (x : Text)
        → contains (c ∷ x) b'\n' ≡ false
        → (contains x b'\n' ≡ false) × ((c == b'\n') ≡ false)
    apart c x h = (ground (arith, h), ==-comm c b'\n' ∙ ground (arith, h))

abbrev written : List Text → Text
written [] = []
written (x ∷ xs) = (x ++ codes "\n") ++ written xs

abbrev AreLines : List Text → Type 0
AreLines [] = Unit {0}
AreLines (x ∷ xs) = (contains x b'\n' ≡ false) × AreLines xs

lines_of-written : (xs : List Text) → AreLines xs → lines_of (written xs) ≡ xs ++ [] ∷ []
unfolding lines_of
lines_of-written [] h = refl
lines_of-written (x ∷ xs) (h, hs) =
    lines_of-line x (written xs) h ∙ ap (λ (l : List Text). x ∷ l) (lines_of-written xs hs)

contains-append :
    (a b : Text) (c : ℕ) → contains a c ≡ false → contains b c ≡ false → contains (a ++ b) c ≡ false
contains-append [] b c ha hb = hb
contains-append (x ∷ a) b c ha hb = ground (arith, contains-append a b c)

before_tag-append : (a b : Text) → contains a b'<' ≡ false → before_tag (a ++ (codes "<" ++ b)) ≡ a
unfolding before_tag nat_eq
before_tag-append [] b h = refl
before_tag-append (c ∷ a) b h =
    let same = before_tag-append a b (ground (arith, h)) in
    let other : (c == b'<') ≡ false = ==-comm c b'<' ∙ ground (arith, h) in rw (same, other) refl

-- The lines of the unit of a program.
abbrev unit_lines : Text → List Text
unit_lines binary =
    codes "[Unit]"
    ∷ codes "Description=dropboy continuous S3 sync"
    ∷ codes "After=network-online.target"
    ∷ codes "Wants=network-online.target"
    ∷ []
    ∷ codes "[Service]"
    ∷ codes "Type=simple"
    ∷ (codes "ExecStart=" ++ (binary ++ codes " start --foreground"))
    ∷ codes "Restart=always"
    ∷ codes "RestartSec=5"
    ∷ codes "Environment=PATH=/usr/local/bin:/usr/bin:/bin"
    ∷ []
    ∷ codes "[Install]"
    ∷ codes "WantedBy=default.target"
    ∷ []

unit-written : (binary : Text) → unit binary ≡ written (unit_lines binary)
unfolding unit
unit-written binary = refl

unit_lines-AreLines : (binary : Text) → contains binary b'\n' ≡ false → AreLines (unit_lines binary)
unfolding nat_eq
unit_lines-AreLines binary h =
    ground (arith, contains-append binary (codes " start --foreground") b'\n' h refl)

-- The unit starts the program in the foreground.
pub value_of-unit :
    (binary : Text)
    → contains binary b'\n' ≡ false
    → value_of (codes "ExecStart=") (lines_of (unit binary))
      ≡ some (binary ++ codes " start --foreground")
unfolding value_of has_prefix trim_prefix text_eq nat_eq
value_of-unit binary h =
    rw (unit-written binary)
      (rw (lines_of-written (unit_lines binary) (unit_lines-AreLines binary h)) refl)

-- The lines of the property list of a program.
abbrev plist_lines : Text → Text → Text → List Text
plist_lines label binary log_dir =
    codes "<?xml version=\"1.0\" encoding=\"UTF-8\"?>"
    ∷ codes
        "<!DOCTYPE plist PUBLIC \"-//Apple//DTD PLIST 1.0//EN\" \"http://www.apple.com/DTD/PropertyList-1.0.dtd\">"
    ∷ codes "<plist version=\"1.0\">"
    ∷ codes "<dict>"
    ∷ (codes "    <key>Label</key><string>" ++ (label ++ codes "</string>"))
    ∷ codes "    <key>ProgramArguments</key>"
    ∷ codes "    <array>"
    ∷ (codes "        <string>" ++ (binary ++ codes "</string>"))
    ∷ codes "        <string>start</string>"
    ∷ codes "        <string>--foreground</string>"
    ∷ codes "    </array>"
    ∷ codes "    <key>RunAtLoad</key><true/>"
    ∷ codes "    <key>KeepAlive</key><true/>"
    ∷ codes "    <key>ProcessType</key><string>Background</string>"
    ∷ (codes "    <key>StandardOutPath</key><string>" ++ (log_dir ++ codes "/dropboy.log</string>"))
    ∷ (codes "    <key>StandardErrorPath</key><string>"
        ++ (log_dir ++ codes "/dropboy.log</string>"))
    ∷ codes "    <key>EnvironmentVariables</key>"
    ∷ codes "    <dict>"
    ∷ codes "        <key>PATH</key><string>/usr/local/bin:/usr/bin:/bin:/opt/homebrew/bin</string>"
    ∷ codes "    </dict>"
    ∷ codes "</dict>"
    ∷ codes "</plist>"
    ∷ []

plist-written :
    (label binary log_dir : Text)
    → plist label binary log_dir ≡ written (plist_lines label binary log_dir)
unfolding plist
plist-written label binary log_dir = refl

plist_lines-AreLines :
    (label binary log_dir : Text)
    → contains label b'\n' ≡ false
    → contains binary b'\n' ≡ false
    → contains log_dir b'\n' ≡ false
    → AreLines (plist_lines label binary log_dir)
unfolding nat_eq
plist_lines-AreLines label binary log_dir hl hb hd = ground (
  arith,
  contains-append label (codes "</string>") b'\n' hl refl,
  contains-append binary (codes "</string>") b'\n' hb refl,
  contains-append log_dir (codes "/dropboy.log</string>") b'\n' hd refl,
)

-- The property list starts the program in the foreground.
pub first_array-plist :
    (label binary log_dir : Text)
    → contains label b'\n' ≡ false
    → contains binary b'\n' ≡ false
    → contains log_dir b'\n' ≡ false
    → contains binary b'<' ≡ false
    → first_array (lines_of (plist label binary log_dir))
      ≡ binary ∷ codes "start" ∷ codes "--foreground" ∷ []
unfolding first_array array_items has_prefix trim_prefix text_eq nat_eq before_tag
first_array-plist label binary log_dir hl hb hd tagless = rw (plist-written label binary log_dir) (
    rw
      (lines_of-written (plist_lines label binary log_dir)
        (plist_lines-AreLines label binary log_dir hl hb hd))
      (ap (λ (program : Text). program ∷ codes "start" ∷ codes "--foreground" ∷ [])
        (before_tag-append binary (codes "/string>") tagless)))
