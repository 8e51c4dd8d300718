-- ===== src/Server/Token.antt =====
-- loadOrCreateToken of backend/internal/server/auth.go. `trim_space` is strings.TrimSpace.
use dropboy.Base.{
  Text, text_eq, codes, ◌==◌, if◌then◌else◌, true, Option, none, some, [], ◌∷◌, ◌++◌, length, leb,
  ◌≤◌, ◌≡◌, refl, ◌∙◌, arith, inl, inr, hex_encode, join_path, ◌*◌, Bool-cases, ==-refl,
}
use dropboy.Base.Outcome.{Exec, ok, pure, trying, ◌>>=◌, ◌>>◌}
use dropboy.Os.{Os, IsReliable}

-- A token from the file, if it is long enough.
abbrev pub long_token : (Text → Text) → Option Text → Option Text
long_token trim_space none = none
long_token trim_space (some content) =
    let t = trim_space content in if leb 32 (length t) then some t else none

module _ (X : Os) (trim_space : Text → Text) where
  abbrev pub create_token : Text → Exec X.State Text
  create_token p = do
    buf ← X.random 32
    X.write_file p (hex_encode buf ++ codes "\n") 0o600
    pure (hex_encode buf)

  abbrev pub token_or_new : Text → Option Text → Exec X.State Text
  token_or_new p none = create_token p
  token_or_new p (some t) = pure t

  unfoldable pub load_or_create_token : Text → Exec X.State Text
  load_or_create_token dir = do
    X.mkdir_all dir 0o700
    found ← trying (X.read_file (join_path dir (codes "ui.token")))
    token_or_new (join_path dir (codes "ui.token")) (long_token trim_space found)

length-hex_encode : (b : Text) → length (hex_encode b) ≡ 2 * length b
unfolding hex_encode
length-hex_encode [] = refl
length-hex_encode (c ∷ b) = omega (arith, length-hex_encode b)

module _ (X : Os) (trim_space : Text → Text) (R : IsReliable X) where
  fresh_token :
      (p : Text) (s : X.State)
      → ((b : Text) → trim_space (hex_encode b ++ codes "\n") ≡ hex_encode b)
      → (token : Text) × (t : X.State) × (create_token X trim_space p s ≡ (ok token, t))
        × (length token ≡ 64)
        × (trim_space (token ++ codes "\n") ≡ token)
        × ((q : Text)
            → R.content t q ≡ (if q == p then some (token ++ codes "\n") else R.content s q))
  fresh_token p s trims =
      let (buf, s₁, e₁, n₁, c₁) = R.random s 32 in
      let (s₂, e₂, c₂) = R.write_file s₁ p (hex_encode buf ++ codes "\n") 0o600 in
      (
        hex_encode buf,
        s₂,
        rw (e₁, e₂) refl,
        omega (arith, length-hex_encode buf, n₁),
        trims buf,
        λ q. c₂ q ∙ rw c₁,
      )

  -- A token that is in the file is given out, and nothing changes.
  stored_token :
      (dir c : Text) (s : X.State)
      → R.content s (join_path dir (codes "ui.token")) ≡ some c
      → leb 32 (length (trim_space c)) ≡ true
      → (t : X.State) × (load_or_create_token X trim_space dir s ≡ (ok (trim_space c), t))
        × ((q : Text) → R.content t q ≡ R.content s q)
  unfolding load_or_create_token
  stored_token dir c s h long =
      let (s₁, e₁, c₁) = R.mkdir_all s dir 0o700 in
      (s₁, rw (e₁, R.read_file s₁ _ c (c₁ _ ∙ h), long) refl, c₁)

  -- Where no call fails, TrimSpace takes the newline off hex digits, and there is a file for the token,
  -- whatever is in it: the token has at least 32 bytes, and the next start gives out the same.
  pub load_or_create_token-stable :
      (dir c : Text) (s : X.State)
      → ((b : Text) → trim_space (hex_encode b ++ codes "\n") ≡ hex_encode b)
      → R.content s (join_path dir (codes "ui.token")) ≡ some c
      → (token : Text) × (t u : X.State) × (load_or_create_token X trim_space dir s ≡ (ok token, t))
        × (32 ≤ length token)
        × (load_or_create_token X trim_space dir t ≡ (ok token, u))
  load_or_create_token-stable dir c s trims h = elim (Bool-cases (leb 32 (length (trim_space c)))) [
    | inl long ↦
        let (t, e, same) = stored_token dir c s h long in
        let (u, e', _) = stored_token dir c t (same _ ∙ h) long in
        (trim_space c, t, u, e, ground arith, e')
    | inr short ↦
        let p = join_path dir (codes "ui.token") in
        let (s₁, e₁, c₁) = R.mkdir_all s dir 0o700 in
        let (token, t, e, n, trim, content) = fresh_token p s₁ trims in
        let (u, e', _) =
          stored_token dir (token ++ codes "\n") t (content p ∙ rw (==-refl p)) (rw (trim, n)) in
        (
          token,
          t,
          u,
          unfold load_or_create_token in rw (e₁, R.read_file s₁ p c (c₁ p ∙ h), short) e,
          omega (arith, n),
          rw trim at e',
        )
  ]
