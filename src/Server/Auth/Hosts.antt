-- ===== src/Server/Auth/Hosts.antt =====
-- Which Host headers pass.
use dropboy.Base.{
  ℤ, Text, text_eq, nat_eq, codes, true, false, [], ◌∷◌, ◌++◌, contains, ◌≡◌, refl, arith, ◌⊎◌, ◌↔◌,
  ap, inl, inr, ◌==◌, Bool-cases, eq_of_==,
}
use dropboy.Server.Auth.{before_colon, host_allowed}

-- What stands before the first colon has no colon in it.
contains-before_colon : (host : Text) → contains (before_colon host) b':' ≡ false
unfolding before_colon
contains-before_colon [] = refl
contains-before_colon (c ∷ host) = ground (arith, contains-before_colon host)

bare_ipv6 : (host : Text) → ¬ (before_colon host ≡ codes "::1")
unfolding nat_eq
bare_ipv6 host e = cc (ap (λ (t : Text). contains t b':') e, contains-before_colon host)

before_colon_v4 : (p : Text) → before_colon (codes "127.0.0.1:" ++ p) ≡ codes "127.0.0.1"
unfolding before_colon
before_colon_v4 p = refl

before_colon_name : (p : Text) → before_colon (codes "localhost:" ++ p) ≡ codes "localhost"
unfolding before_colon
before_colon_name p = refl

-- The name itself, or the name with a colon and any text for a port.
abbrev pub Named : Text → Text → Type 0
Named name host = (host ≡ name) ⊎ ((port : Text) × (host ≡ name ++ (codes ":" ++ port)))

before_colon-split : (host : Text) → Named (before_colon host) host
unfolding before_colon nat_eq
before_colon-split [] = inl refl
before_colon-split (c ∷ host) = elim (Bool-cases (c == b':')) [
  | inl colon ↦ rw colon (inr (host, ap (λ d. d ∷ host) (eq_of_== c b':' colon)))
  | inr other ↦ rw other (elim (before_colon-split host) [
    | inl whole ↦ inl (ap (λ t. c ∷ t) whole)
    | inr (port, cut) ↦ inr (port, ap (λ t. c ∷ t) cut)
  ])
]

before_colon-Named : (name host : Text) → before_colon host ≡ name → Named name host
before_colon-Named name host e = rw e at (before_colon-split host)

Named-v4 : (host : Text) → Named (codes "127.0.0.1") host → before_colon host ≡ codes "127.0.0.1"
unfolding before_colon nat_eq
Named-v4 host (inl e) = rw e refl
Named-v4 host (inr (port, e)) = rw e refl

Named-localhost :
    (host : Text) → Named (codes "localhost") host → before_colon host ≡ codes "localhost"
unfolding before_colon nat_eq
Named-localhost host (inl e) = rw e refl
Named-localhost host (inr (port, e)) = rw e refl

-- The names under which a request may come: a loopback name, or the IPv6 loopback address with the
-- server's own port.
pub IsLoopback : Text → Text → Type 0
IsLoopback p host =
    Named (codes "127.0.0.1") host ⊎ Named (codes "localhost") host ⊎ (host ≡ codes "[::1]:" ++ p)

module _ (format_int : ℤ → Text) (port : ℤ) (host : Text) where
  host_allowed-before_colon : (host_allowed format_int port host ≡ true) ↔ (
      (before_colon host ≡ codes "127.0.0.1")
      ⊎ (before_colon host ≡ codes "localhost")
      ⊎ (host ≡ codes "[::1]:" ++ format_int port))
  unfolding host_allowed
  host_allowed-before_colon = (
    λ h. ground (
      arith,
      bare_ipv6 host,
      before_colon_v4 (format_int port),
      before_colon_name (format_int port),
    ),
    λ h. ground arith,
  )

  -- A host passes exactly if it is 127.0.0.1 or localhost, alone or with a colon and any text after
  -- it, or [::1] with the server's port. The third bare name in the code, ::1, lets nothing through.
  pub host_allowed-IsLoopback :
      (host_allowed format_int port host ≡ true) ↔ IsLoopback (format_int port) host
  unfolding IsLoopback
  host_allowed-IsLoopback = (
    λ h. elim (host_allowed-before_colon.0 h) [
      | inl v4 ↦ inl (before_colon-Named (codes "127.0.0.1") host v4)
      | inr (inl name) ↦ inr (inl (before_colon-Named (codes "localhost") host name))
      | inr (inr v6) ↦ inr (inr v6)
    ],
    λ allowed. host_allowed-before_colon.1 (elim allowed [
      | inl v4 ↦ inl (Named-v4 host v4)
      | inr (inl name) ↦ inr (inl (Named-localhost host name))
      | inr (inr v6) ↦ inr (inr v6)
    ]),
  )
