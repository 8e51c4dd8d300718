-- ===== src/Server/Auth/Guard.antt =====
-- Which requests the middleware lets through, and what happens to the others.
use dropboy.Base.{
  Text, text_eq, codes, ◌==◌, true, not, ◌&&◌, ◌||◌, [], ◌≡◌, refl, arith, ◌⊎◌, inl, inr,
  Bool-cases, eq_of_==, ne_of_==,
}
use dropboy.Base.Dict.{Dict}
use dropboy.Server.Http.{Request, Response, Handler, get_text, write_json_error}
use dropboy.Server.Auth.{is_mutating, presented_token, promote, auth_middleware}

-- The request proves that it knows the session token, twice if it can change something.
pub record Authorized (token : Text) (r : Request) : Type 0 where
  pub ready : ¬ (token ≡ [])
  pub presented : presented_token r ≡ token
  pub csrf : is_mutating r.method ≡ true → get_text (codes "X-Dropboy-CSRF") r.headers ≡ token

-- A response that turns a request away.
abbrev pub IsRefusal : {A : Type 0} → Response A → Type 0
IsRefusal p = (p.status ≡ 503) ⊎ (p.status ≡ 401) ⊎ (p.status ≡ 403)

module _ {S A : Type 0} (token : Text) (next : Handler S A) (r : Request) (headers : Dict Text)
    (s : S) where
  -- An authorized request reaches the handler, with the session cookie set if the token came in the
  -- query string; any other is refused with 503, 401 or 403, and the state is as it was.
  pub auth_middleware-Authorized :
      (Authorized token r
        × (auth_middleware token next r headers s ≡ next r (promote token r headers) s))
      ⊎ ((¬ Authorized token r)
          × ((auth_middleware token next r headers s).1 ≡ s)
          × IsRefusal (auth_middleware token next r headers s).0)
  unfolding auth_middleware write_json_error
  auth_middleware-Authorized = elim (Bool-cases (token == [])) [
    | inl unset ↦ inr (λ a. a.ready (eq_of_== token [] unset), ground arith, rw unset (inl refl))
    | inr set ↦
        rw set (elim (Bool-cases (presented_token r == [] || not (presented_token r == token))) [
          | inl wrong ↦
              inr (λ a. ground (arith, a.presented, a.ready), rw wrong, rw wrong (inr (inl refl)))
          | inr right ↦
              rw right
                (elim (Bool-cases (
                  is_mutating r.method
                  && not (get_text (codes "X-Dropboy-CSRF") r.headers == token))) [
                    | inl forged ↦
                        inr (λ a. ground (arith, a.csrf), rw forged, rw forged (inr (inr refl)))
                    | inr sound ↦ inl (
                      record {
                        ready = ne_of_== token [] set;
                        presented = ground arith;
                        csrf = λ m. ground arith;
                      },
                      rw sound,
                    )
                  ])
        ])
  ]
