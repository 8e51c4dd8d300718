-- ===== src/S3/Aws.antt =====
-- backend/internal/s3/client.go: the client that is made of the SDK. What the code calls of the SDK
-- is an interface over an unknown state.
use dropboy.Base.{
  ℕ, zero, suc, Text, text_eq, nat_eq, codes, ◌==◌, if◌then◌else◌, Bool, true, false, ◌||◌, Option,
  none, some, List, [], ◌∷◌, ◌++◌, map,
}
use dropboy.Base.Dict.{Dict}
use dropboy.Base.Outcome.{
  Exec, Done, Outcome, ok, err, panic, Error, message, wrapped, object_not_found, pure, fail,
  continue, ◌>>=◌, wrapping,
}
use dropboy.S3.{Client, Object}
pub mod Reliable

-- What errors.As finds in an error of the SDK. `response` is the ResponseError in it, with the status
-- of its Response where that is not nil.
pub record ApiError : Type 0 where
  pub error : Error
  pub no_such_key : Bool
  pub not_found : Bool
  pub response : Option (Option ℕ)

pub data Reply {ℓ} (A : Type ℓ) : Type ℓ where
  reply : A → Reply A
  failure : ApiError → Reply A

-- A pointer of an output is none where it is nil.
pub record PutOutput : Type 0 where
  pub etag : Option Text
  pub version_id : Option Text

pub record ObjectOutput : Type 0 where
  pub content_length : Option ℕ
  pub etag : Option Text
  pub version_id : Option Text
  pub last_modified : Option ℕ
  pub metadata : Dict Text

pub record Content : Type 0 where
  pub key : Option Text
  pub size : Option ℕ
  pub etag : Option Text
  pub last_modified : Option ℕ

-- The options that LoadDefaultConfig takes. The retryer is the adaptive one, with its attempts.
pub data Loader : Type 0 where
  with_adaptive_retryer : ℕ → Loader
  with_region : Text → Loader
  with_shared_config_profile : Text → Loader

pub record Sdk : Type 1 where
  pub State : Type 0
  pub Pager : Type 0
  pub load_default_config : List Loader → Exec State Done
  -- time.Now().UTC()
  pub now : State → ℕ × State
  -- bucket, key, body, size, metadata
  pub put_object : Text → Text → Text → ℕ → Dict Text → State → Reply PutOutput × State
  -- with what io.ReadAll makes of the body
  pub get_object : Text → Text → State → Reply (Outcome Text × ObjectOutput) × State
  pub head_object : Text → Text → State → Reply ObjectOutput × State
  pub delete_object : Text → Text → State → Reply Done × State
  -- bucket, prefix
  pub new_paginator : Text → Text → Pager
  pub has_more_pages : Pager → Bool
  pub next_page : Pager → State → (Reply (List Content) × Pager) × State

-- strings.Trim(s, `"`)
unfoldable trim_left_quotes : Text → Text
unfolding nat_eq
trim_left_quotes [] = []
trim_left_quotes (c ∷ s) = let rest = trim_left_quotes s in if c == b'"' then rest else c ∷ s

unfoldable trim_right_quotes : Text → Text
unfolding nat_eq
trim_right_quotes [] = []
trim_right_quotes (c ∷ s) = elim (trim_right_quotes s) [
  | [] ↦ if c == b'"' then [] else c ∷ []
  | d ∷ t ↦ c ∷ d ∷ t
]

unfoldable pub trim_quotes : Text → Text
unfolding trim_left_quotes trim_right_quotes
trim_quotes s = trim_right_quotes (trim_left_quotes s)

-- A field that the code sets where the pointer is not nil, and else leaves at its zero value.
abbrev pub text_or_empty : Option Text → Text
text_or_empty none = []
text_or_empty (some s) = s

abbrev pub number_or_zero : Option ℕ → ℕ
number_or_zero none = 0
number_or_zero (some n) = n

abbrev pub etag_or_empty : Option Text → Text
etag_or_empty none = []
etag_or_empty (some s) = trim_quotes s

abbrev responded_404 : Option (Option ℕ) → Bool
responded_404 (some (some status)) = status == 404
responded_404 _ = false

unfoldable pub is_not_found : ApiError → Bool
is_not_found e =
    if e.no_such_key then true else if e.not_found then true else responded_404 e.response

abbrev pub unless_missing : Text → ApiError → Error
unfolding is_not_found
unless_missing call e = if is_not_found e then object_not_found else wrapped call e.error

-- `err` of the SDK, as the function of the error that the caller makes of it.
abbrev pub replied :
    {S A B : Type 0} → Reply A × S → (ApiError → Error) → (A → Exec S B) → Outcome B × S
replied (reply a, s) f k = k a s
replied (failure e, s) f k = (err (f e), s)

-- The object of a PutObject at a time.
unfoldable pub uploaded : Text → ℕ → Dict Text → PutOutput → ℕ → Object
unfolding trim_quotes
uploaded key size metadata out now = record {
  key = key;
  size = size;
  etag = etag_or_empty out.etag;
  version_id = text_or_empty out.version_id;
  last_modified = now;
  metadata = metadata;
}

-- The object of a GetObject or a HeadObject.
unfoldable pub described : Text → ObjectOutput → Object
unfolding trim_quotes
described key out = record {
  key = key;
  size = number_or_zero out.content_length;
  etag = etag_or_empty out.etag;
  version_id = text_or_empty out.version_id;
  last_modified = number_or_zero out.last_modified;
  metadata = out.metadata;
}

-- The object of a line of a listing.
unfoldable pub listed : Content → Object
unfolding trim_quotes
listed o = record {
  key = text_or_empty o.key;
  size = number_or_zero o.size;
  etag = etag_or_empty o.etag;
  version_id = [];
  last_modified = number_or_zero o.last_modified;
  metadata = [];
}

pub record Options : Type 0 where
  pub bucket : Text
  pub region : Text
  pub profile : Text

abbrev pub given : Text → (Text → Loader) → List Loader
given s f = if s == [] then [] else f s ∷ []

unfoldable pub loaders : Options → List Loader
loaders opt =
    with_adaptive_retryer 5
    ∷ (given opt.region with_region ++ given opt.profile with_shared_config_profile)

module _ (X : Sdk) where
  -- The bucket of the awsClient that New returns.
  unfoldable pub new : Options → Exec X.State Text
  unfolding loaders
  new opt = if opt.bucket == [] then fail (message (codes "bucket required")) else do
    _ ← wrapping (codes "aws config") (X.load_default_config (loaders opt))
    pure opt.bucket

  -- The rest of List: the loop over the pages, with what it has put in `out`. The fuel bounds the
  -- number of times that HasMorePages is asked; a run that meets the end of it is a panic.
  unfoldable pub list_pages : ℕ → Text → X.Pager → List Object → Exec X.State (List Object)
  unfolding listed
  list_pages zero prefix pager out = λ s. (panic, s)
  list_pages (suc fuel) prefix pager out =
      if X.has_more_pages pager
      then (λ s.
          let ((page, pager'), t) = X.next_page pager s in
          replied (page, t) (λ e. wrapped (codes "list " ++ prefix) e.error)
            (λ contents. list_pages fuel prefix pager' (out ++ map listed contents)))
      else pure out

  module _ (bucket : Text) where
    unfoldable pub put : Text → Text → ℕ → Dict Text → Exec X.State Object
    unfolding uploaded
    put key body size metadata s =
        replied (X.put_object bucket key body size metadata s)
          (λ e. wrapped (codes "put " ++ key) e.error)
          (λ out t. let (now, u) = X.now t in (ok (uploaded key size metadata out now), u))

    unfoldable pub get : Text → Exec X.State (Outcome Text × Object)
    unfolding described is_not_found
    get key s =
        replied (X.get_object bucket key s) (unless_missing (codes "get " ++ key))
          (λ (body, out). pure (body, described key out))

    unfoldable pub head : Text → Exec X.State Object
    unfolding described is_not_found
    head key s =
        replied (X.head_object bucket key s) (unless_missing (codes "head " ++ key))
          (λ out. pure (described key out))

    unfoldable pub list : ℕ → Text → Exec X.State (List Object)
    unfolding list_pages
    list fuel prefix = list_pages fuel prefix (X.new_paginator bucket prefix) []

    unfoldable pub delete : Text → Exec X.State Done
    delete key s =
        replied (X.delete_object bucket key s) (λ e. wrapped (codes "delete " ++ key) e.error)
          (λ _. pure tt)

    -- What New returns, as the interface. The fuel is that of a listing.
    abbrev pub aws_client : ℕ → Client
    aws_client fuel = record {
      State = X.State;
      put = put;
      get = get;
      list = list fuel;
      delete = delete;
      head = head;
    }
