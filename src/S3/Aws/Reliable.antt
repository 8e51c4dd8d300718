-- ===== src/S3/Aws/Reliable.antt =====
-- The client that is made of the SDK, where the SDK reaches its bucket.
use mathlib.Core.List.{append-nil, append_assoc}
use dropboy.Base.{
  ℕ, zero, suc, Text, text_eq, ◌==◌, if◌then◌else◌, Bool, true, false, Option, none, some, List, [],
  ◌∷◌, ◌++◌, map, ◌≡◌, refl, ◌∙◌, length, ◌<◌, arith, ==-refl, ◌&&◌,
}
use dropboy.Base.Dict.{Dict}
use dropboy.Base.Outcome.{ok, err, object_not_found}
use dropboy.S3.{Object, IsReliable}
use dropboy.S3.Aws.{
  Sdk, ApiError, reply, failure, PutOutput, ObjectOutput, Content, listed, described, list_pages,
  list, put, get, head, delete, uploaded, aws_client, is_not_found,
}

-- The pages that a paginator still gives, in order, and none of them fails.
pub data Pages (X : Sdk) : X.Pager → X.State → List (List Content) → X.State → Type 0 where
  over : {p : X.Pager} {s : X.State} → X.has_more_pages p ≡ false → Pages X p s [] s
  more :
      {p q : X.Pager} {s t u : X.State} {page : List Content} {rest : List (List Content)}
      → X.has_more_pages p ≡ true
      → X.next_page p s ≡ ((reply page, q), t)
      → Pages X q t rest u
      → Pages X p s (page ∷ rest) u

-- The listing of the pages.
abbrev pub objects : List (List Content) → List Object
objects [] = []
objects (page ∷ rest) = map listed page ++ objects rest

pub record IsFaithful (X : Sdk) : Type 0 where
  -- bucket, key
  pub stored : X.State → Text → Text → Option (Text × Dict Text)
  pub put_object :
      (s : X.State) (bucket key body : Text) (metadata : Dict Text)
      → (o : PutOutput) × (t : X.State) × (X.put_object bucket key body (length body) metadata s
          ≡ (reply o, t))
        × ((c q : Text)
            → stored t c q
              ≡ (if c == bucket && q == key then some (body, metadata) else stored s c q))
  pub get_object :
      (s : X.State) (bucket key body : Text) (metadata : Dict Text)
      → stored s bucket key ≡ some (body, metadata)
      → (o : ObjectOutput) × (X.get_object bucket key s ≡ (reply (ok body, o), s))
        × (o.metadata ≡ metadata)
  pub get_missing :
      (s : X.State) (bucket key : Text)
      → stored s bucket key ≡ none
      → (e : ApiError) × (X.get_object bucket key s ≡ (failure e, s)) × (e.no_such_key ≡ true)
  pub head_object :
      (s : X.State) (bucket key body : Text) (metadata : Dict Text)
      → stored s bucket key ≡ some (body, metadata)
      → (o : ObjectOutput) × (X.head_object bucket key s ≡ (reply o, s)) × (o.metadata ≡ metadata)
  -- The answer to a HEAD has no body, so that only its status tells.
  pub head_missing :
      (s : X.State) (bucket key : Text)
      → stored s bucket key ≡ none
      → (e : ApiError) × (X.head_object bucket key s ≡ (failure e, s))
        × (e.response ≡ some (some 404))
  pub delete_object :
      (s : X.State) (bucket key : Text)
      → (t : X.State) × (X.delete_object bucket key s ≡ (reply tt, t))
        × ((c q : Text) → stored t c q ≡ (if c == bucket && q == key then none else stored s c q))
  pub now : (s : X.State) (c q : Text) → stored (X.now s).1 c q ≡ stored s c q

module _ (X : Sdk) where
  list_pages-Pages :
      (fuel : ℕ) (prefix : Text) (p : X.Pager) (s u : X.State) (pages : List (List Content))
      (out : List Object)
      → Pages X p s pages u
      → length pages < fuel
      → list_pages X fuel prefix p out s ≡ (ok (out ++ objects pages), u)
  unfolding list_pages
  list_pages-Pages zero prefix p s u pages out run h = ground arith
  list_pages-Pages (suc fuel) prefix p s _ _ out (over last) h = rw last (rw append-nil refl)
  list_pages-Pages (suc fuel) prefix p s u _ out (more {page = page} {rest = rest} has next run) h =
      rw has (
        rw next (
          list_pages-Pages fuel prefix _ _ _ rest (out ++ map listed page) run (omega arith)
          ∙ rw append_assoc refl))

  -- With more fuel than the paginator gives pages, List returns the objects of all the pages, in
  -- the order of the pages and of the lines in each.
  pub list-Pages :
      (fuel : ℕ) (bucket prefix : Text) (s u : X.State) (pages : List (List Content))
      → Pages X (X.new_paginator bucket prefix) s pages u
      → length pages < fuel
      → list X bucket fuel prefix s ≡ (ok (objects pages), u)
  unfolding list
  list-Pages fuel bucket prefix s u pages run h = list_pages-Pages fuel prefix _ s u pages [] run h

  missing-no_such_key : (e : ApiError) → e.no_such_key ≡ true → is_not_found e ≡ true
  unfolding is_not_found
  missing-no_such_key e h = rw h refl

  missing-response : (e : ApiError) → e.response ≡ some (some 404) → is_not_found e ≡ true
  unfolding is_not_found
  missing-response e h = rw h (ground arith)

  module _ (faithful : IsFaithful X) (bucket : Text) where
    -- On an SDK that reaches its bucket, Get and Head of a key under which nothing is stored both
    -- return ErrNotFound and leave the state of the SDK as it was.
    pub get-head-missing :
        (s : X.State) (key : Text)
        → faithful.stored s bucket key ≡ none
        → (get X bucket key s ≡ (err object_not_found, s))
          × (head X bucket key s ≡ (err object_not_found, s))
    unfolding get head
    get-head-missing s key h =
        let (e, got, says) = faithful.get_missing s bucket key h in
        let (f, asked, status) = faithful.head_missing s bucket key h in
        (
          rw got (rw (missing-no_such_key e says) refl),
          rw asked (rw (missing-response f status) refl),
        )

    other_key : (b q : Bool) → b ≡ true → (b && q) ≡ q
    other_key b q h = ground arith

    here :
        (A : Type 0) (key q : Text) (x y : Option A)
        → (if bucket == bucket && q == key then x else y) ≡ (if q == key then x else y)
    here A key q x y = rw (==-refl bucket) refl

    put-stored :
        (s : X.State) (key body : Text) (metadata : Dict Text)
        → (o : Object) × (t : X.State) × (put X bucket key body (length body) metadata s
            ≡ (ok o, t))
          × ((q : Text)
              → faithful.stored t bucket q
                ≡ (if q == key then some (body, metadata) else faithful.stored s bucket q))
    unfolding put
    put-stored s key body metadata =
        let (o, t, done, after) = faithful.put_object s bucket key body metadata in
        (
          uploaded key (length body) metadata o (X.now t).0,
          (X.now t).1,
          rw done refl,
          λ q. faithful.now t bucket q ∙ after bucket q ∙ here _ key q _ _,
        )

    get-described :
        (s : X.State) (key body : Text) (metadata : Dict Text)
        → faithful.stored s bucket key ≡ some (body, metadata)
        → (o : Object) × (get X bucket key s ≡ (ok (ok body, o), s)) × (o.metadata ≡ metadata)
    unfolding get described
    get-described s key body metadata h =
        let (o, got, same) = faithful.get_object s bucket key body metadata h in
        (described key o, rw got refl, same)

    head-described :
        (s : X.State) (key body : Text) (metadata : Dict Text)
        → faithful.stored s bucket key ≡ some (body, metadata)
        → (o : Object) × (head X bucket key s ≡ (ok o, s)) × (o.metadata ≡ metadata)
    unfolding head described
    head-described s key body metadata h =
        let (o, got, same) = faithful.head_object s bucket key body metadata h in
        (described key o, rw got refl, same)

    delete-stored :
        (s : X.State) (key : Text)
        → (t : X.State) × (delete X bucket key s ≡ (ok tt, t))
          × ((q : Text)
              → faithful.stored t bucket q
                ≡ (if q == key then none else faithful.stored s bucket q))
    unfolding delete
    delete-stored s key =
        let (t, done, after) = faithful.delete_object s bucket key in
        (t, rw done refl, λ q. after bucket q ∙ here _ key q _ _)

    -- On an SDK that reaches its bucket, the client of New meets what the engine assumes of a client,
    -- and what it has stored is what the SDK has stored in the client's bucket.
    pub aws_client-IsReliable :
        (fuel : ℕ)
        → (r : IsReliable (aws_client X bucket fuel)) × ((s : X.State) (key : Text)
            → r.stored s key ≡ faithful.stored s bucket key)
    aws_client-IsReliable fuel = (
      record {
        stored = λ s key. faithful.stored s bucket key;
        put = put-stored;
        get = get-described;
        head = head-described;
        delete = delete-stored;
      },
      λ s key. refl,
    )
