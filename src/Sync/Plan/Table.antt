-- ===== src/Sync/Plan/Table.antt =====
-- The plan against a table over the sides of one path.
pub mod Cases
use mathlib.Core.List.{append-nil, append_assoc}
use dropboy.Base.{
  Text, text_eq, ◌==◌, if◌then◌else◌, Option, none, some, List, [], ◌∷◌, ◌++◌, contains, Bool-cases,
  ==-refl, cons-eq-nil, ap, is_some, inl, inr, not, ◌&&◌, ◌||◌, keep, keep-append, ◌≡◌, refl, ◌∙◌,
  arith,
}
use dropboy.Base.Dict.{Dict, lookup, NodupKeys}
use dropboy.Store.{Entry}
use dropboy.Sync.Ops.{Op, OpKind, upload, download, delete_remote, conflict}
use dropboy.Sync.Keys.{key_for}
use dropboy.Sync.Plan.{
  LocalEntry, RemoteEntry, plan_known, plan_path, plan_local, plan_unseen, plan_remote, plan,
}

-- How one side of a path stands to the content of the last sync.
pub data Side : Type 0 where
  absent unchanged changed : Side

pub side : Text → Text → Side
side base hash = if hash == base then unchanged else changed

-- A remote object without a recorded hash counts as unchanged.
pub remote_side : Text → Text → Side
remote_side base [] = unchanged
remote_side base hash = side base hash

remote_side_lem :
    (base hash : Text)
    → remote_side base hash
      ≡ (if not (hash == base) && not (hash == []) then changed else unchanged)
unfolding remote_side side
remote_side_lem base [] = rw (==-refl {A = Text} []) (ground arith)
remote_side_lem base (c ∷ h) = rw cons-eq-nil (ground arith)

-- The decision for a path that was synced before.
pub merge : Side → Side → OpKind
merge absent absent = OpKind.noop
merge absent _ = delete_remote
merge _ absent = upload
merge unchanged unchanged = OpKind.noop
merge unchanged changed = download
merge changed unchanged = upload
merge changed changed = conflict

-- What is due for a path, from what the three sides hold of it.
unfoldable pub verdict : Option LocalEntry → Option RemoteEntry → Option Entry → OpKind
unfolding side remote_side merge
verdict (some l) (some r) (some st) =
    merge (side st.local_hash l.hash) (remote_side st.local_hash r.hash)
verdict (some l) none (some st) = merge (side st.local_hash l.hash) absent
verdict none (some r) (some st) = merge absent (remote_side st.local_hash r.hash)
verdict none none (some st) = merge absent absent
verdict (some l) (some r) none = if r.hash == l.hash then OpKind.noop else conflict
verdict (some l) none none = upload
verdict none (some r) none = download
verdict none none none = OpKind.noop

-- The same content on all three sides leaves nothing to do.
pub verdict_same :
    (l : LocalEntry) (r : RemoteEntry) (e : Entry)
    → e.local_hash ≡ l.hash
    → r.hash ≡ l.hash
    → verdict (some l) (some r) (some e) ≡ OpKind.noop
unfolding verdict
verdict_same l r e hl hr = rw (hl, hr, remote_side_lem, ==-refl)

-- The object that the operation works on.
unfoldable pub object_key : Text → Text → OpKind → Option RemoteEntry → Text
object_key machine_id p upload remote = key_for machine_id p
object_key machine_id p _ none = []
object_key machine_id p _ (some r) = r.key

-- No operation, or the one of the given kind.
unfoldable pub single : OpKind → Text → Text → List Op
single OpKind.noop p key = []
single kind p key = record { kind = kind; path = p; s3_key = key } ∷ []

unfoldable pub due : Text → Text → Option LocalEntry → Option RemoteEntry → Option Entry → List Op
unfolding verdict object_key single
due machine_id p local remote state =
    let kind = verdict local remote state in single kind p (object_key machine_id p kind remote)

abbrev pub at_path : Text → List Op → List Op
at_path p = keep (λ op. op.path == p)

module _ (machine_id p : Text) where
  at_path-plan_path :
      (q : Text) (l : LocalEntry) (r : Option RemoteEntry) (st : Option Entry)
      → at_path p (plan_path machine_id q l r st)
        ≡ (if p == q then plan_path machine_id p l r st else [])
  unfolding plan_path
  at_path-plan_path q l none none = ground arith
  at_path-plan_path q l none (some st) = ground arith
  at_path-plan_path q l (some r) none = ground arith
  at_path-plan_path q l (some r) (some st) = ground arith

  -- The inner switch over its three tests.
  plan_known-due :
      (l : LocalEntry) (r : RemoteEntry) (st : Entry)
      → plan_known machine_id p l r st ≡ due machine_id p (some l) (some r) (some st)
  unfolding plan_known due
  plan_known-due l r st = rw remote_side_lem (elim (Bool-cases (l.hash == st.local_hash)) [
    | inl same ↦ rw same (elim (Bool-cases (r.hash == st.local_hash)) [
      | inl r_same ↦ rw r_same
      | inr r_new ↦
          rw r_new
            (elim (Bool-cases (r.hash == [])) [ inl none_kept ↦ rw none_kept | inr kept ↦ rw kept ])
    ])
    | inr new ↦ rw new (elim (Bool-cases (r.hash == st.local_hash)) [
      | inl r_same ↦ rw r_same
      | inr r_new ↦
          rw r_new
            (elim (Bool-cases (r.hash == [])) [ inl none_kept ↦ rw none_kept | inr kept ↦ rw kept ])
    ])
  ])

  plan_path-due :
      (l : LocalEntry) (r : Option RemoteEntry) (st : Option Entry)
      → plan_path machine_id p l r st ≡ due machine_id p (some l) r st
  unfolding plan_path due
  plan_path-due l none none = refl
  plan_path-due l none (some st) = ground arith
  plan_path-due l (some r) none = ground arith
  plan_path-due l (some r) (some st) = plan_known-due l r st

  -- What the first loop owes the path.
  due_of_local : Option LocalEntry → Option RemoteEntry → Option Entry → List Op
  due_of_local none r st = []
  due_of_local (some l) r st = due machine_id p (some l) r st

  at_path-plan_local :
      (remote : Dict RemoteEntry) (state : Dict Entry) (local : Dict LocalEntry) (ops : List Op)
      (seen : List Text)
      → NodupKeys local
      → at_path p (plan_local machine_id remote state local ops seen).0
        ≡ at_path p ops ++ due_of_local (lookup p local) (lookup p remote) (lookup p state)
  unfolding plan_local due_of_local lookup
  at_path-plan_local remote state [] ops seen u = ground (arith, append-nil (at_path p ops))
  at_path-plan_local remote state ((q, l) ∷ rest) ops seen (fresh, u) =
      at_path-plan_local remote state rest _ (q ∷ seen) u
      ∙ rw (keep-append, append_assoc)
          (ap (λ (t : List Op). at_path p ops ++ t)
            (rw at_path-plan_path
              (ground (arith, plan_path-due l (lookup q remote) (lookup q state)))))

  contains-plan_local :
      (remote : Dict RemoteEntry) (state : Dict Entry) (local : Dict LocalEntry) (ops : List Op)
      (seen : List Text)
      → contains (plan_local machine_id remote state local ops seen).1 p
        ≡ (contains seen p || is_some (lookup p local))
  unfolding plan_local lookup
  contains-plan_local remote state [] ops seen = ground arith
  contains-plan_local remote state ((q, l) ∷ rest) ops seen =
      contains-plan_local remote state rest _ (q ∷ seen) ∙ ground arith

  at_path-plan_unseen :
      (q : Text) (seen : List Text) (state : Dict Entry) (r : RemoteEntry)
      → at_path p (plan_unseen seen state q r) ≡ (
          if p == q && not (contains seen p)
          then due machine_id p none (some r) (lookup p state)
          else [])
  unfolding plan_unseen due
  at_path-plan_unseen q seen state r = ground arith

  -- What the second loop owes the path.
  due_of_remote : List Text → Option RemoteEntry → Option Entry → List Op
  due_of_remote seen none st = []
  due_of_remote seen (some r) st = if contains seen p then [] else due machine_id p none (some r) st

  at_path-plan_remote :
      (seen : List Text) (state : Dict Entry) (remote : Dict RemoteEntry) (ops : List Op)
      → NodupKeys remote
      → at_path p (plan_remote seen state remote ops)
        ≡ at_path p ops ++ due_of_remote seen (lookup p remote) (lookup p state)
  unfolding plan_remote due_of_remote lookup
  at_path-plan_remote seen state [] ops u = ground (arith, append-nil (at_path p ops))
  at_path-plan_remote seen state ((q, r) ∷ rest) ops (fresh, u) =
      at_path-plan_remote seen state rest _ u
      ∙ rw (keep-append, append_assoc)
          (ap (λ (t : List Op). at_path p ops ++ t)
            (rw at_path-plan_unseen
              (ground (arith, append-nil (due machine_id p none (some r) (lookup p state))))))

  both_loops-due :
      (seen : List Text) (l : Option LocalEntry) (r : Option RemoteEntry) (st : Option Entry)
      → contains seen p ≡ is_some l
      → due_of_local l r st ++ due_of_remote seen r st ≡ due machine_id p l r st
  unfolding due_of_local due_of_remote due
  both_loops-due seen none none none h = refl
  both_loops-due seen none none (some st) h = refl
  both_loops-due seen none (some r) st h = rw h
  both_loops-due seen (some l) none st h = append-nil _
  both_loops-due seen (some l) (some r) st h = rw h (append-nil _)

  -- Where the local and the remote map have each path once, the plan holds for every path exactly what
  -- the table says is due, in whatever order the two loops range over the maps.
  pub plan-due :
      (local : Dict LocalEntry) (remote : Dict RemoteEntry) (state : Dict Entry)
      → NodupKeys local
      → NodupKeys remote
      → at_path p (plan local remote state machine_id)
        ≡ due machine_id p (lookup p local) (lookup p remote) (lookup p state)
  unfolding plan
  plan-due local remote state ul ur =
      at_path-plan_remote _ state remote _ ur
      ∙ rw (at_path-plan_local remote state local [] [] ul)
          (both_loops-due _ _ _ _ (contains-plan_local remote state local [] []))
