-- ===== src/Sync/Plan/Table/Cases.antt =====
-- What each verdict says of the sides, and what a verdict depends on.
use dropboy.Base.{
  Text, text_eq, ◌==◌, Option, none, some, Bool-cases, inl, inr, ◌⊎◌, ◌≡◌, refl, [], ◌∷◌,
}
use dropboy.Store.{Entry}
use dropboy.Sync.Ops.{OpKind, noop, upload, download, delete_remote, delete_local, conflict}
use dropboy.Sync.Plan.{LocalEntry, RemoteEntry}
use dropboy.Sync.Plan.Table.{verdict, side, remote_side, Side, unchanged, changed, merge}

-- The sides that a verdict works on are there.
abbrev pub Allowed : OpKind → Option LocalEntry → Option RemoteEntry → Type 0
Allowed upload none r = ⊥
Allowed upload (some l) r = Unit {0}
Allowed download l none = ⊥
Allowed download l (some r) = Unit {0}
Allowed delete_remote none (some r) = Unit {0}
Allowed delete_remote none none = ⊥
Allowed delete_remote (some l) r = ⊥
Allowed delete_local l r = ⊥
Allowed conflict l none = ⊥
Allowed conflict l (some r) = Unit {0}
Allowed noop l r = Unit {0}

remote_cases :
    (base hash : Text) → (remote_side base hash ≡ unchanged) ⊎ (remote_side base hash ≡ changed)
unfolding remote_side side
remote_cases base [] = inl refl
remote_cases base (c ∷ h) = elim (Bool-cases ((c ∷ h) == base)) [
  | inl same ↦ inl (rw same)
  | inr new ↦ inr (rw new)
]

side_cases : (base hash : Text) → (side base hash ≡ unchanged) ⊎ (side base hash ≡ changed)
unfolding side
side_cases base hash = elim (Bool-cases (hash == base)) [
  | inl same ↦ inl (rw same)
  | inr new ↦ inr (rw new)
]

-- A path that all three sides have.
known-Allowed :
    (a b : Side) (l : LocalEntry) (r : RemoteEntry)
    → (a ≡ unchanged) ⊎ (a ≡ changed)
    → (b ≡ unchanged) ⊎ (b ≡ changed)
    → Allowed (merge a b) (some l) (some r)
unfolding merge
known-Allowed a b l r (inl p) (inl q) = rw (p, q) tt
known-Allowed a b l r (inl p) (inr q) = rw (p, q) tt
known-Allowed a b l r (inr p) (inl q) = rw (p, q) tt
known-Allowed a b l r (inr p) (inr q) = rw (p, q) tt

pub verdict-Allowed :
    (l : Option LocalEntry) (r : Option RemoteEntry) (st : Option Entry)
    → Allowed (verdict l r st) l r
unfolding verdict
verdict-Allowed (some l) (some r) (some st) =
    known-Allowed _ _ l r (side_cases st.local_hash l.hash) (remote_cases st.local_hash r.hash)
verdict-Allowed (some l) none (some st) = elim (side_cases st.local_hash l.hash) [
  | inl e ↦ rw e tt
  | inr e ↦ rw e tt
]
verdict-Allowed none (some r) (some st) = elim (remote_cases st.local_hash r.hash) [
  | inl e ↦ rw e tt
  | inr e ↦ rw e tt
]
verdict-Allowed none none (some st) = tt
verdict-Allowed (some l) (some r) none = elim (Bool-cases (r.hash == l.hash)) [
  | inl e ↦ rw e tt
  | inr e ↦ rw e tt
]
verdict-Allowed (some l) none none = tt
verdict-Allowed none (some r) none = tt
verdict-Allowed none none none = tt

-- Both absent, or both there with one hash.
abbrev pub SameLocal : Option LocalEntry → Option LocalEntry → Type 0
SameLocal none none = Unit {0}
SameLocal none (some m) = ⊥
SameLocal (some l) none = ⊥
SameLocal (some l) (some m) = l.hash ≡ m.hash

abbrev pub SameRemote : Option RemoteEntry → Option RemoteEntry → Type 0
SameRemote none none = Unit {0}
SameRemote none (some m) = ⊥
SameRemote (some l) none = ⊥
SameRemote (some l) (some m) = l.hash ≡ m.hash

-- A verdict depends on the hashes alone.
pub verdict-ext :
    (l l' : Option LocalEntry) (r r' : Option RemoteEntry) (st : Option Entry)
    → SameLocal l l'
    → SameRemote r r'
    → verdict l r st ≡ verdict l' r' st
unfolding verdict
verdict-ext none none none none none p q = refl
verdict-ext none none none none (some st) p q = refl
verdict-ext none none (some r) (some r') none p q = refl
verdict-ext none none (some r) (some r') (some st) p q = rw q
verdict-ext (some l) (some l') none none none p q = refl
verdict-ext (some l) (some l') none none (some st) p q = rw p
verdict-ext (some l) (some l') (some r) (some r') none p q = rw (p, q)
verdict-ext (some l) (some l') (some r) (some r') (some st) p q = rw (p, q)
verdict-ext none (some l') r r' st p q = absurd p
verdict-ext (some l) none r r' st p q = absurd p
verdict-ext l l' none (some r') st p q = absurd q
verdict-ext l l' (some r) none st p q = absurd q
