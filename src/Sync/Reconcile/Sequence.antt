-- ===== src/Sync/Reconcile/Sequence.antt =====
-- A plan with one operation for a path runs through, and leaves what each operation leaves.
use dropboy.Base.{
  Text, text_eq, ◌==◌, ==-comm, List, [], ◌∷◌, any, Bool, ◌||◌, false, length, ◌≡◌, refl, ◌∙◌, ap,
  arith,
}
use dropboy.Base.Dict.{Dict, lookup}
use dropboy.Base.Outcome.{ok}
use dropboy.Sync.Ops.{OpKind, noop, upload, download, delete_remote, delete_local, conflict, Op}
use dropboy.Sync.Plan.{LocalEntry}
use dropboy.Sync.Engine.{Env, World}
use dropboy.Sync.Engine.Reliable.{IsReliable}
use dropboy.Sync.Reconcile.{execute_all, local_or_zero}
use dropboy.Sync.Reconcile.Executed.{Needs, After, Synced, Frame, execute-After}

abbrev pub AllOps : (Op → Type 0) → List Op → Type 0
AllOps P [] = Unit {0}
AllOps P (op ∷ ops) = P op × AllOps P ops

abbrev pub has_path : Text → List Op → Bool
has_path p ops = any (λ op. op.path == p) ops

abbrev pub has_key : Text → List Op → Bool
has_key k ops = any (λ op. op.s3_key == k) ops

-- No path and no key occurs twice.
abbrev pub Apart : List Op → Type 0
Apart [] = Unit {0}
Apart (op ∷ ops) = (has_path op.path ops ≡ false) × (has_key op.s3_key ops ≡ false) × Apart ops

none_of : (a b : Bool) → (a || b) ≡ false → (a ≡ false) × (b ≡ false)
none_of a b h = ground arith

module _ (E : Env) (R : IsReliable E) where
  -- Paths and keys that are not in the plan are as they were.
  pub record Outside (ops : List Op) (w u : World E) : Type 0 where
    pub files : (q : Text) → has_path q ops ≡ false → R.os.content u.os q ≡ R.os.content w.os q
    pub entries : (q : Text) → has_path q ops ≡ false → R.db.entry u.db q ≡ R.db.entry w.db q
    pub objects :
        (k : Text) → has_key k ops ≡ false → R.cloud.stored u.cloud k ≡ R.cloud.stored w.cloud k
    pub master : u.engine.master ≡ w.engine.master

  abbrev pub Ready : Dict LocalEntry → World E → Op → Type 0
  Ready local w op = Needs E R w (local_or_zero (lookup op.path local)) op.kind op.path op.s3_key

  abbrev pub Left : World E → Op → Type 0
  Left u op = After E R u op.kind op.path op.s3_key

  -- What an operation needs is still there after one at another path and key.
  Needs-Frame :
      (kind : OpKind) (p key p' key' : Text) (l : LocalEntry) (w u : World E)
      → Frame E R p' key' w u
      → (p == p') ≡ false
      → (key == key') ≡ false
      → Needs E R w l kind p key
      → Needs E R u l kind p key
  Needs-Frame upload p key p' key' l w u f n k (c, h, same) = (c, f.files p n ∙ h, same)
  Needs-Frame download p key p' key' l w u f n k (b, md, c, h, d, same) =
      (b, md, c, f.objects key k ∙ h, rw f.master d, same)
  Needs-Frame delete_remote p key p' key' l w u f n k h = f.files p n ∙ h
  Needs-Frame delete_local p key p' key' l w u f n k h = h
  Needs-Frame conflict p key p' key' l w u f n k h = h
  Needs-Frame noop p key p' key' l w u f n k h = h

  Synced-Outside :
      (p key : Text) (ops : List Op) (w u : World E)
      → Outside ops w u
      → has_path p ops ≡ false
      → has_key key ops ≡ false
      → Synced E R w p key
      → Synced E R u p key
  Synced-Outside p key ops w u o n k a = record {
    content = a.content;
    file = o.files p n ∙ a.file;
    entry = a.entry;
    known = o.entries p n ∙ a.known;
    entry_hash = a.entry_hash;
    body = a.body;
    metadata = a.metadata;
    object = o.objects key k ∙ a.object;
    object_hash = a.object_hash;
  }

  -- What an operation left is still there after the operations at other paths and keys.
  After-Outside :
      (kind : OpKind) (p key : Text) (ops : List Op) (w u : World E)
      → Outside ops w u
      → has_path p ops ≡ false
      → has_key key ops ≡ false
      → After E R w kind p key
      → After E R u kind p key
  After-Outside upload p key ops w u o n k a = Synced-Outside p key ops w u o n k a
  After-Outside download p key ops w u o n k a = Synced-Outside p key ops w u o n k a
  After-Outside delete_remote p key ops w u o n k a = record {
    file = o.files p n ∙ a.file;
    known = o.entries p n ∙ a.known;
    object = o.objects key k ∙ a.object;
  }
  After-Outside delete_local p key ops w u o n k a = a
  After-Outside conflict p key ops w u o n k a = a
  After-Outside noop p key ops w u o n k a = a

  AllReady-Frame :
      (local : Dict LocalEntry) (p key : Text) (ops : List Op) (w u : World E)
      → Frame E R p key w u
      → has_path p ops ≡ false
      → has_key key ops ≡ false
      → AllOps (Ready local w) ops
      → AllOps (Ready local u) ops
  AllReady-Frame local p key [] w u f n k a = tt
  AllReady-Frame local p key (op ∷ ops) w u f n k (a, rest) =
      let (n₁, n₂) = none_of (op.path == p) (has_path p ops) n in
      let (k₁, k₂) = none_of (op.s3_key == key) (has_key key ops) k in
      (
        Needs-Frame op.kind op.path op.s3_key p key (local_or_zero (lookup op.path local)) w u f n₁
            k₁ a,
        AllReady-Frame local p key ops w u f n₂ k₂ rest,
      )

  Outside-trans :
      (op : Op) (ops : List Op) (w u v : World E)
      → Frame E R op.path op.s3_key w u
      → Outside ops u v
      → Outside (op ∷ ops) w v
  Outside-trans op ops w u v f o = record {
    files = λ q n.
        let (n₁, n₂) = none_of (op.path == q) (has_path q ops) n in
        o.files q n₂ ∙ f.files q (==-comm q op.path ∙ n₁);
    entries = λ q n.
        let (n₁, n₂) = none_of (op.path == q) (has_path q ops) n in
        o.entries q n₂ ∙ f.entries q (==-comm q op.path ∙ n₁);
    objects = λ k n.
        let (n₁, n₂) = none_of (op.s3_key == k) (has_key k ops) n in
        o.objects k n₂ ∙ f.objects k (==-comm k op.s3_key ∙ n₁);
    master = o.master ∙ f.master;
  }

  -- Where each operation has what it needs and no path or key occurs twice, the loop over the plan
  -- runs through.
  pub execute_all-Left :
      (local : Dict LocalEntry) (ops : List Op) (w : World E)
      → length w.engine.master ≡ 32
      → Apart ops
      → AllOps (Ready local w) ops
      → (u : World E) × (execute_all E local ops w ≡ (ok tt, u))
        × AllOps (Left u) ops
        × Outside ops w u
  unfolding execute_all
  execute_all-Left local [] w m apart ready = (
    w,
    refl,
    tt,
    record { files = λ q n. refl; entries = λ q n. refl; objects = λ k n. refl; master = refl },
  )
  execute_all-Left local (op ∷ ops) w m (n, k, apart) (needs, ready) =
      let (u, e, after, frame) =
        execute-After E R op (local_or_zero (lookup op.path local)) w m needs in
      let (v, rest, left, outside) =
        execute_all-Left local ops u (ap length frame.master ∙ m) apart
          (AllReady-Frame local op.path op.s3_key ops w u frame n k ready) in
      (
        v,
        rw (e, rest),
        (After-Outside op.kind op.path op.s3_key ops u v outside n k after, left),
        Outside-trans op ops w u v frame outside,
      )
