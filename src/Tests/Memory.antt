-- ===== src/Tests/Memory.antt =====
-- An environment in memory that meets the assumptions on the one that the program runs in.
use dropboy.Base.{
  ℕ, zero, suc, Text, text_eq, codes, ◌==◌, if◌then◌else◌, Option, none, some, List, [], ◌∷◌, ◌++◌,
  ◌≡◌, refl, length, arith, ap, false, has_prefix, ==-refl, map, nat_eq, Bool, true, Bool-cases,
  inl, inr, ltb, ◌&&◌,
}
use dropboy.Base.Dict.{Dict, lookup, insert, erase, lookup-insert, lookup-erase}
use dropboy.Base.Outcome.{Outcome, ok, err, Error, not_exist}
use dropboy.Os
use dropboy.Os.{Os, FileInfo, Tree, unreadable, file, dir, Trees, nil, cons}
use dropboy.Store
use dropboy.Store.{Store, Entry}
use dropboy.S3
use dropboy.S3.{Client, Object}
use dropboy.Crypto.Primitives
use dropboy.Crypto.Primitives.{Primitives}
use dropboy.Crypto.Keystore.{SealedMaster, Fits, Blobs}
use dropboy.Daemon.{Services}
use dropboy.Sync.Engine.{Env}
use dropboy.Sync.Engine.Reliable.{IsReliable}

abbrev found : {A B : Type 0} → Option A → (A → B) → Error → Outcome B
found none f e = err e
found (some a) f e = ok (f a)

abbrev info : Text → Text → FileInfo
info p c = record { name = p; size = length c; mod_time = 11; is_dir = false }

abbrev pub sevens : ℕ → Text
sevens zero = []
sevens (suc n) = 7 ∷ sevens n

pub length-sevens : (n : ℕ) → length (sevens n) ≡ n
length-sevens zero = refl
length-sevens (suc n) = ap suc (length-sevens n)

-- Every file lies directly in the folder "/".
abbrev leaves : Dict Text → Trees
leaves [] = nil
leaves ((p, c) ∷ files) = cons (file p p (some (info p c)) (some c)) (leaves files)

abbrev pub memory_os : Os
memory_os = record {
  State = Dict Text;
  read_file = λ p s. (found (lookup p s) (λ c. c) not_exist, s);
  write_file = λ p c mode s. (ok tt, insert p c s);
  mkdir_all = λ p mode s. (ok tt, s);
  remove = λ p s. (found (lookup p s) (λ _. tt) not_exist, erase p s);
  stat = λ p s. (found (lookup p s) (info p) not_exist, s);
  walk = λ p s. dir p (leaves s);
  now = λ s. (5, s);
  random = λ n s. (ok (sevens n), s);
  random_int = λ n s. (ok 0, s);
}

unfoldable pub memory_os-IsReliable : Os.IsReliable memory_os
memory_os-IsReliable = record {
  content = λ s p. lookup p s;
  read_file = λ s p c h. rw h;
  write_file = λ s p c mode. (insert p c s, refl, λ q. lookup-insert q p c s);
  mkdir_all = λ s p mode. (s, refl, λ q. refl);
  stat = λ s p c h. (info p c, rw h);
  now = λ s q. refl;
  random = λ s n. (sevens n, s, refl, length-sevens n, λ q. refl);
  random_int = λ s n h. (0, s, refl, h);
}

abbrev pub memory_store : Store
memory_store = record {
  State = Dict Entry;
  get = λ p s. (found (lookup p s) (λ e. e) Error.entry_not_found, s);
  put = λ e s. (ok tt, insert e.path e s);
  list = λ s. (ok (map (λ (_, e). e) s), s);
  delete = λ p s. (ok tt, erase p s);
}

unfoldable pub memory_store-IsReliable : Store.IsReliable memory_store
memory_store-IsReliable = record {
  entry = λ s p. lookup p s;
  put = λ s e. (insert e.path e s, refl, λ q. lookup-insert q e.path e s);
  delete = λ s p. (erase p s, refl, λ q. lookup-erase q p s);
}

abbrev object : Text → Text × Dict Text → Object
object key (body, metadata) = record {
  key = key;
  size = length body;
  etag = codes "e";
  version_id = codes "v";
  last_modified = 3;
  metadata = metadata;
}

abbrev listed : Text → Dict (Text × Dict Text) → List Object
listed prefix [] = []
listed prefix ((key, o) ∷ s) =
    let rest = listed prefix s in if has_prefix key prefix then object key o ∷ rest else rest

abbrev pub memory_client : Client
memory_client = record {
  State = Dict (Text × Dict Text);
  put =
      λ key body size metadata s. (ok (object key (body, metadata)), insert key (body, metadata) s);
  get = λ key s. (found (lookup key s) (λ o. (ok o.0, object key o)) Error.object_not_found, s);
  list = λ prefix s. (ok (listed prefix s), s);
  delete = λ key s. (ok tt, erase key s);
  head = λ key s. (found (lookup key s) (object key) Error.object_not_found, s);
}

unfoldable pub memory_client-IsReliable : S3.IsReliable memory_client
memory_client-IsReliable = record {
  stored = λ s key. lookup key s;
  put = λ s key body metadata. (
    object key (body, metadata),
    insert key (body, metadata) s,
    refl,
    λ q. lookup-insert q key (body, metadata) s,
  );
  get = λ s key body metadata h. (object key (body, metadata), rw h, refl);
  head = λ s key body metadata h. (object key (body, metadata), rw h, refl);
  delete = λ s key. (erase key s, refl, λ q. lookup-erase q key s);
}

abbrev first : Text → ℕ
first [] = 0
first (b ∷ s) = b

-- A cipher that hides nothing: before the plaintext stands a tag of fifteen sevens and the first
-- byte of the key, and only a key with that first byte opens it.
abbrev opened : ℕ → Text → Option Text
opened b (_ ∷ _ ∷ _ ∷ _ ∷ _ ∷ _ ∷ _ ∷ _ ∷ _ ∷ _ ∷ _ ∷ _ ∷ _ ∷ _ ∷ _ ∷ c ∷ plain) =
    if b == c then some plain else none
opened b _ = none

abbrev pub toy_primitives : Primitives
toy_primitives = record {
  gcm_seal = λ key nonce plain. sevens 15 ++ (first key ∷ plain);
  gcm_open = λ key nonce ct. opened (first key) ct;
  argon2 = λ secret salt time memory threads. first secret ∷ sevens 31;
  sha256 = λ s. s;
  base64_encode = λ s. s;
  base64_decode = λ s. s;
  format_int = λ n. n ∷ [];
  scan_int = first;
  format_time = λ n. n ∷ [];
}

pub toy_primitives-IsLawful : Primitives.IsLawful toy_primitives
toy_primitives-IsLawful = record {
  open-seal = λ key nonce plain. rw (==-refl (first key));
  length-seal = λ key nonce plain. omega arith;
  length-argon2 = λ secret salt time memory threads. refl;
  decode-encode = λ b. refl;
  encode-eq-nil = λ b h. h;
}

abbrev pub memory_env : Env
memory_env = record {
  os = memory_os;
  db = memory_store;
  cloud = memory_client;
  primitives = toy_primitives;
}

unfoldable pub memory_env-IsReliable : IsReliable memory_env
unfolding memory_os-IsReliable memory_store-IsReliable memory_client-IsReliable
memory_env-IsReliable = record {
  os = memory_os-IsReliable;
  db = memory_store-IsReliable;
  cloud = memory_client-IsReliable;
  primitives = toy_primitives-IsLawful;
}

pub split : ℕ → Text → Text × Text
split zero s = ([], s)
split (suc n) [] = ([], [])
split (suc n) (c ∷ s) = let (front, rest) = split n s in (c ∷ front, rest)

pub split-append : (s t : Text) → split (length s) (s ++ t) ≡ (s, t)
unfolding split
split-append [] t = refl
split-append (c ∷ s) t = rw (split-append s t)

-- The numbers of a sealed key, the sizes of its two first texts, and the texts.
abbrev pub written : SealedMaster → Text
written b =
    b.time
    ∷ b.memory
    ∷ b.threads
    ∷ length b.salt
    ∷ length b.nonce
    ∷ (b.salt ++ (b.nonce ++ b.ciphertext))

abbrev texts : ℕ → ℕ → ℕ → Text → Text × Text → SealedMaster
texts t m h salt (nonce, ciphertext) = record {
  salt = salt;
  nonce = nonce;
  ciphertext = ciphertext;
  time = t;
  memory = m;
  threads = h;
}

abbrev fitting : SealedMaster → Bool
fitting b = ltb b.time 4294967296 && (ltb b.memory 4294967296 && ltb b.threads 256)

abbrev refused : Bool → SealedMaster → Outcome SealedMaster
refused true b = ok b
refused false b = err not_exist

abbrev pub parsed : Text → Outcome SealedMaster
unfolding split
parsed (t ∷ m ∷ h ∷ i ∷ j ∷ s) =
    let (salt, rest) = split i s in let b = texts t m h salt (split j rest) in refused (fitting b) b
parsed _ = err not_exist

refused-Fits : (a b : SealedMaster) → refused (fitting a) a ≡ ok b → Fits b
refused-Fits a b e = elim (Bool-cases (fitting a)) [
  | inl fine ↦
      let same : ok a ≡ ok b = rw fine at e in
      record {
        time = ground (arith, same);
        memory = ground (arith, same);
        threads = ground (arith, same);
      }
  | inr large ↦ let none_such : err not_exist ≡ ok b = rw large at e in cc
]

pub parsed-Fits : (bytes : Text) (b : SealedMaster) → parsed bytes ≡ ok b → Fits b
unfolding parsed
parsed-Fits (t ∷ m ∷ h ∷ i ∷ j ∷ s) b e =
    refused-Fits (texts t m h (split i s).0 (split j (split i s).1)) b e
parsed-Fits [] b e = ground arith
parsed-Fits (t ∷ []) b e = ground arith
parsed-Fits (t ∷ m ∷ []) b e = ground arith
parsed-Fits (t ∷ m ∷ h ∷ []) b e = ground arith
parsed-Fits (t ∷ m ∷ h ∷ i ∷ []) b e = ground arith

fitting-Fits : (b : SealedMaster) → Fits b → fitting b ≡ true
fitting-Fits b fits = ground (arith, fits.time, fits.memory, fits.threads)

pub parsed-written : (b : SealedMaster) → Fits b → parsed (written b) ≡ ok b
unfolding parsed
parsed-written b fits =
    rw (split-append b.salt (b.nonce ++ b.ciphertext), split-append b.nonce b.ciphertext)
      (rw (fitting-Fits b fits) refl)

abbrev pub memory_blobs : Blobs
memory_blobs = record {
  marshal = written;
  unmarshal = parsed;
  unmarshal-Fits = parsed-Fits;
  unmarshal-marshal = parsed-written;
}

-- A keychain of one entry for each account; the store and the client always open.
abbrev pub memory_services : Services
memory_services = record {
  State = Dict Text;
  keychain_get = λ account s. (found (lookup account s) (λ v. v) not_exist, s);
  keychain_set = λ account v s. (ok tt, insert account v s);
  keychain_delete = λ account s. (ok tt, erase account s);
  open_store = λ path s. (ok tt, s);
  close_store = λ s. (ok tt, s);
  new_client = λ bucket region profile s. (ok tt, s);
}
