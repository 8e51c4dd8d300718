-- ===== src/Sync/Keys/Laws.antt =====
-- Keys and paths determine one another, and the keys of different machines are apart.
use dropboy.Base.{
  Text, codes, has_prefix, has_prefix-append_both, trim_prefix, trim_prefix-append,
  append-trim_prefix, ◌++◌, ◌∷◌, [], ◌≡◌, refl, true, false, contains, nat_eq, text_eq, arith,
}
use mathlib.Core.List.{append_assoc}
use dropboy.Sync.Keys.{key_prefix, key_for, path_from_key}

-- The path of a key of an absolute path is that path.
pub path_from_key-key_for :
    (machine_id rest : Text)
    → path_from_key (key_for machine_id (codes "/" ++ rest)) machine_id ≡ codes "/" ++ rest
unfolding path_from_key key_for
path_from_key-key_for m rest =
    rw (trim_prefix-append (codes "/") rest, trim_prefix-append (key_prefix m) rest)

-- The key of the path of a key is that key, for every key that a listing of the machine can hold.
pub key_for-path_from_key :
    (machine_id key : Text)
    → has_prefix key (key_prefix machine_id) ≡ true
    → key_for machine_id (path_from_key key machine_id) ≡ key
unfolding path_from_key key_for
key_for-path_from_key m key h =
    rw (trim_prefix-append (codes "/") (trim_prefix key (key_prefix m)))
      (append-trim_prefix key (key_prefix m) h)

-- The first segments of two texts that agree up to a slash.
segment_unique :
    (m n rest : Text)
    → contains m b'/' ≡ false
    → contains n b'/' ≡ false
    → has_prefix (n ++ (b'/' ∷ rest)) (m ++ (b'/' ∷ [])) ≡ true
    → m ≡ n
unfolding has_prefix
segment_unique [] [] rest hm hn h = refl
segment_unique [] (c ∷ n) rest hm hn h = ground arith
segment_unique (c ∷ m) [] rest hm hn h = ground arith
segment_unique (c ∷ m) (d ∷ n) rest hm hn h = ground (arith, segment_unique m n rest)

-- A listing under the prefix of one machine holds no key of another machine, whatever the paths,
-- if no machine id has a slash in it.
pub key_prefix_apart :
    (machine_id other path : Text)
    → contains machine_id b'/' ≡ false
    → contains other b'/' ≡ false
    → has_prefix (key_for other path) (key_prefix machine_id) ≡ true
    → machine_id ≡ other
unfolding key_for key_prefix
key_prefix_apart m n path hm hn h =
    segment_unique m n (trim_prefix path (codes "/")) hm hn
      (rw (← has_prefix-append_both (codes "dropboy/v1/"), ← append_assoc n (codes "/")) h)
