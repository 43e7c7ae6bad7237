-- ===== src/Snapshot/Maps.antt =====
-- What a snapshot records of the files it was taken of.
use taskrunner.Prelude.{
  ◌≡◌, refl, if◌then◌else◌, Bool, false, some, List, [], ◌∷◌, Text, text_eq, text_eq_iff, any, All,
  lookup, insert, lookup-insert, arith,
}
use taskrunner.Snapshot.{Snapshotter, UncommittedFile, load_map, hash_files}

module _ (c : Snapshotter) where
  abbrev pub Hashes : Text → Type 0
  Hashes path = (c.hash_func path).1 ≡ false

  abbrev pub hashed : List Text → List UncommittedFile
  hashed [] = []
  hashed (p ∷ ps) = record { path = p; md5 = (c.hash_func p).0 } ∷ hashed ps

  pub hash_files-hashed : (ps : List Text) → All Hashes ps → hash_files c ps ≡ some (hashed ps)
  unfolding hash_files
  hash_files-hashed [] h = refl
  hash_files-hashed (p ∷ ps) h = rw (h.0, hash_files-hashed ps h.1) refl

  abbrev pub listed : Text → List Text → Bool
  listed p ps = any (λ q. text_eq q p) ps

  pub load_map-hashed :
      (p : Text) (ps : List Text) (m : List (Text × Text))
      → lookup p (load_map (hashed ps) m)
        ≡ (if listed p ps then some (c.hash_func p).0 else lookup p m)
  unfolding load_map
  load_map-hashed p [] m = refl
  load_map-hashed p (q ∷ qs) m =
      rw (load_map-hashed p qs (insert q (c.hash_func q).0 m))
        (ground (arith, lookup-insert q p (c.hash_func q).0 m, text_eq_iff q p))
