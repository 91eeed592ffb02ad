-- ===== src/Config/Salt.antt =====
-- Which salt InitConf uses, at one start of the server and at the next.
use paintty_server_go.Prelude.{
  ◌≡◌, ◌≢◌, refl, ap, ◌∙◌, true, [], Bytes, Option, none, some, String, arith, eq_iff,
  if◌then◌else◌, Option-cases, inl, inr,
}
use paintty_server_go.Prelude.Int.{pos}
use paintty_server_go.Prelude.Maps.{string_Eq, load, store, load-store}
use paintty_server_go.Config.{
  Value, bytes, ConfMap, apply_default_string, apply_default_int,
  apply_default_simple_config_values, read_conf_bytes,
}
use paintty_server_go.Config.Defaults.{int-other, string-other}
use paintty_server_go.Config.Files.{
  Files, Os, Libraries, open_file, read_salt_from_file, create_salt_file, load_conf_file, config,
  after_load, with_salt_path, salt_path, salted, init_conf,
}

module _ (confs : ConfMap) where
  abbrev d1 : ConfMap
  d1 = apply_default_string "announcement" "" confs

  abbrev d2 : ConfMap
  d2 = apply_default_int "expiration" (pos 48) d1

  abbrev d3 : ConfMap
  d3 = apply_default_int "max_load" (pos 8) d2

  pub salt-defaults :
      load "globalSaltHash" (apply_default_simple_config_values confs) ≡ load "globalSaltHash" confs
  unfolding apply_default_simple_config_values
  salt-defaults =
      int-other "max_room_count" "globalSaltHash" (pos 1000) d3 refl
      ∙ int-other "max_load" "globalSaltHash" (pos 8) d2 refl
      ∙ int-other "expiration" "globalSaltHash" (pos 48) d1 refl
      ∙ string-other "announcement" "globalSaltHash" "" confs refl

read_conf_bytes-salted :
    (lib : Libraries) (salt : Bytes) (confs : ConfMap)
    → read_conf_bytes "globalSaltHash" (salted lib salt confs) ≡ lib.sum512 salt
unfolding read_conf_bytes
read_conf_bytes-salted lib salt confs =
    let hash : Value = bytes (lib.sum512 salt) in
    let e : load "globalSaltHash" (salted lib salt confs) ≡ some hash =
      salt-defaults (store "globalSaltHash" hash (with_salt_path confs))
      ∙ load-store "globalSaltHash" "globalSaltHash" hash (with_salt_path confs) in
    ground (arith, e)

module _ (os : Os) (lib : Libraries) (random : Bytes) (files : Files) (confs c : ConfMap) where
  init_conf_read :
      (salt : Bytes)
      → load_conf_file os lib (config os) files confs ≡ (files, some c)
      → read_salt_from_file os files (salt_path c) ≡ some salt
      → init_conf os lib random files confs ≡ (files, some (salted lib salt c))
  unfolding init_conf
  init_conf_read salt loads reads = ap (after_load os lib random) loads ∙ ground (arith, reads)

  init_conf_created :
      (files' : Files)
      → load_conf_file os lib (config os) files confs ≡ (files, some c)
      → read_salt_from_file os files (salt_path c) ≡ none
      → create_salt_file os random files ≡ some (random, files')
      → init_conf os lib random files confs ≡ (files', some (salted lib random c))
  unfolding init_conf
  init_conf_created files' loads reads creates =
      ap (after_load os lib random) loads ∙ ground (arith, reads, creates)

-- The hash of the salt that a result of InitConf holds.
abbrev pub salt_hash : Files × Option ConfMap → Option Bytes
salt_hash x = elim x.1 [ none ↦ none | some c ↦ some (read_conf_bytes "globalSaltHash" c) ]

-- If the configuration loads and the file that it names for the salt can be read, InitConf uses that
-- salt, whatever the random bytes are, and changes no file; a second start uses it again.
pub init_conf-salt :
    (os : Os) (lib : Libraries) (random random' : Bytes) (files : Files) (c : ConfMap)
    (salt : Bytes)
    → load_conf_file os lib (config os) files [] ≡ (files, some c)
    → read_salt_from_file os files (salt_path c) ≡ some salt
    → ((init_conf os lib random files []).0 ≡ files)
      × (salt_hash (init_conf os lib random files []) ≡ some (lib.sum512 salt))
      × (salt_hash (init_conf os lib random' (init_conf os lib random files []).0 [])
          ≡ some (lib.sum512 salt))
init_conf-salt os lib random random' files c salt loads reads =
    let first = init_conf_read os lib random files [] c salt loads reads in
    let second = init_conf_read os lib random' files [] c salt loads reads in
    let hash = ap some (read_conf_bytes-salted lib salt c) in rw (first, second) (refl, hash, hash)

other_file :
    (p q : String) (d : Bytes) (files : Files) → q ≢ p → load p (store q d files) ≡ load p files
other_file p q d files other = ground (arith, load-store q p d files, eq_iff q p, other)

module _ (os : Os) (lib : Libraries) (q : String) (d : Bytes) (files : Files) where
  open_file-store :
      (name : String)
      → q ≢ os.place name
      → open_file os (store q d files) name ≡ open_file os files name
  unfolding open_file
  open_file-store name other =
      ap (λ (x : Option Bytes). if os.opens (os.place name) then x else none)
        (other_file (os.place name) q d files other)

  load_conf_file-store :
      (name : String) (c : ConfMap)
      → q ≢ os.place name
      → load_conf_file os lib name files [] ≡ (files, some c)
      → load_conf_file os lib name (store q d files) [] ≡ (store q d files, some c)
  unfolding load_conf_file
  load_conf_file-store name c other loads = elim (Option-cases (open_file os files name)) [
    | inl gone ↦ ground (arith, gone, loads, open_file-store name other)
    | inr (x, found) ↦ ground (arith, found, loads, open_file-store name other)
  ]

-- If there is no file at the path that the configuration names for the salt, and that path does not
-- lead to salt.key in the working directory, which InitConf makes, then the salt is not kept: each of
-- two starts of the server uses its own random bytes. The configuration loads, is another file than
-- salt.key, and that file can be created.
pub init_conf_lost :
    (os : Os) (lib : Libraries) (random random' : Bytes) (dir : String) (files : Files)
    (c : ConfMap)
    → os.working_dir ≡ some dir
    → os.place (os.join dir "salt.key") ≢ os.place (salt_path c)
    → os.place (os.join dir "salt.key") ≢ os.place (config os)
    → os.creates (os.place (os.join dir "salt.key")) ≡ true
    → load (os.place (salt_path c)) files ≡ none
    → load_conf_file os lib (config os) files [] ≡ (files, some c)
    → (salt_hash (init_conf os lib random files []) ≡ some (lib.sum512 random))
      × (salt_hash (init_conf os lib random' (init_conf os lib random files []).0 [])
          ≡ some (lib.sum512 random'))
unfolding create_salt_file read_salt_from_file open_file
init_conf_lost os lib random random' dir files c wd salt conf creates gone loads =
    let q : String = os.place (os.join dir "salt.key") in
    let after : Files = store q random files in
    let unread : read_salt_from_file os files (salt_path c) ≡ none = ground (arith, gone) in
    let still : read_salt_from_file os after (salt_path c) ≡ none =
      ground (arith, other_file (os.place (salt_path c)) q random files salt, gone) in
    let made : create_salt_file os random files ≡ some (random, after) =
      ground (arith, wd, creates) in
    let again : create_salt_file os random' after ≡ some (random', store q random' after) =
      ground (arith, wd, creates) in
    let first = init_conf_created os lib random files [] c after loads unread made in
    let second =
      init_conf_created os lib random' after [] c (store q random' after)
        (load_conf_file-store os lib q random files (config os) c conf loads) still again in
    rw (first, second)
      (
        ap some (read_conf_bytes-salted lib random c),
        ap some (read_conf_bytes-salted lib random' c),
      )
