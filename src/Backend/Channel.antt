-- ===== src/Backend/Channel.antt =====
-- crates/mehoy-backend-llama/src/channel.rs, on Unix: the secret that the runtime shares with a
-- backend, the file that hands it over, and the reserved address. What the system answers is an
-- argument, with the text of an error; what is done to the file system is a list of effects.
use mehoy_malloy_ai_runtime.Common.{
  ℕ, ◌%◌, String, Bool, true, not, ◌&&◌, List, [], ◌∷◌, ◌++◌, ◌==◌, if◌then◌else◌, Result, ok, err,
  ◌>>=◌,
}
use mehoy_malloy_ai_runtime.Common.Text.{Text}
use mehoy_malloy_ai_runtime.Registry.{encode_hex, shown}

pub record ChannelSecret : Type 0 where
  pub text : Text

pub data ChannelError : Type 0 where
  system : (detail : Text) → ChannelError
  no_randomness : (detail : Text) → ChannelError
  not_usable : (reason : String) → ChannelError

abbrev pub by_system {ℓ} : {A : Type ℓ} → Result A Text → Result A ChannelError
by_system (ok a) = ok a
by_system (err e) = err (system e)

abbrev pub by_randomness {ℓ} : {A : Type ℓ} → Result A Text → Result A ChannelError
by_randomness (ok a) = ok a
by_randomness (err e) = err (no_randomness e)

-- `generate`, given 32 random bytes.
unfoldable pub generate_secret : Result Text Text → Result ChannelSecret ChannelError
unfolding encode_hex
generate_secret random = do bytes ← by_randomness random; ok (record { text = encode_hex bytes })

pub record FileMetadata : Type 0 where
  pub is_symlink : Bool
  pub is_dir : Bool
  pub uid : ℕ
  pub mode : ℕ

-- What `symlink_metadata` answers.
pub data Found : Type 0 where
  not_found : Found
  found : FileMetadata → Found
  unreadable : (detail : Text) → Found

-- What `OpenOptions` is told.
pub record OpenOptions : Type 0 where
  pub write : Bool
  pub create_new : Bool
  pub mode : ℕ

-- A recursive creation of a directory succeeds where the directory is there already, so
-- `ensured_directory` says no more than that one with the mode given was asked for and that there is
-- a directory. A write that fails may have written any part of the content.
pub data FileEffect : Type 0 where
  ensured_directory : (path : Text) (mode : ℕ) → FileEffect
  opened_file : (path : Text) → OpenOptions → FileEffect
  wrote : (path content : Text) → FileEffect
  wrote_part : (path : Text) → FileEffect
  removed : (path : Text) → FileEffect

-- The answer of a call, and what it did to the file system.
abbrev pub Filed : Type 0 → Type 0
Filed A = List FileEffect × Result A ChannelError

abbrev pub then_file : {A B : Type 0} → Filed A → (A → Filed B) → Filed B
then_file (done_before, ok a) next = let (after, answer) = next a in (done_before ++ after, answer)
then_file (done_before, err e) next = (done_before, err e)

-- An effect that there is where the system answers `ok`.
abbrev pub if_done : FileEffect → Result (Unit {0}) Text → Filed (Unit {0})
if_done effect (ok _) = (effect ∷ [], ok tt)
if_done effect (err e) = ([], err (system e))

abbrev pub without_effect : {A : Type 0} → Result A ChannelError → Filed A
without_effect answer = ([], answer)

-- `mode & 0o077` are the low six bits of the mode.
unfoldable pub check_directory : ℕ → FileMetadata → Result (Unit {0}) ChannelError
check_directory euid meta =
    if meta.is_symlink
    then err (not_usable "it is a symbolic link")
    else if not meta.is_dir
    then err (not_usable "it is not a directory")
    else if not (meta.uid == euid)
    then err (not_usable "it belongs to another user")
    else if not (meta.mode % 64 == 0)
    then err (not_usable "it is accessible to other users")
    else ok tt

-- `made` is the answer to the creation of the directory, which is recursive.
unfoldable pub ensure_private_directory :
    ℕ → Result (Unit {0}) Text → Text → Found → Filed (Unit {0})
unfolding check_directory
ensure_private_directory euid made dir not_found = if_done (ensured_directory dir 0o700) made
ensure_private_directory euid made dir (found meta) = without_effect (check_directory euid meta)
ensure_private_directory euid made dir (unreadable e) = without_effect (err (system e))

pub record SecretFile : Type 0 where
  pub path : Text

-- What the system answers while a secret file is made: its user and process, what it finds at the
-- directory, and the answers of the calls in their order. `occupied` are the paths at which there is
-- something when the file is opened; `exists` is the error that an open with `create_new` has there,
-- and `opened` the answer of an open that does not meet it.
pub record FileAnswers : Type 0 where
  pub euid : ℕ
  pub process_id : ℕ
  pub directory : Found
  pub made : Result (Unit {0}) Text
  pub random : Result Text Text
  pub occupied : Text → Bool
  pub exists : Text
  pub opened : Result (Unit {0}) Text
  pub written : Result (Unit {0}) Text
  pub flushed : Result (Unit {0}) Text

-- `backend-{pid}-{suffix}.key` in the directory.
unfoldable pub key_path : Text → ℕ → Text → Text
key_path directory process_id suffix =
    directory
    ++ (b'/' ∷ b'b' ∷ b'a' ∷ b'c' ∷ b'k' ∷ b'e' ∷ b'n' ∷ b'd' ∷ b'-' ∷ shown process_id
        ++ (b'-' ∷ suffix ++ (b'.' ∷ b'k' ∷ b'e' ∷ b'y' ∷ [])))

abbrev pub open_file : FileAnswers → OpenOptions → Text → Filed (Unit {0})
open_file s options path =
    if options.create_new && s.occupied path
    then ([], err (system s.exists))
    else if_done (opened_file path options) s.opened

abbrev pub write_all : Result (Unit {0}) Text → Text → Text → Filed (Unit {0})
write_all (ok _) path content = (wrote path content ∷ [], ok tt)
write_all (err e) path content = (wrote_part path ∷ [], err (system e))

abbrev pub fill_file :
    (written flushed : Result (Unit {0}) Text) → Text → ChannelSecret → Filed SecretFile
fill_file written flushed path secret =
    then_file (write_all written path secret.text)
      (λ _. without_effect (do _ ← by_system flushed; ok (record { path = path })))

unfoldable pub create_file : FileAnswers → Text → ChannelSecret → Filed SecretFile
create_file s path secret =
    let options : OpenOptions = record { write = true; create_new = true; mode = 0o600 } in
    then_file (open_file s options path) (λ _. fill_file s.written s.flushed path secret)

-- `SecretFile::create`.
unfoldable pub create : FileAnswers → Text → ChannelSecret → Filed SecretFile
unfolding ensure_private_directory key_path create_file encode_hex
create s directory secret =
    then_file (ensure_private_directory s.euid s.made directory s.directory) (λ _.
      then_file (without_effect (by_randomness s.random))
        (λ unique. create_file s (key_path directory s.process_id (encode_hex unique)) secret))

-- `Drop for SecretFile`, where the system lets the file be removed.
abbrev pub drop_file : SecretFile → List FileEffect
drop_file f = removed f.path ∷ []

-- An IPv4 address and its port.
pub record SocketAddr : Type 0 where
  pub a : ℕ
  pub b : ℕ
  pub c : ℕ
  pub d : ℕ
  pub port : ℕ

pub record BackendChannel : Type 0 where
  pub address : SocketAddr
  pub secret : ChannelSecret

-- `reserve`, given the address that the system gives the listener.
unfoldable pub reserve :
    Result SocketAddr Text → Result Text Text → Result BackendChannel ChannelError
unfolding generate_secret
reserve bound random = do
  address ← by_system bound
  secret ← generate_secret random
  ok (record { address = address; secret = secret })

-- The dotted numbers.
unfoldable pub host : BackendChannel → Text
host ch =
    shown ch.address.a
    ++ (b'.' ∷ shown ch.address.b ++ (b'.' ∷ shown ch.address.c ++ (b'.' ∷ shown ch.address.d)))

abbrev pub is_loopback : BackendChannel → Bool
is_loopback ch = ch.address.a == 127
