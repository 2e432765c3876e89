-- ===== src/Updater/State/Store.antt =====
-- `FileStateStore` of updater/store.py: the state in a private file, which is replaced as a whole. The texts
-- of JSON are a parameter, and so are the step at which the operating system fails and what another
-- process changes between the look at the file and its opening.
use finance_reconciliation.Prelude.{
  ℕ, zero, suc, ◌+◌, Bool, true, false, ◌&&◌, ◌||◌, Option, none, some, List, [], ◌∷◌, length, leb,
  ◌==◌, if◌then◌else◌,
}
use finance_reconciliation.Prelude.Outcome.{Outcome, ok, err, guard, or_raise, ◌>>=◌, ◌>>◌}
use finance_reconciliation.Updater.Types.{PersistentState}
use finance_reconciliation.Updater.State.Json.{Json, Codec, Read}
use finance_reconciliation.Updater.State.Encode.{state_to_dict}
use finance_reconciliation.Updater.State.Decode.{state_from_dict}

abbrev pub Bytes : Type 0
Bytes = List ℕ

-- `json.dumps` with its encoding, and `json.loads`; `none` is a `JSONDecodeError`.
pub record JsonText : Type 0 where
  pub dumps : Json → Bytes
  pub loads : Bytes → Option Json

-- What `lstat` says of a path, and what stands there. A read of what was opened does not fail.
pub record Node : Type 0 where
  pub is_dir : Bool
  -- a symbolic link that leads to a directory
  pub links_to_dir : Bool
  pub is_regular : Bool
  pub mode : ℕ
  -- `st_dev` and `st_ino`
  pub identity : ℕ
  pub payload : Bytes

-- `FileNotFoundError`, another `OSError`, or a node.
pub data Lookup : Type 0 where
  missing denied : Lookup
  found : Node → Lookup

pub record Disk : Type 0 where
  pub parent : Lookup
  pub file : Lookup

-- `StateStoreError` by its message, and an `OSError` that `save` lets through.
pub data StoreError : Type 0 where
  unsafe_state_path state_too_large invalid_state os_error : StoreError

abbrev pub max_bytes : ℕ
max_bytes = 1048576

-- 0o700 and 0o600
abbrev pub private_directory : ℕ
private_directory = 448

abbrev pub private_file : ℕ
private_file = 384

-- `state_file.read(n)`
unfoldable pub read_bytes : ℕ → Bytes → Bytes
read_bytes zero payload = []
read_bytes (suc n) [] = []
read_bytes (suc n) (b ∷ payload) = b ∷ read_bytes n payload

-- `_read_validated_file`, of what is there when the file is opened.
unfoldable pub read_validated_file : Node → Lookup → Outcome StoreError Bytes
unfolding read_bytes
read_validated_file expected missing = err unsafe_state_path
read_validated_file expected denied = err unsafe_state_path
read_validated_file expected (found node) =
    guard (node.is_regular && (node.mode == private_file && node.identity == expected.identity))
      unsafe_state_path
    >> ok (read_bytes (max_bytes + 1) node.payload)

abbrev pub empty_state : PersistentState
empty_state = record { last_check = none; task = none }

-- A `TypeError` or a `ValueError` of the reader.
abbrev pub read_or_invalid : Read PersistentState → Outcome StoreError PersistentState
read_or_invalid (ok s) = ok s
read_or_invalid (err e) = err invalid_state

pub data Step : Type 0 where
  make_directory chmod_directory write_file replace_file sync_directory : Step

-- Where the operating system fails, the mode that it gives a new directory, and the identity of the
-- next file.
pub record Kernel : Type 0 where
  pub fails : Step → Bool
  pub default_mode : ℕ
  pub identity : ℕ

module _ (codec : Codec) (texts : JsonText) where
  abbrev pub parse_state : Bytes → Outcome StoreError PersistentState
  parse_state payload = or_raise (texts.loads payload) invalid_state >>= λ value.
      read_or_invalid (state_from_dict codec value)

  abbrev pub load_file : Lookup → Lookup → Outcome StoreError PersistentState
  load_file missing opened = ok empty_state
  load_file denied opened = err unsafe_state_path
  load_file (found node) opened = do
    guard (node.is_regular && node.mode == private_file) unsafe_state_path
    guard (leb (length node.payload) max_bytes) state_too_large
    payload ← read_validated_file node opened
    guard (leb (length payload) max_bytes) state_too_large
    parse_state payload

  abbrev load_from : Lookup → Lookup → Lookup → Outcome StoreError PersistentState
  load_from missing file opened = ok empty_state
  load_from denied file opened = err unsafe_state_path
  load_from (found node) file opened =
      guard (node.is_dir && node.mode == private_directory) unsafe_state_path
      >> load_file file opened

  -- `load`
  unfoldable pub load : (Disk → Disk) → Disk → Outcome StoreError PersistentState
  unfolding read_validated_file state_from_dict
  load meanwhile disk = load_from disk.parent disk.file (meanwhile disk).file

  -- `mkdir(parents=True, exist_ok=True)`; it raises where something stands there that is no directory
  -- and leads to none.
  abbrev pub made_parent : ℕ → Lookup → Option Node
  made_parent default_mode missing = some (record {
    is_dir = true;
    links_to_dir = false;
    is_regular = false;
    mode = default_mode;
    identity = 0;
    payload = [];
  })
  made_parent default_mode denied = none
  made_parent default_mode (found node) =
      if node.is_dir || node.links_to_dir then some node else none

  -- `os.chmod(…, 0o700)`, which follows a link.
  abbrev pub private_parent : Node → Node
  private_parent node = if node.is_dir then record node { mode = private_directory } else node

  -- The file that `os.replace` puts in place, with an identity of its own.
  abbrev pub new_file : ℕ → Bytes → Lookup
  new_file identity payload = found (record {
    is_dir = false;
    links_to_dir = false;
    is_regular = true;
    mode = private_file;
    identity = identity;
    payload = payload;
  })

  abbrev pub replace_in : Kernel → Bytes → Disk → Option Node → Disk × Outcome StoreError (Unit {0})
  replace_in kernel payload disk none = (disk, err os_error)
  replace_in kernel payload disk (some node) =
      let made = record disk { parent = found node } in
      let prepared = record disk { parent = found (private_parent node) } in
      let replaced = record prepared { file = new_file kernel.identity payload } in
      if kernel.fails make_directory
      then (disk, err os_error)
      else if kernel.fails chmod_directory
      then (made, err os_error)
      else if kernel.fails write_file || kernel.fails replace_file
      then (prepared, err os_error)
      else if kernel.fails sync_directory
      then (replaced, err os_error)
      else (replaced, ok tt)

  -- `atomic_private_replace`; a temporary file that was not moved is removed again.
  unfoldable pub atomic_private_replace :
      Kernel → Bytes → Disk → Disk × Outcome StoreError (Unit {0})
  atomic_private_replace kernel payload disk =
      replace_in kernel payload disk (made_parent kernel.default_mode disk.parent)

  -- `save`
  unfoldable pub save : Kernel → PersistentState → Disk → Disk × Outcome StoreError (Unit {0})
  unfolding atomic_private_replace state_to_dict
  save kernel s disk =
      let payload = texts.dumps (state_to_dict codec s) in
      if leb (length payload) max_bytes
      then atomic_private_replace kernel payload disk
      else (disk, err state_too_large)
