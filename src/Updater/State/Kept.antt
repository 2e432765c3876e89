-- ===== src/Updater/State/Kept.antt =====
-- What `FileStateStore.save` of updater/store.py leaves for `load`.
use finance_reconciliation.Prelude.{
  ℕ, zero, suc, ◌+◌, ◌≡◌, ◌≢◌, ◌≤◌, refl, ap, ◌⊎◌, inl, inr, Bool, true, false, ◌||◌, none, some,
  [], ◌∷◌, arith, leb, ◌==◌, not, ◌&&◌, ==_refl, sym, subst, length, Bool-cases, if◌then◌else◌,
}
use finance_reconciliation.Prelude.Outcome.{Outcome, ok, err}
use finance_reconciliation.Updater.Types.{PersistentState}
use finance_reconciliation.Updater.State.Json.{Codec, utc}
use finance_reconciliation.Updater.State.Encode.{state_to_dict}
use finance_reconciliation.Updater.State.RoundTrip.{is_valid, state_from_dict-state_to_dict}
use finance_reconciliation.Updater.State.Store.{
  Bytes, JsonText, StoreError, os_error, missing, denied, Node, Lookup, found, Disk, max_bytes,
  private_directory, private_parent, read_bytes, read_validated_file, Kernel, load, new_file,
  replace_in, made_parent, atomic_private_replace, save, make_directory, chmod_directory,
  write_file, replace_file, sync_directory,
}

read_bytes-all : (n : ℕ) (payload : Bytes) → length payload ≤ n → read_bytes n payload ≡ payload
unfolding read_bytes
read_bytes-all zero [] h = refl
read_bytes-all zero (b ∷ payload) h = absurd (omega (arith, h))
read_bytes-all (suc n) [] h = refl
read_bytes-all (suc n) (b ∷ payload) h =
    ap (λ (rest : Bytes). b ∷ rest) (read_bytes-all n payload (omega (arith, h)))

-- The directory, where there is one, is private and no link to one.
abbrev pub is_private : Lookup → Bool
is_private missing = true
is_private denied = true
is_private (found node) =
    not node.links_to_dir && (not node.is_dir || node.mode == private_directory)

abbrev pub is_missing : Lookup → Bool
is_missing missing = true
is_missing denied = false
is_missing (found node) = false

-- In a directory that does not exist there is no file.
abbrev pub is_possible : Disk → Bool
is_possible disk = not (is_missing disk.parent) || is_missing disk.file

-- What is read next, with no other process at work.
abbrev pub next_load : Codec → JsonText → Disk → Outcome StoreError PersistentState
next_load codec texts disk = load codec texts (λ d. d) disk

-- `save` was called on `before` and ended with `out`: the state that was saved is read next; or `save`
-- raised, and what is read next is what was read before; or `save` raised between making a directory
-- and making it private.
abbrev pub Kept :
    Codec
    → JsonText
    → Kernel
    → PersistentState
    → Disk
    → Disk × Outcome StoreError (Unit {0})
    → Type 0
Kept codec texts kernel s before out =
    (next_load codec texts out.0 ≡ ok s)
    ⊎ ((out.1 ≢ ok tt)
        × ((next_load codec texts out.0 ≡ next_load codec texts before)
            ⊎ ((before.parent ≡ missing) × (kernel.fails chmod_directory ≡ true))))

private_parent-same :
    (codec : Codec) (texts : JsonText) (node : Node)
    → node.mode ≡ private_directory
    → private_parent codec texts node ≡ node
private_parent-same codec texts node e = go node.is_dir
  where
    go : (b : Bool) → (if b then record node { mode = private_directory } else node) ≡ node
    go true = ap (λ (m : ℕ). record node { mode = m }) (sym e)
    go false = refl

no_file : (file : Lookup) → is_missing file ≡ true → file ≡ missing
no_file missing h = refl
no_file denied h = cc
no_file (found node) h = cc

module _ (codec : Codec) (texts : JsonText)
    (reads_time : (t : ℕ) → codec.fromisoformat (codec.isoformat t) ≡ some (utc t))
    (reads_uuid : (k : ℕ) → codec.uuid (codec.str_uuid k) ≡ some k) (s : PersistentState)
    (reads_json : texts.loads (texts.dumps (state_to_dict codec s)) ≡ some (state_to_dict codec s))
    (valid : is_valid s ≡ true) where
  abbrev written : Bytes
  written = texts.dumps (state_to_dict codec s)

  load-replaced :
      (node : Node) (identity : ℕ)
      → node.is_dir ≡ true
      → leb (length written) max_bytes ≡ true
      → load codec texts
          (λ d. d)
          (record {
            parent = found (private_parent codec texts node);
            file = new_file codec texts identity written;
          })
        ≡ ok s
  unfolding load read_validated_file
  load-replaced node identity is_dir short =
      let fits : length written ≤ max_bytes + 1 = ground (arith, short) in
      rw is_dir (
        rw short (
          rw (==_refl identity) (
            rw (read_bytes-all (max_bytes + 1) written fits) (
              rw short (
                rw reads_json
                  (rw (state_from_dict-state_to_dict codec reads_time reads_uuid s valid)))))))

  -- The file is replaced in a directory, when what is read before is also read in the directory that
  -- was made, and in the one that was made private.
  replace_in-Kept :
      (kernel : Kernel) (disk : Disk) (node : Node)
      → leb (length written) max_bytes ≡ true
      → node.is_dir ≡ true
      → (kernel.fails chmod_directory ≡ true
          → (next_load codec texts (record { parent = found node; file = disk.file })
              ≡ next_load codec texts disk)
            ⊎ (disk.parent ≡ missing))
      → next_load codec texts
          (record { parent = found (private_parent codec texts node); file = disk.file })
        ≡ next_load codec texts disk
      → Kept codec texts kernel s disk (replace_in codec texts kernel written disk (some node))
  replace_in-Kept kernel disk node short is_dir in_made in_prepared =
      go (kernel.fails make_directory) (kernel.fails chmod_directory)
        (kernel.fails write_file || kernel.fails replace_file) (kernel.fails sync_directory) refl
    where
      prepared : Lookup
      prepared = found (private_parent codec texts node)

      replaced : Disk
      replaced = record { parent = prepared; file = new_file codec texts kernel.identity written }

      go :
          (unmade unchanged unwritten unsynced : Bool)
          → kernel.fails chmod_directory ≡ unchanged
          → Kept codec texts kernel s disk (
              if unmade
              then (disk, err os_error)
              else if unchanged
              then (record { parent = found node; file = disk.file }, err os_error)
              else if unwritten
              then (record { parent = prepared; file = disk.file }, err os_error)
              else if unsynced
              then (replaced, err os_error)
              else (replaced, ok tt))
      go true unchanged unwritten unsynced e = inr (cc, inl refl)
      go false true unwritten unsynced e =
          inr
            (cc, elim (in_made e) [ inl same ↦ inl same | inr none_before ↦ inr (none_before, e) ])
      go false false true unsynced e = inr (cc, inl in_prepared)
      go false false false true e = inl (load-replaced node kernel.identity is_dir short)
      go false false false false e = inl (load-replaced node kernel.identity is_dir short)

  found-Kept :
      (kernel : Kernel) (node : Node) (file : Lookup)
      → leb (length written) max_bytes ≡ true
      → is_private (found node) ≡ true
      → Kept codec texts kernel s
          (record { parent = found node; file = file })
          (atomic_private_replace codec texts kernel written
            (record { parent = found node; file = file }))
  unfolding atomic_private_replace
  found-Kept kernel node file short private = elim (Bool-cases node.is_dir) [
    | inl is_dir ↦
        let mode : node.mode ≡ private_directory = ground (arith, private, is_dir) in
        rw (made is_dir) (
          replace_in-Kept kernel (record { parent = found node; file = file }) node short is_dir
            (λ e. inl refl)
            (ap (λ (n : Node). next_load codec texts (record { parent = found n; file = file }))
              (private_parent-same codec texts node mode)))
    | inr other ↦ rw (not_made other) (inr (cc, inl refl))
  ]
    where
      made :
          node.is_dir ≡ true → made_parent codec texts kernel.default_mode (found node) ≡ some node
      made e = rw e refl

      not_made :
          node.is_dir ≡ false → made_parent codec texts kernel.default_mode (found node) ≡ none
      not_made e =
          let no_link : node.links_to_dir ≡ false = ground (arith, private) in rw (e, no_link) refl

  parent-Kept :
      (kernel : Kernel) (parent file : Lookup)
      → leb (length written) max_bytes ≡ true
      → is_private parent ≡ true
      → is_possible (record { parent = parent; file = file }) ≡ true
      → Kept codec texts kernel s
          (record { parent = parent; file = file })
          (atomic_private_replace codec texts kernel written
            (record { parent = parent; file = file }))
  unfolding atomic_private_replace load
  parent-Kept kernel missing file short private possible =
      subst
        (λ (file : Lookup).
          Kept codec texts kernel s (record { parent = missing; file = file })
            (atomic_private_replace codec texts kernel written
              (record { parent = missing; file = file })))
        (sym (no_file file possible))
        (replace_in-Kept kernel (record { parent = missing; file = missing }) _ short refl
          (λ e. inr refl) refl)
  parent-Kept kernel denied file short private possible = inr (cc, inl refl)
  parent-Kept kernel (found node) file short private possible =
      found-Kept kernel node file short private

  -- Wherever the operating system fails while a valid state is saved, `load` then returns that state;
  -- or `save` raised, and `load` does what it did before; or `save` raised because a directory that it
  -- had made could not be made private. The standard library reads what it writes of a time stamp in
  -- UTC and of a UUID, and of this state as JSON; the directory, if there is one, is private and no
  -- symbolic link, and without one there is no file; no other process is at work.
  pub save-Kept :
      (kernel : Kernel) (disk : Disk)
      → is_private disk.parent ≡ true
      → is_possible disk ≡ true
      → Kept codec texts kernel s disk (save codec texts kernel s disk)
  unfolding save
  save-Kept kernel disk private possible = elim (Bool-cases (leb (length written) max_bytes)) [
    | inl short ↦ rw short (parent-Kept kernel disk.parent disk.file short private possible)
    | inr long ↦ rw long (inr (cc, inl refl))
  ]
