-- ===== src/Crossdecode/Cases.antt =====
-- tools/crossdecode/main.go, the part that reads and writes files: `run`, `readManifest`, `safeChild`
-- and `crossDecodeCase`.
use unicodec.Base.{ℕ, Bool, not, ◌||◌, Option, none, some, List, [], ◌∷◌, ◌++◌, ◌==◌}
use unicodec.Base.{if◌then◌else◌, length, Bytes, equal, has_prefix}
use unicodec.Partial.{◌>>=◌}
use unicodec.Meta.{Entry}
use unicodec.Crypto.{Crypto}
use unicodec.Decoder.{DecodeOptions}
use unicodec.Decode.{decode_bytes}
use unicodec.Text.{ascii}
use unicodec.Crossdecode.{Vector, safe_id, parse_case_ids, parse_vector_metadata}
use unicodec.Crossdecode.{parse_encryption, equal_metadata, result_value, encode_fresh}

-- What the tool calls of path/filepath, os and encoding/json, which depend on the platform and on the
-- files at hand: `filepath.IsAbs`, `Join`, `Rel` and `Abs`, whether a path is a directory, whether a
-- file can be written, and the vectors that `json.Unmarshal` finds in a manifest.
pub record Host : Type 0 where
  pub is_abs : Bytes → Bool
  pub join : Bytes → Bytes → Bytes
  pub rel : Bytes → Bytes → Option Bytes
  pub abs : Bytes → Option Bytes
  pub is_directory : Bytes → Bool
  pub writable : Bytes → Bool
  pub separator : ℕ
  pub unmarshal : Bytes → Option (List Vector)

-- The files by their paths.
abbrev pub Files : Type 0
Files = Bytes → Option Bytes

abbrev pub stored : Files → Bytes → Bytes → Files
stored files path content p = if equal p path then some content else files p

-- `DecodeOptions{Key: key}`
abbrev pub key_only : Bytes → DecodeOptions
key_only key = record {
  key = key;
  max_meta_bytes = 0;
  max_chunk_len = 0;
  max_chunk_count = 0;
  max_total_size = 0;
}

-- `vectors[id]`
find_vector : Bytes → List Vector → Option Vector
unfolding equal
find_vector id [] = none
find_vector id (v ∷ vs) = if equal v.id id then some v else find_vector id vs

-- The loop of `readManifest`; the vectors before are in the map.
manifest_from : List Vector → List Vector → Option (List Vector)
unfolding find_vector
manifest_from known [] = some known
manifest_from known (v ∷ vs) =
    let rest = manifest_from (known ++ (v ∷ [])) vs in
    if not (safe_id v.id)
    then none
    else elim (find_vector v.id known) [ some twice ↦ none | none ↦ rest ]

module _ (host : Host) where
  -- `existingDirectory`
  unfoldable pub existing_directory : Bytes → Option Bytes
  existing_directory path =
      if length path == 0
      then none
      else host.abs path >>= λ absolute. if host.is_directory absolute then some absolute else none

  -- `safeChild`
  unfoldable pub safe_child : Bytes → Bytes → Option Bytes
  unfolding equal has_prefix
  safe_child root child =
      if length child == 0 || host.is_abs child
      then none
      else let joined = host.join root child in
        host.rel root joined >>= λ relative.
        if equal relative (ascii "..")
          || has_prefix relative (ascii ".." ++ (host.separator ∷ []))
          || host.is_abs relative
        then none
        else some joined

  -- `readManifest`
  unfoldable pub read_manifest : Files → Bytes → Option (List Vector)
  unfolding manifest_from
  read_manifest files root = safe_child root (ascii "vectors.json") >>= λ path.
      files path >>= λ content. host.unmarshal content >>= λ vectors. manifest_from [] vectors

  module _ (c : Crypto) (room : ℕ → ℕ) where
    -- The part of `crossDecodeCase` that reads a container of another SDK: the plaintext and the entries
    -- of it, where they are those of the vector.
    unfoldable pub read_container : Bytes → Bytes → List Entry → Bytes → Option (Bytes × List Entry)
    unfolding equal
    read_container container input entries key =
        result_value (decode_bytes c room container (key_only key)) >>= λ (decoded, metadata).
        if not (equal decoded input)
        then none
        else if not (equal_metadata metadata entries)
        then none
        else some (decoded, metadata)

    -- The part of `crossDecodeCase` for Python.
    unfoldable pub check_python :
        Files → Bytes → Vector → Bytes → List Entry → Bytes → Bytes → Option (Unit {0})
    unfolding equal read_container
    check_python files work v input entries key fresh =
        safe_child work (v.id ++ ascii ".python.ubc") >>= λ path. files path >>= λ container.
        read_container container input entries key >>= λ _.
        if equal fresh container then some tt else none

    -- The part of `crossDecodeCase` for Node.
    unfoldable pub check_node :
        Files
        → Bytes
        → Vector
        → Bytes
        → List Entry
        → Bytes
        → Bytes
        → Bool
        → Bytes
        → Option (Unit {0})
    unfolding equal read_container
    check_node files work v input entries key nonce encrypted fresh =
        safe_child work (v.id ++ ascii ".node.ubc") >>= λ path. files path >>= λ container.
        read_container container input entries key >>= λ (decoded, metadata).
        encode_fresh c decoded metadata v.options.chunk_size key nonce encrypted >>= λ again.
        if not (equal again fresh) then none else if equal fresh container then some tt else none

    -- `crossDecodeCase`: the files behind it
    unfoldable pub cross_decode_case : Files → Bytes → Bytes → Vector → Bool → Option Files
    unfolding equal check_node check_python
    cross_decode_case files root work v verify_python =
        if length v.input == 0
        then none
        else safe_child root v.input >>= λ input_path. files input_path >>= λ input.
            parse_vector_metadata v.options.metadata >>= λ entries.
            parse_encryption v.options >>= λ (key, nonce, encrypted).
            encode_fresh c input entries v.options.chunk_size key nonce encrypted >>= λ fresh.
            safe_child work (v.id ++ ascii ".go.ubc") >>= λ path.
            if not (host.writable path)
            then none
            else let after = stored files path fresh in
              check_node after work v input entries key nonce encrypted fresh >>= λ _.
              (if verify_python then check_python after work v input entries key fresh else some tt)
              >>= λ _. some after

    -- The loop of `run`.
    run_cases : Files → Bytes → Bytes → List Vector → Bool → List Bytes → Option Files
    unfolding find_vector
    run_cases files root work vectors verify_python [] = some files
    run_cases files root work vectors verify_python (id ∷ ids) = find_vector id vectors >>= λ v.
        elim v.expect_error [
          | some code ↦ none
          | none ↦ cross_decode_case files root work v verify_python >>= λ after.
              run_cases after root work vectors verify_python ids
        ]

    -- `run`
    unfoldable pub run : Files → Bytes → Bytes → Bytes → Bool → Option Files
    unfolding run_cases
    run files vectors_root work_dir cases verify_python =
        existing_directory vectors_root >>= λ root. existing_directory work_dir >>= λ work.
        parse_case_ids cases >>= λ ids.
        read_manifest files root >>= λ vectors. run_cases files root work vectors verify_python ids
