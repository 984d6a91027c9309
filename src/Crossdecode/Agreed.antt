-- ===== src/Crossdecode/Agreed.antt =====
-- What a case that passes the cross-decode check has shown of the containers.
use unicodec.Base.{ℕ, ◌≡◌, Bool, not, Option, none, some, List, ◌++◌}
use unicodec.Base.{if◌then◌else◌, Bytes, equal}
use unicodec.Partial.{◌>>=◌}
use unicodec.Failure.{ok}
use unicodec.Meta.{Entry}
use unicodec.Crypto.{Crypto}
use unicodec.Decode.{decode_bytes}
use unicodec.Text.{ascii}
use unicodec.Crossdecode.{Vector, parse_vector_metadata, parse_encryption, equal_metadata}
use unicodec.Crossdecode.{encode_fresh}
use unicodec.Crossdecode.Cases.{Host, Files, stored, key_only, safe_child, read_container}
use unicodec.Crossdecode.Cases.{check_node, check_python}

module _ (host : Host) (c : Crypto) (room : ℕ → ℕ) where
  abbrev compared : Bytes → List Entry → Bytes × List Entry → Option (Bytes × List Entry)
  compared input entries (decoded, metadata) =
      if not (equal decoded input)
      then none
      else if not (equal_metadata metadata entries)
      then none
      else some (decoded, metadata)

  -- What `check_node` has compared when it succeeds.
  pub record NodeFile (files : Files) (work : Bytes) (v : Vector) (input : Bytes)
      (entries : List Entry) (key fresh : Bytes) : Type 0 where
    pub path : Bytes
    pub path_is : safe_child host work (v.id ++ ascii ".node.ubc") ≡ some path
    pub content_is : files path ≡ some fresh
    pub decodes : decode_bytes c room fresh (key_only key) ≡ ok (input, entries)

  abbrev same_as : Bytes → Bytes → Bytes → Option (Unit {0})
  same_as fresh container again =
      if not (equal again fresh) then none else if equal fresh container then some tt else none

  abbrev encoded_again :
      Vector → Bytes → Bool → Bytes → Bytes → Bytes → Bytes × List Entry → Option (Unit {0})
  encoded_again v key encrypted nonce fresh container (decoded, metadata) =
      encode_fresh c decoded metadata v.options.chunk_size key nonce encrypted
      >>= same_as fresh container

  abbrev container_read :
      Vector → Bytes → List Entry → Bytes → Bool → Bytes → Bytes → Bytes → Option (Unit {0})
  container_read v input entries key encrypted nonce fresh container =
      read_container host c room container input entries key
      >>= encoded_again v key encrypted nonce fresh container

  abbrev files_after :
      Files
      → Bytes
      → Vector
      → Bool
      → Bytes
      → List Entry
      → Bytes
      → Bytes
      → Bool
      → Bytes
      → Bytes
      → Option Files
  files_after files work v verify_python input entries key nonce encrypted fresh path =
      if not (host.writable path)
      then none
      else let after = stored files path fresh in
        check_node host c room after work v input entries key nonce encrypted fresh >>= λ _.
        (if verify_python
          then check_python host c room after work v input entries key fresh
          else some tt)
        >>= λ _. some after

  abbrev fresh_written :
      Files
      → Bytes
      → Vector
      → Bool
      → Bytes
      → List Entry
      → Bytes
      → Bytes
      → Bool
      → Bytes
      → Option Files
  fresh_written files work v verify_python input entries key nonce encrypted fresh =
      safe_child host work (v.id ++ ascii ".go.ubc")
      >>= files_after files work v verify_python input entries key nonce encrypted fresh

  abbrev key_parsed :
      Files → Bytes → Vector → Bool → Bytes → List Entry → Bytes × Bytes × Bool → Option Files
  key_parsed files work v verify_python input entries (key, nonce, encrypted) =
      encode_fresh c input entries v.options.chunk_size key nonce encrypted
      >>= fresh_written files work v verify_python input entries key nonce encrypted

  abbrev entries_parsed : Files → Bytes → Vector → Bool → Bytes → List Entry → Option Files
  entries_parsed files work v verify_python input entries =
      parse_encryption v.options >>= key_parsed files work v verify_python input entries

  abbrev input_read : Files → Bytes → Vector → Bool → Bytes → Option Files
  input_read files work v verify_python input =
      parse_vector_metadata v.options.metadata >>= entries_parsed files work v verify_python input

  -- What a case has done when it passes.
  pub record Agreed (files : Files) (root work : Bytes) (v : Vector) (after : Files) : Type 0 where
    pub input_path : Bytes
    pub input : Bytes
    pub entries : List Entry
    pub key : Bytes
    pub nonce : Bytes
    pub is_encrypted : Bool
    pub fresh : Bytes
    pub path : Bytes
    pub input_is :
        (safe_child host root v.input ≡ some input_path) × (files input_path ≡ some input)
    pub entries_are : parse_vector_metadata v.options.metadata ≡ some entries
    pub encryption_is : parse_encryption v.options ≡ some (key, nonce, is_encrypted)
    pub written :
        encode_fresh c input entries v.options.chunk_size key nonce is_encrypted ≡ some fresh
    pub after_is : after ≡ stored files path fresh
    pub node : NodeFile after work v input entries key fresh
