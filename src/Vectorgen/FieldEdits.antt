-- ===== src/Vectorgen/FieldEdits.antt =====
-- tools/vectorgen/main.go: the edits of one header field, on a container that begins with a header.
use unicodec.Base.{ℕ, ◌≡◌, arith, some, ◌∷◌, ◌++◌, length, drop, Bytes, put_le}
use unicodec.Header.{Header, layout}
use unicodec.Vectorgen.Edits.{put_at, replace}

pub edit_version :
    (h : Header) (rest : Bytes)
    → length h.base_nonce ≡ 12
    → replace (layout h ++ rest) 4 0x02 ≡ some (layout (record h { version = 2 }) ++ rest)
unfolding replace put_at layout put_le
edit_version h rest n = ground arith

pub edit_hash :
    (h : Header) (rest : Bytes)
    → length h.base_nonce ≡ 12
    → replace (layout h ++ rest) 6 0x02 ≡ some (layout (record h { hash_algo = 2 }) ++ rest)
unfolding replace put_at layout put_le
edit_hash h rest n = ground arith

pub edit_aead :
    (h : Header) (rest : Bytes)
    → length h.base_nonce ≡ 12
    → replace (layout h ++ rest) 7 0x02 ≡ some (layout (record h { aead_algo = 2 }) ++ rest)
unfolding replace put_at layout put_le
edit_aead h rest n = ground arith

pub edit_flags :
    (h : Header) (rest : Bytes) (flags : ℕ)
    → length h.base_nonce ≡ 12
    → replace (layout h ++ rest) 5 flags ≡ some (layout (record h { flags = flags }) ++ rest)
unfolding replace put_at layout put_le
edit_flags h rest flags n = ground arith

pub edit_chunk_size :
    (h : Header) (rest : Bytes) (size : ℕ)
    → length h.base_nonce ≡ 12
    → put_at 8 (put_le 4 size) (layout h ++ rest)
      ≡ some (layout (record h { chunk_size = size }) ++ rest)
unfolding put_at layout put_le
edit_chunk_size h rest size n = ground arith

pub edit_magic :
    (h : Header) (rest : Bytes)
    → length h.base_nonce ≡ 12
    → replace (layout h ++ rest) 0 0x00 ≡ some ((0x00 ∷ drop 1 (layout h)) ++ rest)
unfolding replace put_at layout put_le
edit_magic h rest n = ground arith

pub edit_chunk_count :
    (h : Header) (rest : Bytes) (count : ℕ)
    → length h.base_nonce ≡ 12
    → put_at 12 (put_le 8 count) (layout h ++ rest)
      ≡ some (layout (record h { chunk_count = count }) ++ rest)
unfolding put_at layout put_le
edit_chunk_count h rest count n = ground arith
