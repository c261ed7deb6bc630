-- ===== src/Context/Compression.antt =====
-- src/context/store/compression.ts. `gzip` stands for `gzipSync` with the base64 encoding after it,
-- `gunzip` for the base64 decoding with `gunzipSync`, which throws on what is no compressed text.
pub mod Laws
use Prim.Native.Char.{Char, code}
use Prim.Native.String
use Prim.Native.String.{len}
use open_thinking.Base.{
  ℕ, String, ◌+◌, ◌-◌, Bool, true, false, ◌&&◌, Option, none, some, List, [], ◌∷◌, eqb, leb, ltb,
  if◌then◌else◌, length,
}

pub record Gzip : Type 0 where
  pub gzip : String → String
  pub gunzip : String → Option String

abbrev pub compression_threshold : ℕ
compression_threshold = 4096

-- NUL, then "GZ:".
abbrev pub compressed_prefix : String
compressed_prefix = "\0GZ:"

-- What follows a prefix: `s.startsWith(p)` and `s.slice(p.length)` in one.
unfoldable pub after_prefix : String → String → Option String
after_prefix String.[] s = some s
after_prefix (String.◌∷◌ d p) String.[] = none
after_prefix (String.◌∷◌ d p) (String.◌∷◌ c s) =
    let rest = after_prefix p s in if eqb (code d) (code c) then rest else none

pub record Compressed : Type 0 where
  pub stored : String
  pub compressed : Bool
  pub raw_size : ℕ

unfoldable pub is_some : {A : Type 0} → Option A → Bool
is_some none = false
is_some (some x) = true

unfoldable pub is_compressed : String → Bool
unfolding after_prefix is_some
is_compressed stored = is_some (after_prefix compressed_prefix stored)

module _ (zip : Gzip) where
  unfoldable pub maybe_compress : String → Compressed
  maybe_compress value =
      let raw_size = len value in
      let encoded = String.◌++◌ compressed_prefix (zip.gzip value) in
      let plain : Compressed = record { stored = value; compressed = false; raw_size = raw_size } in
      if leb raw_size compression_threshold
      then plain
      else if leb raw_size (len encoded)
      then plain
      else record { stored = encoded; compressed = true; raw_size = raw_size }

  -- The plain text, or what follows the mark, decompressed.
  unfoldable pub read_stored : String → Option String → Option String
  read_stored stored none = some stored
  read_stored stored (some encoded) = zip.gunzip encoded

  -- `none` for a text that cannot be decompressed.
  unfoldable pub maybe_decompress : String → Option String
  unfolding after_prefix read_stored
  maybe_decompress stored = read_stored stored (after_prefix compressed_prefix stored)

-- The ratio is the quotient of the two sizes, and 1 when there is nothing.
pub record CompressionStats : Type 0 where
  pub total_entries : ℕ
  pub compressed_entries : ℕ
  pub total_raw_bytes : ℕ
  pub total_stored_bytes : ℕ

-- A pair of the stored and the raw text.
abbrev pub StoredPair : Type 0
StoredPair = String × String

unfoldable pub compute_compression_stats : List StoredPair → CompressionStats
unfolding is_compressed
compute_compression_stats [] = record {
  total_entries = 0;
  compressed_entries = 0;
  total_raw_bytes = 0;
  total_stored_bytes = 0;
}
compute_compression_stats ((stored, raw) ∷ entries) =
    let rest = compute_compression_stats entries in
    record {
      total_entries = rest.total_entries + 1;
      compressed_entries = rest.compressed_entries + (if is_compressed stored then 1 else 0);
      total_raw_bytes = rest.total_raw_bytes + len raw;
      total_stored_bytes = rest.total_stored_bytes + len stored;
    }
