-- ===== src/Context/Compression/Laws.antt =====
-- What is stored is read back, and storing never takes more room.
use Prim.Native.Char.{code}
use Prim.Native.String
use Prim.Native.String.{len}
use text.Mathlib.TextLemmas.{cons-append, nil-append}
use open_thinking.Base.{
  String, ◌<◌, ◌≡◌, refl, ◌∙◌, ap, ◌⊎◌, inl, inr, true, false, Option, none, some, arith, eqb, leb,
  Bool-cases,
}
use open_thinking.Context.Compression.{
  Gzip, compression_threshold, compressed_prefix, after_prefix, is_compressed, is_some, read_stored,
  maybe_compress, maybe_decompress,
}

after_prefix-append : (p s : String) → after_prefix p (String.◌++◌ p s) ≡ some s
unfolding after_prefix
after_prefix-append String.[] s = ap some (nil-append s)
after_prefix-append (String.◌∷◌ d p) s =
    let same : eqb (code d) (code d) ≡ true = ground arith in
    rw (cons-append d p s, same) (after_prefix-append p s)

-- The three ways to store a value.
pub maybe_compress-cases :
    (zip : Gzip) (value : String)
    → ((maybe_compress zip value).stored ≡ value)
      ⊎ (((maybe_compress zip value).stored ≡ String.◌++◌ compressed_prefix (zip.gzip value))
          × (compression_threshold < len value)
          × (len (maybe_compress zip value).stored < len value))
unfolding maybe_compress
maybe_compress-cases zip value = elim (Bool-cases (leb (len value) compression_threshold)) [
  | inl small ↦ inl (rw small refl)
  | inr big ↦
      elim (Bool-cases (leb (len value) (len (String.◌++◌ compressed_prefix (zip.gzip value))))) [
        | inl worse ↦ inl (rw (big, worse) refl)
        | inr better ↦
            inr (
              rw (big, better) refl,
              ground (arith, big),
              rw (big, better) (ground (arith, better)),
            )
      ]
]

not_some : {A : Type 0} (o : Option A) → is_some o ≡ false → o ≡ none
unfolding is_some
not_some none h = refl
not_some (some x) h = absurd (ground arith)

read_plain :
    (zip : Gzip) (value : String)
    → is_compressed value ≡ false
    → maybe_decompress zip value ≡ some value
unfolding maybe_decompress read_stored is_compressed
read_plain zip value plain = ap (read_stored zip value) (not_some _ plain)

read_compressed :
    (zip : Gzip) (encoded : String)
    → maybe_decompress zip (String.◌++◌ compressed_prefix encoded) ≡ zip.gunzip encoded
unfolding maybe_decompress read_stored
read_compressed zip encoded =
    ap (read_stored zip (String.◌++◌ compressed_prefix encoded))
      (after_prefix-append compressed_prefix encoded)

-- A value that does not begin with the mark of compressed texts is read back as it was stored,
-- whether it was compressed or not, when decompression undoes compression.
pub maybe_decompress-maybe_compress :
    (zip : Gzip)
    → ((value : String) → zip.gunzip (zip.gzip value) ≡ some value)
    → (value : String) → is_compressed value ≡ false
    → maybe_decompress zip (maybe_compress zip value).stored ≡ some value
maybe_decompress-maybe_compress zip undo value plain = elim (maybe_compress-cases zip value) [
  | inl e ↦ rw e (read_plain zip value plain)
  | inr (e, big, less) ↦ rw e (read_compressed zip (zip.gzip value) ∙ undo value)
]
