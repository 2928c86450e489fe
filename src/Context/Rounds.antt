-- ===== src/Context/Rounds.antt =====
-- What context/manager.py gives back of what it was given.
use next_me.Common.{
  ℕ, String, ◌≡◌, refl, Bool, true, false, some, List, [], ◌∷◌, arith, string_comparable, leb, ok,
  raised, os_error, Action, return, ◌>>=◌, Bool-cases, inl, inr,
}
use next_me.Context.{
  CompressionAlgorithm, zlib, lzma, brotli, Codec, Setting, Files, Writes, choose_algorithm,
  decompress, remove_context_files, find_context_file, with_file, save, load, append, joined,
}

-- UTF-8 and each compressor give back what they were given.
pub record IsLossless {B : Type 0} (codec : Codec B) : Type 0 where
  pub text : (s : String) → codec.decode (codec.encode s) ≡ s
  pub bytes : (a : CompressionAlgorithm) (b : B) → codec.unsqueeze a (codec.squeeze a b) ≡ some b

abbrev pub all_written : Writes
all_written = record { writes_data = true; writes_meta = true }

-- Brotli is chosen only where it is installed.
choose_available :
    (size : ℕ) (setting : Setting)
    → choose_algorithm size setting ≡ brotli
    → setting.brotli_available ≡ true
unfolding choose_algorithm
choose_available size setting e = ground arith

module _ {B : Type 0} (codec : Codec B) (lossless : IsLossless codec) (setting : Setting) where
  decompress-squeeze :
      (available : Bool) (a : CompressionAlgorithm) (b : B)
      → (a ≡ brotli → available ≡ true)
      → decompress codec available a (codec.squeeze a b) ≡ some b
  unfolding decompress
  decompress-squeeze available zlib b installed = lossless.bytes zlib b
  decompress-squeeze available lzma b installed = lossless.bytes lzma b
  decompress-squeeze available brotli b installed =
      ground (arith, lossless.bytes brotli b, installed refl)

  find-with_file :
      (a : CompressionAlgorithm) (b : B) (old : Files B)
      → find_context_file (record (with_file a b (remove_context_files old)) { has_meta = true })
        ≡ some (b, some a)
  unfolding find_context_file remove_context_files
  find-with_file zlib b old = refl
  find-with_file lzma b old = refl
  find-with_file brotli b old = refl

  save-load :
      (content : String) (files : Files B)
      → ((save codec setting all_written content files).0 ≡ ok tt)
        × (load codec setting true (save codec setting all_written content files).1 ≡ content)
  unfolding save load ◌>>=◌
  save-load content files =
      let raw = codec.encode content in
      let algo = choose_algorithm (codec.size raw) setting in
      elim (Bool-cases (leb (codec.size raw) setting.context_max_bytes)) [
        | inl small ↦ (
          ground arith,
          unfold find_context_file remove_context_files in ground (arith, lossless.text content),
        )
        | inr large ↦ (
          ground arith,
          ground (
            arith,
            find-with_file algo (codec.squeeze algo raw) files,
            decompress-squeeze setting.brotli_available algo raw
                (choose_available (codec.size raw) setting),
            lossless.text content,
          ),
        )
      ]

pub data Call : Type 0 where
  saves appends : String → Call

-- What the context is to be: a save replaces it, and an append adds a line.
abbrev pub expected : String → List Call → String
expected so_far [] = so_far
expected so_far (saves content ∷ rest) = expected content rest
expected so_far (appends content ∷ rest) = expected (joined so_far content) rest

module _ {B : Type 0} (codec : Codec B) (setting : Setting) where
  abbrev pub step : Call → Action (Files B) (Unit {0})
  step (saves content) = save codec setting all_written content
  step (appends content) = append codec setting true all_written content

  unfoldable pub run : List Call → Action (Files B) (Unit {0})
  run [] = return tt
  run (c ∷ rest) = step c >>= λ u. run rest

module _ {B : Type 0} (codec : Codec B) (lossless : IsLossless codec) (setting : Setting) where
  -- Through any saves and appends whose writes succeed, in either form of the file and with any
  -- compressor that the settings choose, none of them fails and the context reads as it is to be, if
  -- UTF-8 and the compressors give back what they were given.
  pub run-load :
      (cs : List Call) (files : Files B)
      → ((run codec setting cs files).0 ≡ ok tt)
        × (load codec setting true (run codec setting cs files).1
            ≡ expected (load codec setting true files) cs)
  unfolding run append ◌>>=◌
  run-load [] files = (refl, refl)
  run-load (saves content ∷ rest) files =
      let next : Files B = (save codec setting all_written content files).1 in
      let (returns, reads) = save-load codec lossless setting content files in
      ground (arith, returns, reads, run-load rest next)
  run-load (appends content ∷ rest) files =
      let merged = joined (load codec setting true files) content in
      let next : Files B = (save codec setting all_written merged files).1 in
      let (returns, reads) = save-load codec lossless setting merged files in
      ground (arith, returns, reads, run-load rest next)

-- A save whose write fails has already taken the old files away: nothing is left of the context.
failed_save_loses :
    {B : Type 0} (codec : Codec B) (setting : Setting) (w : Writes) (content : String)
    (files : Files B)
    → w.writes_data ≡ false
    → ((save codec setting w content files).0 ≡ raised os_error)
      × (load codec setting true (save codec setting w content files).1 ≡ "")
unfolding save load find_context_file remove_context_files ◌>>=◌
failed_save_loses codec setting w content files fails = ground arith
