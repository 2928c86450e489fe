-- ===== src/Context/Tests.antt =====
-- Runs of the context files, and their theorem at concrete inputs.
use next_me.Common.{String, ◌≡◌, refl, true, false, none, some, List, [], ◌∷◌, ok, ◌>>=◌}
use next_me.Context.{
  CompressionAlgorithm, lzma, Codec, Setting, Files, save, load, choose_algorithm,
  remove_context_files, find_context_file,
}
use next_me.Context.Rounds.{IsLossless, all_written, Call, saves, appends, run, run-load}

-- The data with the name of its compressor in front, where it is compressed.
abbrev codec : Codec (List CompressionAlgorithm × String)
codec = record {
  encode = λ s. ([], s);
  decode = λ b. b.1;
  size = λ b. 700;
  squeeze = λ a b. (a ∷ b.0, b.1);
  unsqueeze = λ a b. elim b.0 [ [] ↦ none | c ∷ rest ↦ some (rest, b.1) ];
}

codec-IsLossless : IsLossless codec
codec-IsLossless = record { text = λ s. refl; bytes = λ a b. refl }

abbrev setting : Setting
setting = record { context_max_bytes = 600; context_compression = "lzma"; brotli_available = false }

abbrev no_files : Files (List CompressionAlgorithm × String)
no_files = record {
  zlib_file = none;
  lzma_file = none;
  brotli_file = none;
  plain = none;
  has_meta = false;
}

abbrev calls : List Call
calls = appends "one" ∷ saves "two" ∷ appends "three" ∷ []

run-load_example :
    ((run codec setting calls no_files).0 ≡ ok tt)
    × (load codec setting true (run codec setting calls no_files).1 ≡ "two\nthree")
unfolding load find_context_file
run-load_example = run-load codec codec-IsLossless setting calls no_files

compressed : (save codec setting all_written "one" no_files).1.lzma_file ≡ some (lzma ∷ [], "one")
unfolding save choose_algorithm remove_context_files ◌>>=◌
compressed = refl
