-- ===== src/Context.antt =====
-- context/manager.py and context/compression.py: the context of one session, in the files of its
-- directory. The bytes, UTF-8 and the three compressors are a `Codec`; brotli may not be installed. The
-- operating system says whether a write succeeds. The metadata beside the data is written and never read.
pub mod Rounds
pub mod Tests
use Prim.Native.String.{◌++◌ as append_text}
use next_me.Common.{
  ℕ, ◌*◌, String, Bool, true, false, not, Option, none, some, ◌==◌, string_comparable,
  if◌then◌else◌, ltb, leb, Action, return, raise, os_error, ◌>>=◌, ◌>>◌,
}

pub data CompressionAlgorithm : Type 0 where
  zlib lzma brotli : CompressionAlgorithm

pub record Codec (B : Type 0) : Type 0 where
  pub encode : String → B
  pub decode : B → String
  pub size : B → ℕ
  pub squeeze : CompressionAlgorithm → B → B
  pub unsqueeze : CompressionAlgorithm → B → Option B

-- The settings, and whether brotli can be imported.
pub record Setting : Type 0 where
  pub context_max_bytes : ℕ
  pub context_compression : String
  pub brotli_available : Bool

-- context.zlib, context.lzma, context.br, context.txt, and whether there is a context.meta.json.
pub record Files (B : Type 0) : Type 0 where
  pub zlib_file : Option B
  pub lzma_file : Option B
  pub brotli_file : Option B
  pub plain : Option B
  pub has_meta : Bool

-- Whether the write of the data and that of the metadata succeed.
pub record Writes : Type 0 where
  pub writes_data : Bool
  pub writes_meta : Bool

unfoldable pub choose_algorithm : ℕ → Setting → CompressionAlgorithm
choose_algorithm size setting =
    if setting.brotli_available
    then brotli
    else if setting.context_compression == "lzma"
    then lzma
    else if setting.context_compression == "zlib"
    then zlib
    else if ltb size (500 * 1024)
    then zlib
    else lzma

abbrev pub joined : String → String → String
joined existing new_content =
    if existing == "" then new_content else append_text existing (append_text "\n" new_content)

module _ {B : Type 0} where
  -- `none` where brotli is asked for and missing, or the data is not what the compressor made.
  unfoldable pub decompress : Codec B → Bool → CompressionAlgorithm → B → Option B
  decompress codec available zlib data' = codec.unsqueeze zlib data'
  decompress codec available lzma data' = codec.unsqueeze lzma data'
  decompress codec available brotli data' = if available then codec.unsqueeze brotli data' else none

  unfoldable pub remove_context_files : Files B → Files B
  remove_context_files files = record {
    zlib_file = none;
    lzma_file = none;
    brotli_file = none;
    plain = none;
    has_meta = false;
  }

  -- The file of the algorithm is there from then on.
  abbrev pub with_file : CompressionAlgorithm → B → Files B → Files B
  with_file zlib b files = record files { zlib_file = some b }
  with_file lzma b files = record files { lzma_file = some b }
  with_file brotli b files = record files { brotli_file = some b }

  abbrev pub write_data : Writes → Files B → Action (Files B) (Unit {0})
  write_data w after files = if w.writes_data then return tt after else raise os_error files

  abbrev pub write_meta : Writes → Action (Files B) (Unit {0})
  write_meta w files =
      if w.writes_meta then return tt (record files { has_meta = true }) else raise os_error files

  -- The old files are gone before the new one is written.
  unfoldable pub save : Codec B → Setting → Writes → String → Action (Files B) (Unit {0})
  unfolding choose_algorithm remove_context_files
  save codec setting w content old =
      let files = remove_context_files old in
      let raw = codec.encode content in
      if leb (codec.size raw) setting.context_max_bytes
      then write_data w (record files { plain = some raw }) files
      else let algo = choose_algorithm (codec.size raw) setting in
        (write_data w (with_file algo (codec.squeeze algo raw) files) >> write_meta w) files

  -- The compressed files come before the plain one.
  unfoldable pub find_context_file : Files B → Option (B × Option CompressionAlgorithm)
  find_context_file files = elim files.zlib_file [
    | some b ↦ some (b, some zlib)
    | none ↦ elim files.lzma_file [
      | some b ↦ some (b, some lzma)
      | none ↦ elim files.brotli_file [
        | some b ↦ some (b, some brotli)
        | none ↦ elim files.plain [ some b ↦ some (b, none) | none ↦ none ]
      ]
    ]
  ]

  abbrev pub text_of : Codec B → Option B → String
  text_of codec none = ""
  text_of codec (some raw) = codec.decode raw

  -- `readable` is whether the file can be read.
  unfoldable pub load : Codec B → Setting → Bool → Files B → String
  unfolding find_context_file decompress
  load codec setting readable files = elim (find_context_file files) [
    | none ↦ ""
    | some found ↦ if not readable then "" else elim found.1 [
      | none ↦ codec.decode found.0
      | some algo ↦ text_of codec (decompress codec setting.brotli_available algo found.0)
    ]
  ]

  unfoldable pub append : Codec B → Setting → Bool → Writes → String → Action (Files B) (Unit {0})
  unfolding save load
  append codec setting readable w new_content files =
      save codec setting w (joined (load codec setting readable files) new_content) files

  unfoldable pub get_size : Codec B → Files B → ℕ
  unfolding find_context_file
  get_size codec files = elim (find_context_file files) [
    | none ↦ 0
    | some found ↦ codec.size found.0
  ]
