-- ===== src/Wav/Write.antt =====
-- `vsc_wav_write` of vsclib/wav.c on a little-endian machine. `fwrite` of one element and the state
-- of the file are parameters; a sample is a number of 16 bits.
use vsclib.Colour.Pixels.{packu32}
use vsclib.Io.Endian.{to_memory, write_leu16, write_leu32}
use vsclib.Prelude.Errno.{Status, success, failure, einval, erange, eio}
use vsclib.Prelude.Words.{mul_size}
use vsclib.Prelude.{
  ℕ, ◌+◌, ◌-◌, ◌*◌, ◌/◌, ◌%◌, ◌^◌, List, [], ◌∷◌, ◌++◌, take, Bool, not, ◌&&◌, ◌||◌, ◌==◌, ltb, leb,
  if◌then◌else◌,
}

abbrev pub uint32_max : ℕ
uint32_max = 2 ^ 32 - 1

unfoldable pub fourcc : ℕ → ℕ → ℕ → ℕ → ℕ
unfolding packu32
fourcc a b c d = packu32 d c b a

-- `FOURCC_RIFF`, `FOURCC_WAVE`, `FOURCC_fmt_` and `FOURCC_data`
unfoldable pub fourcc_riff : ℕ
unfolding fourcc
fourcc_riff = fourcc 0x52 0x49 0x46 0x46

unfoldable pub fourcc_wave : ℕ
unfolding fourcc
fourcc_wave = fourcc 0x57 0x41 0x56 0x45

unfoldable pub fourcc_fmt : ℕ
unfolding fourcc
fourcc_fmt = fourcc 0x66 0x6d 0x74 0x20

unfoldable pub fourcc_data : ℕ
unfolding fourcc
fourcc_data = fourcc 0x64 0x61 0x74 0x61

-- the writes into the header's buffer
unfoldable pub header : List ℕ → ℕ → ℕ → ℕ → ℕ → List ℕ
unfolding write_leu16 write_leu32 fourcc_riff fourcc_wave fourcc_fmt fourcc_data
header buf data_size sample_rate nchannels block_align =
    let buf = write_leu32 buf 0 fourcc_riff in
    let buf = write_leu32 buf 4 ((36 + data_size) % 2 ^ 32) in
    let buf = write_leu32 buf 8 fourcc_wave in
    let buf = write_leu32 buf 12 fourcc_fmt in
    let buf = write_leu32 buf 16 16 in
    let buf = write_leu16 buf 20 1 in
    let buf = write_leu16 buf 22 nchannels in
    let buf = write_leu32 buf 24 sample_rate in
    let buf = write_leu32 buf 28 (sample_rate * block_align % 2 ^ 32) in
    let buf = write_leu16 buf 32 block_align in
    let buf = write_leu16 buf 34 16 in
    let buf = write_leu32 buf 36 fourcc_data in write_leu32 buf 40 data_size

-- the samples as they stand in memory
unfoldable pub samples_memory : List ℕ → List ℕ
unfolding to_memory
samples_memory [] = []
samples_memory (x ∷ samples) = to_memory 2 x ++ samples_memory samples

-- the arguments: whether the pointers are NULL, the samples, and the numbers
pub record Sound : Type 0 where
  pub no_file : Bool
  pub no_data : Bool
  pub samples : List ℕ
  pub nsamples : ℕ
  pub sample_rate : ℕ
  pub nchannels : ℕ

unfoldable pub block_align : Sound → ℕ
block_align sound = sound.nchannels * 2 % 2 ^ 16

unfoldable pub data_size : Sound → ℕ
unfolding block_align
data_size sound = mul_size (block_align sound) sound.nsamples % 2 ^ 32

module _ {ℓ} {File : Type ℓ} (fwrite : List ℕ → File → ℕ × File) where
  -- `buf` is what the stack holds.
  unfoldable pub wav_write : List ℕ → Sound → File → Status × File
  unfolding header samples_memory block_align data_size
  wav_write buf sound f =
      let align = block_align sound in
      let size = data_size sound in
      if sound.no_file
        || sound.no_data
        || sound.sample_rate == 0
        || (not (sound.nchannels == 1) && not (sound.nchannels == 2))
      then (failure einval, f)
      else if leb (uint32_max / align) sound.nsamples
      then (failure erange, f)
      else if ltb (uint32_max - 36) size
      then (failure erange, f)
      else let (n, f1) = fwrite (header buf size sound.sample_rate sound.nchannels align) f in
        if not (n == 1)
        then (failure eio, f1)
        else let (m, f2) = fwrite (take size (samples_memory sound.samples)) f1 in
          if not (m == 1) then (failure eio, f2) else (success, f2)
