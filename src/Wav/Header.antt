-- ===== src/Wav/Header.antt =====
-- The header that `vsc_wav_write` puts together.
use vsclib.Io.Endian.{to_memory, write_leu16, write_leu32, native_to_leu}
use vsclib.Prelude.Bytes.{codes}
use vsclib.Prelude.{ℕ, ◌+◌, ◌*◌, ◌%◌, ◌^◌, ◌<◌, List, [], ◌++◌, length, ◌≡◌, refl, ◌∙◌, arith}
use vsclib.Wav.Fill.{IsFilled, write_uint-IsFilled, whole}
use vsclib.Wav.Write.{fourcc_riff, fourcc_wave, fourcc_fmt, fourcc_data, header}

-- the header of a file in the RIFF format, for samples of 16 bits in PCM
abbrev pub riff_header : ℕ → ℕ → ℕ → List ℕ
riff_header size rate nchannels =
    codes "RIFF"
    ++ to_memory 4 (36 + size)
    ++ codes "WAVE"
    ++ codes "fmt "
    ++ to_memory 4 16
    ++ to_memory 2 1
    ++ to_memory 2 nchannels
    ++ to_memory 4 rate
    ++ to_memory 4 (rate * (2 * nchannels) % 2 ^ 32)
    ++ to_memory 2 (2 * nchannels)
    ++ to_memory 2 16
    ++ codes "data"
    ++ to_memory 4 size

pub header-fields :
    (buf : List ℕ) (size rate nchannels align : ℕ)
    → length buf ≡ 44
    → 36 + size < 2 ^ 32
    → align ≡ 2 * nchannels
    → header buf size rate nchannels align ≡ riff_header size rate nchannels
unfolding header write_leu16 write_leu32 native_to_leu to_memory fourcc_riff fourcc_wave fourcc_fmt
    fourcc_data
header-fields buf size rate nchannels align len fits twice =
    let exact : (36 + size) % 2 ^ 32 ≡ 36 + size = omega arith in
    let f0 : IsFilled buf [] = record { rest = buf; split = refl; size = len } in
    let f1 = write_uint-IsFilled 4 0 fourcc_riff f0 refl (omega arith) in
    let f2 = write_uint-IsFilled 4 4 ((36 + size) % 2 ^ 32) f1 refl (omega arith) in
    let f3 = write_uint-IsFilled 4 8 fourcc_wave f2 refl (omega arith) in
    let f4 = write_uint-IsFilled 4 12 fourcc_fmt f3 refl (omega arith) in
    let f5 = write_uint-IsFilled 4 16 16 f4 refl (omega arith) in
    let f6 = write_uint-IsFilled 2 20 1 f5 refl (omega arith) in
    let f7 = write_uint-IsFilled 2 22 nchannels f6 refl (omega arith) in
    let f8 = write_uint-IsFilled 4 24 rate f7 refl (omega arith) in
    let f9 = write_uint-IsFilled 4 28 (rate * align % 2 ^ 32) f8 refl (omega arith) in
    let f10 = write_uint-IsFilled 2 32 align f9 refl (omega arith) in
    let f11 = write_uint-IsFilled 2 34 16 f10 refl (omega arith) in
    let f12 = write_uint-IsFilled 4 36 fourcc_data f11 refl (omega arith) in
    let f13 = write_uint-IsFilled 4 40 size f12 refl (omega arith) in
    whole f13 refl ∙ rw (exact, twice) refl
