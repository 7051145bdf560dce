-- ===== src/Wav/Tests.antt =====
-- A short sound, in a file that is a list of bytes.
use vsclib.Prelude.Errno.{success, failure, eio, erange}
use vsclib.Prelude.{
  ℕ, zero, suc, ◌^◌, ◌<◌, List, [], ◌∷◌, ◌++◌, length, false, ◌≡◌, refl, ◌⊎◌, inr, arith,
}
use vsclib.Wav.File.{IsSound, sound_size, wav_write-file, too_large, wav_write-IsRefused}
use vsclib.Wav.Header.{riff_header}
use vsclib.Wav.Write.{Sound, samples_memory, wav_write}

unfoldable store : List ℕ → List ℕ → ℕ × List ℕ
store [] file = (0, file)
store (b ∷ bytes) file = (1, file ++ b ∷ bytes)

stores : (bytes file : List ℕ) → 0 < length bytes → store bytes file ≡ (1, file ++ bytes)
unfolding store
stores [] file h = absurd (omega arith)
stores (b ∷ bytes) file h = refl

zeros : ℕ → List ℕ
zeros zero = []
zeros (suc n) = 0 ∷ zeros n

abbrev buffer : List ℕ
unfolding zeros
buffer = zeros 44

abbrev click : Sound
click = record {
  no_file = false;
  no_data = false;
  samples = 0 ∷ 0x7fff ∷ 0x8000 ∷ 0 ∷ [];
  nsamples = 2;
  sample_rate = 44100;
  nchannels = 2;
}

click-IsSound : IsSound click
click-IsSound = record {
  file = refl;
  memory = refl;
  rate = omega arith;
  channels = inr refl;
  word = omega arith;
}

wav_write-file_example :
    (let head = riff_header (sound_size click) 44100 2 in
      ((0 < click.nsamples)
        × (wav_write store buffer click []
            ≡ (success, ([] ++ head) ++ samples_memory click.samples)))
      ⊎ ((click.nsamples ≡ 0) × (wav_write store buffer click [] ≡ (failure eio, [] ++ head))))
unfolding store zeros
wav_write-file_example =
    wav_write-file store buffer click [] stores (λ file. refl) refl click-IsSound (omega arith) refl

-- more samples than 32 bits can count
abbrev noise : Sound
noise = record click { nsamples = 2 ^ 31 }

noise-IsSound : IsSound noise
noise-IsSound = record {
  file = refl;
  memory = refl;
  rate = omega arith;
  channels = inr refl;
  word = omega arith;
}

wav_write-IsRefused_example : wav_write store buffer noise [] ≡ (failure erange, [])
wav_write-IsRefused_example =
    wav_write-IsRefused store buffer noise [] (too_large noise-IsSound (omega arith))
