-- ===== src/Wav/File.antt =====
-- What `vsc_wav_write` accepts, and the file that it leaves.
use vsclib.Io.Endian.{to_memory}
use vsclib.Prelude.Words.{mul_size}
use vsclib.Prelude.Errno.{success, failure, einval, erange, eio, Errno}
use vsclib.Prelude.{
  ℕ, ◌+◌, ◌-◌, ◌*◌, ◌/◌, ◌%◌, ◌^◌, ◌≤◌, ◌<◌, List, [], ◌∷◌, ◌++◌, length, take, take_whole, Bool,
  true, false, not, ◌&&◌, ◌||◌, ◌==◌, ==_ne, ltb, leb, Bool-cases, if◌then◌else◌, ◌≡◌, refl, ap,
  ◌∙◌, ◌⊎◌, inl, inr, ◌≢◌, ℕ_discrete, arith,
}
use vsclib.Wav.Header.{riff_header, header-fields}
use vsclib.Wav.Write.{uint32_max, samples_memory, Sound, block_align, data_size, wav_write}

-- arguments that `vsc_wav_write` takes, less the limit on their size
pub record IsSound (sound : Sound) : Type 0 where
  pub file : sound.no_file ≡ false
  pub memory : sound.no_data ≡ false
  pub rate : 0 < sound.sample_rate
  pub channels : (sound.nchannels ≡ 1) ⊎ (sound.nchannels ≡ 2)
  pub word : sound.nsamples < 2 ^ 64

-- the size of the samples
abbrev pub sound_size : Sound → ℕ
sound_size sound = 2 * sound.nchannels * sound.nsamples

guard :
    (sound : Sound)
    → IsSound sound
    → (sound.no_file
        || sound.no_data
        || sound.sample_rate == 0
        || (not (sound.nchannels == 1) && not (sound.nchannels == 2)))
      ≡ false
guard sound v =
    let rate : (sound.sample_rate == 0) ≡ false = ==_ne (λ e. absurd (omega (arith, e, v.rate))) in
    elim v.channels [
      | inl one ↦ rw (v.file, v.memory, rate, one) refl
      | inr two ↦ rw (v.file, v.memory, rate, two) refl
    ]

block_align-channels : (sound : Sound) → IsSound sound → block_align sound ≡ 2 * sound.nchannels
unfolding block_align
block_align-channels sound v = elim v.channels [ inl one ↦ omega arith | inr two ↦ omega arith ]

-- The tests for `align` bytes in a block, 2 or 4. The second implies the first.
limits_of :
    (align n : ℕ)
    → (align ≡ 2) ⊎ (align ≡ 4)
    → n < 2 ^ 64
    → (let size = mul_size align n % 2 ^ 32 in
        let many = leb (uint32_max / align) n in
        let large = ltb (uint32_max - 36) size in
        ((36 + align * n < 2 ^ 32) × (many ≡ false) × (large ≡ false) × (size ≡ align * n))
        ⊎ ((2 ^ 32 ≤ 36 + align * n) × ((many ≡ true) ⊎ ((many ≡ false) × (large ≡ true)))))
limits_of align n (inl two) word = rw two (elim (Bool-cases (leb (uint32_max / 2) n)) [
  | inl many ↦ inr (ground arith, inl many)
  | inr few ↦ elim (Bool-cases (ltb (uint32_max - 36) (mul_size 2 n % 2 ^ 32))) [
    | inl large ↦ inr (ground arith, inr (few, large))
    | inr small ↦ inl (ground arith, few, small, ground arith)
  ]
])
limits_of align n (inr four) word = rw four (elim (Bool-cases (leb (uint32_max / 4) n)) [
  | inl many ↦ inr (ground arith, inl many)
  | inr few ↦ elim (Bool-cases (ltb (uint32_max - 36) (mul_size 4 n % 2 ^ 32))) [
    | inl large ↦ inr (ground arith, inr (few, large))
    | inr small ↦ inl (ground arith, few, small, ground arith)
  ]
])

limits :
    (sound : Sound)
    → IsSound sound
    → ((36 + sound_size sound < 2 ^ 32)
        × (leb (uint32_max / block_align sound) sound.nsamples ≡ false)
        × (ltb (uint32_max - 36) (data_size sound) ≡ false)
        × (data_size sound ≡ sound_size sound))
      ⊎ ((2 ^ 32 ≤ 36 + sound_size sound)
          × ((leb (uint32_max / block_align sound) sound.nsamples ≡ true)
              ⊎ ((leb (uint32_max / block_align sound) sound.nsamples ≡ false)
                  × (ltb (uint32_max - 36) (data_size sound) ≡ true))))
unfolding data_size
limits sound v =
    let align = block_align-channels sound v in
    let few : (2 * sound.nchannels ≡ 2) ⊎ (2 * sound.nchannels ≡ 4) = elim v.channels [
      | inl one ↦ inl (omega arith)
      | inr two ↦ inr (omega arith)
    ] in
    rw align (limits_of (2 * sound.nchannels) sound.nsamples few v.word)

module _ {ℓ} {File : Type ℓ} (fwrite : List ℕ → File → ℕ × File) where
  accepted :
      (buf : List ℕ) (sound : Sound) (f : File)
      → length buf ≡ 44
      → IsSound sound
      → 36 + sound_size sound < 2 ^ 32
      → wav_write fwrite buf sound f ≡ (
          let (n, f1) =
            fwrite (riff_header (sound_size sound) sound.sample_rate sound.nchannels) f in
          if not (n == 1)
          then (failure eio, f1)
          else let (m, f2) = fwrite (take (sound_size sound) (samples_memory sound.samples)) f1 in
            if not (m == 1) then (failure eio, f2) else (success, f2))
  unfolding wav_write
  accepted buf sound f len v fits = elim (limits sound v) [
    | inr (more, _) ↦ absurd (omega arith)
    | inl (_, few, small, exact) ↦
        let put_together =
          header-fields buf (sound_size sound) sound.sample_rate sound.nchannels (block_align sound)
            len fits (block_align-channels sound v) in
        rw (guard sound v, few, small, exact, put_together) refl
  ]

  refused :
      (buf : List ℕ) (sound : Sound) (f : File)
      → IsSound sound
      → 2 ^ 32 ≤ 36 + sound_size sound
      → wav_write fwrite buf sound f ≡ (failure erange, f)
  unfolding wav_write
  refused buf sound f v more = elim (limits sound v) [
    | inl (fits, _, _, _) ↦ absurd (omega arith)
    | inr (_, inl many) ↦ rw (guard sound v, many) refl
    | inr (_, inr (few, large)) ↦ rw (guard sound v, few, large) refl
  ]

length-samples_memory : (samples : List ℕ) → length (samples_memory samples) ≡ 2 * length samples
unfolding samples_memory to_memory
length-samples_memory [] = refl
length-samples_memory (x ∷ samples) = omega (arith, length-samples_memory samples)

no_samples : (samples : List ℕ) → length samples ≡ 0 → samples_memory samples ≡ []
unfolding samples_memory
no_samples [] e = refl
no_samples (x ∷ samples) e = absurd (omega arith)

-- Where fwrite stores an element that has bytes and says 0 of one that has none, a sound whose RIFF
-- chunk fits in 32 bits leaves its header and its samples in the file, the byte rate modulo 2 ^ 32,
-- and one without samples leaves its header and gives EIO.
pub wav_write-file :
    (fwrite : List ℕ → List ℕ → ℕ × List ℕ) (buf : List ℕ) (sound : Sound) (f : List ℕ)
    → ((bytes file : List ℕ) → 0 < length bytes → fwrite bytes file ≡ (1, file ++ bytes))
    → ((file : List ℕ) → fwrite [] file ≡ (0, file))
    → length buf ≡ 44
    → IsSound sound
    → 36 + sound_size sound < 2 ^ 32
    → length sound.samples ≡ sound.nchannels * sound.nsamples
    → (let head = riff_header (sound_size sound) sound.sample_rate sound.nchannels in
        ((0 < sound.nsamples)
          × (wav_write fwrite buf sound f ≡ (success, (f ++ head) ++ samples_memory sound.samples)))
        ⊎ ((sound.nsamples ≡ 0) × (wav_write fwrite buf sound f ≡ (failure eio, f ++ head))))
unfolding to_memory
wav_write-file fwrite buf sound f stores nothing len v fits count =
    let head = riff_header (sound_size sound) sound.sample_rate sound.nchannels in
    let first = stores head f (omega arith) in
    let written = accepted fwrite buf sound f len v fits in
    let bytes : length (samples_memory sound.samples) ≡ sound_size sound =
      length-samples_memory sound.samples ∙ ap (λ n. 2 * n) count ∙ grind arith in
    let every = take_whole (sound_size sound) (samples_memory sound.samples) (omega arith) in
    elim (ℕ_discrete sound.nsamples 0) [
      | yes none_left ↦
          let empty : samples_memory sound.samples ≡ [] =
            no_samples sound.samples
              (count ∙ ap (λ n. sound.nchannels * n) none_left ∙ omega arith) in
          inr (none_left, written ∙ rw (first, every, empty, nothing (f ++ head)) refl)
      | no some_left ↦
          let pos : 0 < length (samples_memory sound.samples) = elim v.channels [
            | inl one ↦ omega (arith, some_left, bytes, ap (λ c. 2 * c * sound.nsamples) one)
            | inr two ↦ omega (arith, some_left, bytes, ap (λ c. 2 * c * sound.nsamples) two)
          ] in
          inl (
            omega (arith, some_left),
            written ∙ rw (first, every, stores (samples_memory sound.samples) (f ++ head) pos) refl,
          )
    ]

-- why `vsc_wav_write` refuses its arguments, and the error
pub data IsRefused (sound : Sound) : Errno → Type 0 where
  null_file : sound.no_file ≡ true → IsRefused sound einval
  null_data : sound.no_data ≡ true → IsRefused sound einval
  no_rate : sound.sample_rate ≡ 0 → IsRefused sound einval
  odd_channels : sound.nchannels ≢ 1 → sound.nchannels ≢ 2 → IsRefused sound einval
  too_large : IsSound sound → 2 ^ 32 ≤ 36 + sound_size sound → IsRefused sound erange

bad :
    (a b c d : Bool) → (a ≡ true) ⊎ (b ≡ true) ⊎ (c ≡ true) ⊎ (d ≡ true) → (a || b || c || d) ≡ true
bad true b c d h = refl
bad false true c d h = refl
bad false false true d h = refl
bad false false false true h = refl
bad false false false false h = ground arith

-- vsc_wav_write gives EINVAL for a NULL pointer, a sample rate of 0 and any number of channels but 1
-- and 2, and else ERANGE if the RIFF chunk does not fit in 32 bits, and leaves the file alone.
pub wav_write-IsRefused {ℓ} :
    {File : Type ℓ} (fwrite : List ℕ → File → ℕ × File) (buf : List ℕ) (sound : Sound) (f : File)
    {e : Errno}
    → IsRefused sound e
    → wav_write fwrite buf sound f ≡ (failure e, f)
unfolding wav_write
wav_write-IsRefused fwrite buf sound f (null_file h) = rw (bad _ _ _ _ (inl h)) refl
wav_write-IsRefused fwrite buf sound f (null_data h) = rw (bad _ _ _ _ (inr (inl h))) refl
wav_write-IsRefused fwrite buf sound f (no_rate h) =
    rw (bad _ _ _ _ (inr (inr (inl (ap (λ n. n == 0) h))))) refl
wav_write-IsRefused fwrite buf sound f (odd_channels one two) =
    let odd : (not (sound.nchannels == 1) && not (sound.nchannels == 2)) ≡ true =
      rw (==_ne one, ==_ne two) refl in
    rw (bad _ _ _ _ (inr (inr (inr odd)))) refl
wav_write-IsRefused fwrite buf sound f (too_large v more) = refused fwrite buf sound f v more
