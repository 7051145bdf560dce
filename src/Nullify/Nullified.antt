-- ===== src/Nullify/Nullified.antt =====
-- What `vsc_fnullify` does to the descriptors.
use vsclib.Freadall.System.{Return, Value, error, ok, checked}
use vsclib.Nullify.Descriptors.{
  Calls, vsc_fileno, vsc_open, vsc_dup2, vsc_close, duplicated, opened, numbered, fnullify,
}
use vsclib.Prelude.Errno.{Errno, einval}
use vsclib.Prelude.{
  ℕ, Bool, true, false, Option, none, some, ◌≡◌, ◌≢◌, inl, inr, refl, sym, ap, ◌∙◌, Bool-cases,
  ℕ_discrete,
}

module _ {ℓ} {Stream World : Type ℓ} (sys : Calls Stream World) (file : World → ℕ → Option ℕ)
    (devnull : ℕ) where
  -- every descriptor but `fd` denotes what it denoted
  abbrev pub SameBut : ℕ → World → World → Type 0
  SameBut fd w w' = (e : ℕ) → e ≢ fd → file w' e ≡ file w e

  abbrev pub Same : World → World → Type 0
  Same w w' = (e : ℕ) → file w' e ≡ file w e

  -- What POSIX says of the calls: `file` is the open file that a descriptor denotes.
  pub record IsPosix : Type ℓ where
    pub open_fresh :
        (w : World)
        → (sys.open_devnull w).0.negative ≡ false
        → file w ((sys.open_devnull w).0.value) ≡ none
    pub open_file :
        (w : World)
        → (sys.open_devnull w).0.negative ≡ false
        → file (sys.open_devnull w).1 ((sys.open_devnull w).0.value) ≡ some devnull
    pub open_others :
        (w : World)
        → (sys.open_devnull w).0.negative ≡ false
        → SameBut ((sys.open_devnull w).0.value) w (sys.open_devnull w).1
    pub open_failed :
        (w : World) → (sys.open_devnull w).0.negative ≡ true → Same w (sys.open_devnull w).1
    pub dup2_file :
        (old new : ℕ) (w : World)
        → (sys.dup2 old new w).0.negative ≡ false
        → file (sys.dup2 old new w).1 new ≡ file w old
    pub dup2_others :
        (old new : ℕ) (w : World)
        → (sys.dup2 old new w).0.negative ≡ false
        → SameBut new w (sys.dup2 old new w).1
    pub dup2_failed :
        (old new : ℕ) (w : World)
        → (sys.dup2 old new w).0.negative ≡ true
        → Same w (sys.dup2 old new w).1
    pub close_file : (fd : ℕ) (w : World) → file (sys.close fd w).1 fd ≡ none
    pub close_others : (fd : ℕ) (w : World) → SameBut fd w (sys.close fd w).1

  -- An error with every descriptor as it was, or the number of the stream, which denotes the null device,
  -- as one more descriptor does that was not in use.
  pub data IsNullified (fd : ℕ) (w : World) : Value × World → Type ℓ where
    refused : (e : Errno) (w' : World) → Same w w' → IsNullified fd w (error e, w')
    nullified :
        (w' : World) (d : ℕ)
        → d ≢ fd
        → file w' fd ≡ some devnull
        → file w d ≡ none
        → file w' d ≡ some devnull
        → ((e : ℕ) → e ≢ fd → e ≢ d → file w' e ≡ file w e)
        → IsNullified fd w (ok fd, w')

  checked-error : (r : Return) → r.negative ≡ true → checked r ≡ error r.errno
  unfolding checked
  checked-error r e = rw e refl

  checked-ok : (r : Return) → r.negative ≡ false → checked r ≡ ok r.value
  unfolding checked
  checked-ok r e = rw e refl

  module _ (posix : IsPosix) (fd : ℕ) (w : World) (held : file w fd ≢ none) where
    abbrev d : ℕ
    d = (sys.open_devnull w).0.value

    abbrev w1 : World
    w1 = (sys.open_devnull w).1

    apart : (sys.open_devnull w).0.negative ≡ false → d ≢ fd
    apart e same = held (ap (file w) (sym same) ∙ posix.open_fresh w e)

    closed :
        (sys.open_devnull w).0.negative ≡ false
        → (sys.dup2 d fd w1).0.negative ≡ true
        → Same w (vsc_close sys d (sys.dup2 d fd w1).1).1
    unfolding vsc_close
    closed e failed n = elim (ℕ_discrete n d) [
      | yes at_d ↦
          ap (file (sys.close d (sys.dup2 d fd w1).1).1) at_d
          ∙ posix.close_file d (sys.dup2 d fd w1).1
          ∙ sym (ap (file w) at_d ∙ posix.open_fresh w e)
      | no other ↦
          posix.close_others d (sys.dup2 d fd w1).1 n other
          ∙ posix.dup2_failed d fd w1 failed n
          ∙ posix.open_others w e n other
    ]

    duplicated-IsNullified :
        (sys.open_devnull w).0.negative ≡ false
        → IsNullified fd w (duplicated sys d fd (vsc_dup2 sys d fd w1))
    unfolding duplicated vsc_dup2
    duplicated-IsNullified e = elim (Bool-cases ((sys.dup2 d fd w1).0.negative)) [
      | inl failed ↦
          rw (checked-error (sys.dup2 d fd w1).0 failed) (refused _ _ (λ n. closed e failed n))
      | inr done ↦ rw (checked-ok (sys.dup2 d fd w1).0 done) (
          nullified _ d (apart e) (posix.dup2_file d fd w1 done ∙ posix.open_file w e)
            (posix.open_fresh w e)
            (posix.dup2_others d fd w1 done d (apart e) ∙ posix.open_file w e)
            (λ n not_fd not_d.
              posix.dup2_others d fd w1 done n not_fd ∙ posix.open_others w e n not_d))
    ]

    opened-IsNullified : IsNullified fd w (opened sys fd (vsc_open sys w))
    unfolding opened vsc_open
    opened-IsNullified = elim (Bool-cases ((sys.open_devnull w).0.negative)) [
      | inl failed ↦
          rw (checked-error (sys.open_devnull w).0 failed)
            (refused _ _ (posix.open_failed w failed))
      | inr done ↦ rw (checked-ok (sys.open_devnull w).0 done) (duplicated-IsNullified done)
    ]

  -- Where the calls do what POSIX says and the number of the stream is in use, vsc_fnullify returns an error
  -- and leaves every descriptor as it was, or that number, which then denotes the null device. In that
  -- case one more descriptor, which was not in use, denotes it as well, and every other is as it was.
  pub fnullify-IsNullified :
      (null : Bool) (f : Stream) (w : World)
      → IsPosix
      → file w ((sys.fileno f w).value) ≢ none
      → IsNullified ((sys.fileno f w).value) w (fnullify sys null f w)
  unfolding fnullify vsc_fileno numbered
  fnullify-IsNullified true f w posix held = refused einval w (λ n. refl)
  fnullify-IsNullified false f w posix held = elim (Bool-cases ((sys.fileno f w).negative)) [
    | inl failed ↦ rw (checked-error (sys.fileno f w) failed) (refused _ w (λ n. refl))
    | inr done ↦
        rw (checked-ok (sys.fileno f w) done)
          (opened-IsNullified posix ((sys.fileno f w).value) w held)
  ]
