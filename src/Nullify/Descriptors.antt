-- ===== src/Nullify/Descriptors.antt =====
-- `vsc_fnullify`. The calls of the system, and the world that they change, are parameters.
use vsclib.Freadall.System.{Return, Value, error, ok, checked}
use vsclib.Prelude.Errno.{einval}
use vsclib.Prelude.{ℕ, Bool, if◌then◌else◌}

-- `fileno`, `open` of `VSC_DEVNULL`, `dup2` and `close`
pub record Calls {ℓ} (Stream World : Type ℓ) : Type ℓ where
  pub fileno : Stream → World → Return
  pub open_devnull : World → Return × World
  pub dup2 : ℕ → ℕ → World → Return × World
  pub close : ℕ → World → Return × World

module _ {ℓ} {Stream World : Type ℓ} (sys : Calls Stream World) where
  unfoldable pub vsc_fileno : Stream → World → Value
  unfolding checked
  vsc_fileno f w = checked (sys.fileno f w)

  unfoldable pub vsc_open : World → Value × World
  unfolding checked
  vsc_open w = let (r, w') = sys.open_devnull w in (checked r, w')

  unfoldable pub vsc_dup2 : ℕ → ℕ → World → Value × World
  unfolding checked
  vsc_dup2 oldfd newfd w = let (r, w') = sys.dup2 oldfd newfd w in (checked r, w')

  unfoldable pub vsc_close : ℕ → World → Value × World
  unfolding checked
  vsc_close fd w = let (r, w') = sys.close fd w in (checked r, w')

  -- what follows `vsc_dup2`
  unfoldable pub duplicated : ℕ → ℕ → Value × World → Value × World
  unfolding vsc_close
  duplicated devnull fd (error e, w) = (error e, (vsc_close devnull w).1)
  duplicated devnull fd (ok r, w) = (ok fd, w)

  -- what follows `vsc_open`
  unfoldable pub opened : ℕ → Value × World → Value × World
  unfolding vsc_dup2 duplicated
  opened fd (error e, w) = (error e, w)
  opened fd (ok devnull, w) = duplicated devnull fd (vsc_dup2 devnull fd w)

  -- what follows `vsc_fileno`
  unfoldable pub numbered : Value → World → Value × World
  unfolding vsc_open opened
  numbered (error e) w = (error e, w)
  numbered (ok fd) w = opened fd (vsc_open w)

  -- `null` says that the stream is NULL.
  unfoldable pub fnullify : Bool → Stream → World → Value × World
  unfolding vsc_fileno numbered
  fnullify null f w = if null then (error einval, w) else numbered (vsc_fileno f w) w
