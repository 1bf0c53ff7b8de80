-- ===== src/Linker/Session/Ending.antt =====
-- The steps of a process that returns.
use libarena_rs.Common.{◌≡◌, refl}
use libarena_rs.Linker.Session.{Session, Exit, ok, die, panic, panic_with, Link, continue, ◌>>=◌}

module _ {W A B : Type 0} where
  continue_ok :
      (e : Exit A) (f : A → Link W B) (s : Session W) (b : B)
      → (continue e f s).0 ≡ ok b
      → (a : A) × (e ≡ ok a) × (continue e f s ≡ f a s)
  continue_ok (ok a) f s b h = (a, refl, refl)
  continue_ok (die m) f s b h = absurd (cc h)
  continue_ok panic f s b h = absurd (cc h)
  continue_ok (panic_with m) f s b h = absurd (cc h)

  -- Where two steps return, the first one returns, and the second goes on from where it ends.
  pub bind_ok :
      (m : Link W A) (f : A → Link W B) (s : Session W) (b : B)
      → ((m >>= f) s).0 ≡ ok b
      → (a : A) × ((m s).0 ≡ ok a) × ((m >>= f) s ≡ f a (m s).1)
  unfolding ◌>>=◌
  bind_ok m f s b h = continue_ok (m s).0 f (m s).1 b h

  -- What the second step always leaves, where both return.
  pub bind_leaves :
      (P : Session W → Type 0) (m : Link W A) (f : A → Link W B)
      → ((a : A) (s : Session W) → (b : B) → (f a s).0 ≡ ok b → P (f a s).1)
      → (s : Session W) (b : B) → ((m >>= f) s).0 ≡ ok b
      → P ((m >>= f) s).1
  bind_leaves P m f h s b e =
      let (a, is_a, same) = bind_ok m f s b e in rw same (h a (m s).1 b (rw same at e))
