-- ===== src/Build/Session/Returning.antt =====
-- Steps of the build that return.
use libarena_rs.Common.{◌≡◌, refl, true, Text}
use libarena_rs.Linker.Session.{Command, Output, Spawned, ended, Session, ok, ◌>>=◌, pure}
use libarena_rs.Linker.Session
use libarena_rs.Linker.Session.Returning.{
  Returns, Finishes, Serves, Returns-pure, Returns-bind, Finishes-bind, Returns-spawn,
}
use libarena_rs.Build.Session.{Builder, println, envv, run, after_run, act}

module _ (b : Builder) where
  pub Finishes-println : (line : Text) → Finishes (println b line)
  Finishes-println line = record { at = λ s. (tt, refl, tt) }

  pub Returns-envv : (n : Text) → Returns (envv b n) (λ v. v ≡ Session.envv b.host n)
  unfolding envv
  Returns-envv n = Finishes-bind _ _ (Finishes-println _) λ _. Returns-pure _ refl

  pub Returns-act :
      {A : Type 0} {P : A → Type 0} (f : b.host.World → A × b.host.World)
      → ((w : b.host.World) → P (f w).0)
      → Returns (act b f) P
  Returns-act f h = record { at = λ s. ((f s.world).0, refl, h s.world) }

  after_success : (c : Command) (o : Output) → o.success ≡ true → Finishes (after_run b c (ended o))
  unfolding after_run
  after_success c o e = rw (after_run, e) (record { at = λ s. (tt, refl, tt) })

  pub Finishes-run : Serves b.host → (c : Command) → Finishes (run b c)
  unfolding run
  Finishes-run serves c =
      Returns-bind {P = λ r. (o : Output) × (r ≡ ended o) × (o.success ≡ true)} _ _
        (Returns-spawn b.host c (λ w. serves.succeeds w c))
        λ r (o, e, success). rw e (after_success c o success)
