-- ===== src/Build/Session/Trace.antt =====
-- What the build's steps add to the commands that were run.
use libarena_rs.Common.{◌≡◌, refl, [], ◌∷◌, arith, Text}
use libarena_rs.Linker.Session.{
  Command, Output, Spawned, cannot_run, ended, Session, ok, panic_with, stop, Ran, pure, ◌>>=◌,
}
use libarena_rs.Linker.Session
use libarena_rs.Linker.Session.Trace.{
  Adds, IsQuiet, Gives, Gives-bind, Gives-pure, Gives-of_quiet, Adds-quiet, IsQuiet-spawn,
  IsQuiet-pure, IsQuiet-stop, done,
}
use libarena_rs.Build.Session.{
  Builder, Building, println, envv, run, after_run, act, on_done, unwrap_or_panic, IoResult,
}

module _ (b : Builder) where
  pub IsQuiet-println : (line : Text) → IsQuiet (println b line)
  IsQuiet-println line = record { at = λ s. refl }

  -- Reading a variable gives the variable.
  pub Gives-envv : (n : Text) → Gives (envv b n) (λ v. v ≡ Session.envv b.host n)
  unfolding envv
  Gives-envv n =
      Gives-bind {P = λ _. Unit {0}} _ _ (Gives-of_quiet _ (IsQuiet-println _) (λ _. tt))
        λ _ _. Gives-pure _ refl

  pub IsQuiet-act : {A : Type 0} (f : b.host.World → A × b.host.World) → IsQuiet (act b f)
  IsQuiet-act f = record { at = λ s. refl }

  pub IsQuiet-on_done :
      {A B : Type 0} (f : A → Building b (IoResult B)) (r : IoResult A)
      → ((a : A) → IsQuiet (f a))
      → IsQuiet (on_done b f r)
  IsQuiet-on_done f (IoResult.done a) h = h a
  IsQuiet-on_done f (IoResult.error e) h = IsQuiet-pure _

  pub IsQuiet-unwrap_or_panic :
      (message : Text → Text) (r : IoResult (Unit {0})) → IsQuiet (unwrap_or_panic b message r)
  IsQuiet-unwrap_or_panic message (IoResult.done a) = IsQuiet-pure _
  IsQuiet-unwrap_or_panic message (IoResult.error e) = IsQuiet-stop _

  after_run_lem :
      (c : Command) (r : Spawned) → Adds (after_run b c r) (λ _ xs. xs ≡ done b.host c ∷ [])
  unfolding after_run ◌>>=◌
  after_run_lem c (cannot_run e) = record { at = λ s a h. absurd (cc h) }
  after_run_lem c (ended o) = record { at = λ s a h. (done b.host c ∷ [], refl, ground arith) }

  -- A command that `run` returned from succeeded.
  pub Adds-run : (c : Command) → Adds (run b c) (λ _ xs. xs ≡ done b.host c ∷ [])
  unfolding run
  Adds-run c = Adds-quiet _ _ (IsQuiet-spawn b.host c) λ r. after_run_lem c r
