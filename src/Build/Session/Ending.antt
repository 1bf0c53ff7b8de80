-- ===== src/Build/Session/Ending.antt =====
-- A command of the build that returns.
use libarena_rs.Common.{◌≡◌, refl, true, Bool-cases, inl, inr}
use libarena_rs.Linker.Session.{Session, Command, Output, Spawned, cannot_run, ended, ok, ◌>>=◌}
use libarena_rs.Build.Session.{Builder, run, after_run}

module _ (b : Builder) where
  after_run_succeeds :
      (c : Command) (r : Spawned) (s : Session b.host.World)
      → (after_run b c r s).0 ≡ ok tt
      → (o : Output) × (r ≡ ended o) × (o.success ≡ true) × ((after_run b c r s).1.world ≡ s.world)
  unfolding after_run ◌>>=◌
  after_run_succeeds c (cannot_run e) s h = absurd (cc h)
  after_run_succeeds c (ended o) s h = elim (Bool-cases o.success) [
    | inl success ↦ (o, refl, success, rw success refl)
    | inr failed ↦ absurd (cc (rw failed at h))
  ]

  pub run_succeeds :
      (c : Command) (s : Session b.host.World)
      → (run b c s).0 ≡ ok tt
      → (o : Output) × ((b.host.output s.world c).0 ≡ ended o)
        × (o.success ≡ true)
        × ((run b c s).1.world ≡ (b.host.output s.world c).1)
  unfolding run ◌>>=◌
  run_succeeds c s h = after_run_succeeds c _ _ h
