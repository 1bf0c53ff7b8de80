-- ===== src/Linker/TrapMode.antt =====
-- How a trap leaves the program: the choice between `bpf_throw` and a return.
use libarena_rs.Common.{
  ◌≡◌, refl, ◌≢◌, ◌⊎◌, inl, inr, Bool, true, false, not, ◌&&◌, none, some, List, [], ◌∷◌, Text,
  codes, text_eq, text_eq_iff, if◌then◌else◌, Bool-cases, Option-cases, sym, ◌∙◌,
}
use libarena_rs.Linker.Session.{
  Spawned, Output, cannot_run, ended, Host, Session, ok, Linking, pure, ◌>>=◌, envv, spawn, ask,
}
use libarena_rs.Linker.Tools.{command}

abbrev pub throw : Text
throw = codes "throw"

abbrev pub ret : Text
ret = codes "ret"

abbrev pub auto : Text
auto = codes "auto"

abbrev orc_probe : List Text
orc_probe =
    codes "-c" ∷ codes "zcat /proc/config.gz 2>/dev/null | grep -q '^CONFIG_UNWINDER_ORC=y'" ∷ []

has_orc : Spawned → Bool
has_orc (cannot_run e) = false
has_orc (ended o) = o.success

module _ (host : Host) where
  -- TRAP_MODE, or `auto` if the kernel to build for is the one that runs.
  unfoldable pub asked_mode : Text
  asked_mode = elim (envv host (codes "TRAP_MODE")) [
    | some m ↦ m
    | none ↦ elim (envv host (codes "LIBARENA_VMLINUX_H")) [ none ↦ auto | some _ ↦ throw ]
  ]

  detect : Linking host Text
  unfolding has_orc
  detect = do
    orc ← spawn host (command (codes "sh") orc_probe)
    has_config ← ask host (λ w. host.exists w (codes "/proc/config.gz"))
    pure (if has_config && not (has_orc orc) then ret else throw)

  unfoldable pub trap_mode : Linking host Text
  unfolding detect
  trap_mode = if text_eq asked_mode auto then detect else pure asked_mode

  -- How `sh` ends when it is asked for the ORC unwinder.
  abbrev pub probe : host.World → Spawned × host.World
  probe w = host.output w (command (codes "sh") orc_probe)

  -- The running kernel is asked.
  abbrev pub AsksKernel : Type 0
  AsksKernel =
      (envv host (codes "TRAP_MODE") ≡ some (codes "auto"))
      ⊎ ((envv host (codes "TRAP_MODE") ≡ none) × (envv host (codes "LIBARENA_VMLINUX_H") ≡ none))

  -- The mode, in a world in which it is chosen.
  pub data ModeOf (w : host.World) : Text → Type 0 where
    given : {m : Text} → envv host (codes "TRAP_MODE") ≡ some m → m ≢ codes "auto" → ModeOf w m
    other_kernel :
        {v : Text}
        → envv host (codes "TRAP_MODE") ≡ none
        → envv host (codes "LIBARENA_VMLINUX_H") ≡ some v
        → ModeOf w (codes "throw")
    no_config :
        AsksKernel
        → host.exists (probe w).1 (codes "/proc/config.gz") ≡ false
        → ModeOf w (codes "throw")
    has_unwinder :
        {o : Output}
        → AsksKernel
        → (probe w).0 ≡ ended o
        → o.success ≡ true
        → ModeOf w (codes "throw")
    lacks_unwinder :
        AsksKernel
        → host.exists (probe w).1 (codes "/proc/config.gz") ≡ true
        → ((o : Output) → (probe w).0 ≡ ended o → o.success ≡ false)
        → ModeOf w (codes "ret")

  detect_lem :
      (s : Session host.World)
      → AsksKernel
      → (m : Text) × ((detect s).0 ≡ ok m) × ((detect s).1.ran ≡ s.ran) × ModeOf s.world m
  unfolding detect ◌>>=◌ has_orc
  detect_lem s asks = (
    _,
    refl,
    refl,
    found (host.exists (probe s.world).1 (codes "/proc/config.gz")) refl (probe s.world).0 refl,
  )
    where
      found :
          (config : Bool)
          → host.exists (probe s.world).1 (codes "/proc/config.gz") ≡ config
          → (r : Spawned) → (probe s.world).0 ≡ r
          → ModeOf s.world (if config && not (has_orc r) then ret else throw)
      found false e r q = no_config asks e
      found true e (cannot_run m) q = lacks_unwinder asks e (λ o p. absurd (cc (sym q ∙ p)))
      found true e (ended o) q = ended_so o.success refl
        where
          ended_so :
              (b : Bool) → o.success ≡ b → ModeOf s.world (if true && not b then ret else throw)
          ended_so true h = has_unwinder asks q h
          ended_so false h =
              lacks_unwinder asks e (λ o' p. let same : o ≡ o' = cc (sym q ∙ p) in rw (← same) h)

  -- What the environment asks for.
  asked_cases :
      ((asked_mode ≡ auto) × AsksKernel)
      ⊎ ((asked_mode ≢ auto) × ((w : host.World) → ModeOf w asked_mode))
  unfolding asked_mode
  asked_cases = elim (Option-cases (envv host (codes "TRAP_MODE"))) [
    | inr (m, e) ↦ elim (Bool-cases (text_eq m auto)) [
      | inl is_auto ↦
          let same : m ≡ auto = (text_eq_iff m auto).0 is_auto in
          rw (asked_mode, e) (inl (same, inl (rw same refl)))
      | inr other ↦
          let differs : m ≢ auto = λ same. cc ((text_eq_iff m auto).1 same) in
          rw (asked_mode, e) (inr (differs, λ w. given e differs))
    ]
    | inl e ↦ elim (Option-cases (envv host (codes "LIBARENA_VMLINUX_H"))) [
      | inl q ↦ rw (asked_mode, e, q) (inl (refl, inr (refl, refl)))
      | inr (v, q) ↦ rw (asked_mode, e, q) (inr ((λ h. cc h), λ w. other_kernel e q))
    ]
  ]

  -- Choosing the mode always returns one, and runs no command by `run`. It is the value of TRAP_MODE,
  -- if that is set, not empty and not `auto`. Where it is not set and LIBARENA_VMLINUX_H is, it is
  -- `throw`. Otherwise it is `ret` if /proc/config.gz is there behind the probe and the probe for the
  -- ORC unwinder cannot be run or fails, and else `throw`.
  pub trap_mode_lem :
      (s : Session host.World)
      → (m : Text) × ((trap_mode s).0 ≡ ok m) × ((trap_mode s).1.ran ≡ s.ran) × ModeOf s.world m
  unfolding trap_mode
  trap_mode_lem s = elim asked_cases [
    | inl (is_auto, asks) ↦
        rw (trap_mode, (text_eq_iff asked_mode auto).1 is_auto) (detect_lem s asks)
    | inr (differs, mode) ↦ rw (trap_mode, not_eq differs) (asked_mode, refl, refl, mode s.world)
  ]
    where
      not_eq : asked_mode ≢ auto → text_eq asked_mode auto ≡ false
      not_eq differs = elim (Bool-cases (text_eq asked_mode auto)) [
        | inl same ↦ absurd (differs ((text_eq_iff asked_mode auto).0 same))
        | inr other ↦ other
      ]
