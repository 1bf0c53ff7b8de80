-- ===== src/Linker/Tools/Laws.antt =====
-- Finding the tools runs nothing by `run`: `llvm-config` is only asked. It always returns.
use libarena_rs.Common.{
  ◌≡◌, refl, sym, ◌∙◌, Bool, true, false, Option, none, some, [], ◌∷◌, Text, codes, join_path, trim,
  if◌then◌else◌,
}
use libarena_rs.Linker.Session.{Host, Output, Spawned, cannot_run, ended, envv, envv_or}
use libarena_rs.Linker.Session.Trace.{
  IsQuiet, IsQuiet-bind, IsQuiet-pure, IsQuiet-spawn, Gives, Gives-bind, Gives-pure, Gives-spawn,
}
use libarena_rs.Linker.Session.Returning.{Finishes, Finishes-bind, Finishes-pure, Finishes-spawn}
use libarena_rs.Linker.Tools.{Tools, command, bindir, find_bin, find_tools}

module _ (host : Host) where
  find_bin-IsQuiet : (o : Option Text) → IsQuiet (find_bin host o)
  unfolding find_bin
  find_bin-IsQuiet none = IsQuiet-bind _ _ (IsQuiet-spawn host _) (λ r. IsQuiet-pure _)
  find_bin-IsQuiet (some p) = IsQuiet-pure _

  pub find_tools-IsQuiet : IsQuiet (find_tools host)
  unfolding find_tools
  find_tools-IsQuiet = IsQuiet-bind _ _ (find_bin-IsQuiet _) (λ bin. IsQuiet-pure _)

  find_bin-Finishes : (o : Option Text) → Finishes (find_bin host o)
  unfolding find_bin
  find_bin-Finishes none = Finishes-bind _ _ (Finishes-spawn host _) (λ r. Finishes-pure _)
  find_bin-Finishes (some p) = Finishes-pure _

  pub find_tools-Finishes : Finishes (find_tools host)
  unfolding find_tools
  find_tools-Finishes = Finishes-bind _ _ (find_bin-Finishes _) (λ bin. Finishes-pure _)

  -- The tools of the environment, or those that `llvm-config` names; a failing one is passed over.
  pub data IsBin : Option Text → Type 0 where
    of_prefix :
        {prefix : Text}
        → envv host (codes "LLVM_PREFIX") ≡ some prefix
        → IsBin (some (join_path prefix (codes "bin")))
    of_config :
        {w : host.World} {o : Output}
        → envv host (codes "LLVM_PREFIX") ≡ none
        → (host.output w (command (codes "llvm-config") (codes "--bindir" ∷ []))).0 ≡ ended o
        → o.success ≡ true
        → IsBin (some (trim o.stdout))
    unknown :
        {w : host.World}
        → envv host (codes "LLVM_PREFIX") ≡ none
        → ((o : Output)
            → (host.output w (command (codes "llvm-config") (codes "--bindir" ∷ []))).0 ≡ ended o
            → o.success ≡ false)
        → IsBin none

  pub record AreTools (t : Tools) : Type 0 where
    pub bin_is : IsBin t.bin
    pub python_is : t.python ≡ envv_or host (codes "PYTHON") (codes "python3")

  bindir_lem :
      (w : host.World) (r : Spawned)
      → envv host (codes "LLVM_PREFIX") ≡ none
      → (host.output w (command (codes "llvm-config") (codes "--bindir" ∷ []))).0 ≡ r
      → IsBin (bindir host r)
  unfolding bindir
  bindir_lem w (cannot_run e) unset q = unknown {w = w} unset (λ o p. absurd (cc (sym q ∙ p)))
  bindir_lem w (ended o) unset q = ended_so o.success refl
    where
      ended_so : (b : Bool) → o.success ≡ b → IsBin (if b then some (trim o.stdout) else none)
      ended_so true e = of_config unset q e
      ended_so false e =
          unknown {w = w} unset (λ o' p. let same : o ≡ o' = cc (sym q ∙ p) in rw (← same) e)

  find_bin-Gives :
      (v : Option Text) → envv host (codes "LLVM_PREFIX") ≡ v → Gives (find_bin host v) IsBin
  unfolding find_bin
  find_bin-Gives (some prefix) e = Gives-pure _ (of_prefix e)
  find_bin-Gives none e =
      Gives-bind _ _ (Gives-spawn host _) λ r (w, q). Gives-pure _ (bindir_lem w r e q)

  pub find_tools-Gives : Gives (find_tools host) AreTools
  unfolding find_tools
  find_tools-Gives =
      Gives-bind _ _ (find_bin-Gives _ refl)
        λ bin is_bin. Gives-pure _ (record { bin_is = is_bin; python_is = refl })
