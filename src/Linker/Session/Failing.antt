-- ===== src/Linker/Session/Failing.antt =====
-- A command that fails is the last one that a step runs, and ends the process: the linker dies, the
-- build script panics.
use libarena_rs.Common.{
  ◌≡◌, refl, ◌∙◌, sym, ap, Bool, true, false, List, [], ◌∷◌, ◌++◌, Text, if◌then◌else◌, append-nil,
  append_assoc, All, All-append, ◌⊎◌, inl, inr, Bool-cases,
}
use libarena_rs.Linker.Session.{
  Host, Session, Exit, ok, die, panic, panic_with, Link, Linking, continue, ◌>>=◌, Command, Ran,
  run, after_run, Spawned, cannot_run, ended,
}
use libarena_rs.Linker.Session.Trace.{
  IsQuiet, IsQuiet-eprintln, IsQuiet-when, IsQuiet-spawn, IsQuiet-bind, IsQuiet-pure,
}

abbrev pub Succeeded : List Ran → Type 0
Succeeded = All (λ r. r.success ≡ true)

pub data Way : Type 0 where
  by_death by_panic : Way

abbrev pub halted : {A : Type 0} → Way → Text → Exit A
halted by_death m = die m
halted by_panic m = panic_with m

-- The last command failed, those before it succeeded, and the process ended with a message.
pub record Failed {A : Type 0} (way : Way) (e : Exit A) (xs : List Ran) : Type 0 where
  pub earlier : List Ran
  pub last_one : Ran
  pub spells : xs ≡ earlier ++ last_one ∷ []
  pub succeeded : Succeeded earlier
  pub failed : last_one.success ≡ false
  pub message : Text
  pub ends : e ≡ halted way message

-- The commands that a step has added.
pub record Stops {W A : Type 0} (way : Way) (m : Link W A) : Type 0 where
  pub at :
      (s : Session W)
      → (xs : List Ran) × ((m s).1.ran ≡ s.ran ++ xs) × (Succeeded xs ⊎ Failed way (m s).0 xs)

module _ {W A : Type 0} {way : Way} where
  pub Stops-of_quiet : (m : Link W A) → IsQuiet m → Stops way m
  Stops-of_quiet m h = record { at = λ s. ([], h.at s ∙ sym (append-nil _), inl tt) }

  pub Stops-if :
      (b : Bool) (m n : Link W A) → Stops way m → Stops way n → Stops way (if b then m else n)
  Stops-if true m n hm hn = hm
  Stops-if false m n hm hn = hn

-- Commands that succeeded in front of those of a step.
in_front :
    {A : Type 0} (way : Way) (e : Exit A) (xs ys : List Ran)
    → Succeeded xs
    → Succeeded ys ⊎ Failed way e ys
    → Succeeded (xs ++ ys) ⊎ Failed way e (xs ++ ys)
in_front way e xs ys good (inl h) = inl (All-append (λ r. r.success ≡ true) xs ys good h)
in_front way e xs ys good (inr f) = inr (record {
  earlier = xs ++ f.earlier;
  last_one = f.last_one;
  spells = rw f.spells (sym (append_assoc xs f.earlier (f.last_one ∷ [])));
  succeeded = All-append (λ r. r.success ≡ true) xs f.earlier good f.succeeded;
  failed = f.failed;
  message = f.message;
  ends = f.ends;
})

-- A step that ended the process has not gone on to another one.
ended_there :
    {A B : Type 0} (way : Way) (e : Exit A) (e' : Exit B) (xs : List Ran)
    → ((m : Text) → e ≡ halted way m → e' ≡ halted way m)
    → Succeeded xs ⊎ Failed way e xs
    → Succeeded xs ⊎ Failed way e' xs
ended_there way e e' xs same (inl h) = inl h
ended_there way e e' xs same (inr f) = inr (record {
  earlier = f.earlier;
  last_one = f.last_one;
  spells = f.spells;
  succeeded = f.succeeded;
  failed = f.failed;
  message = f.message;
  ends = same f.message f.ends;
})

-- What returns has not ended the process.
returned : {A : Type 0} (way : Way) (a : A) (m : Text) → ok a ≡ halted way m → ⊥
returned by_death a m e = absurd (cc e)
returned by_panic a m e = absurd (cc e)

other_death :
    {A B : Type 0} (way : Way) (m m' : Text)
    → ◌≡◌ {A = Exit A} (die m) (halted way m')
    → ◌≡◌ {A = Exit B} (die m) (halted way m')
other_death by_death m m' e = cc
other_death by_panic m m' e = absurd (cc e)

other_panic :
    {A B : Type 0} (way : Way) (m' : Text)
    → ◌≡◌ {A = Exit A} panic (halted way m')
    → ◌≡◌ {A = Exit B} panic (halted way m')
other_panic by_death m' e = absurd (cc e)
other_panic by_panic m' e = absurd (cc e)

other_message :
    {A B : Type 0} (way : Way) (m m' : Text)
    → ◌≡◌ {A = Exit A} (panic_with m) (halted way m')
    → ◌≡◌ {A = Exit B} (panic_with m) (halted way m')
other_message by_death m m' e = absurd (cc e)
other_message by_panic m m' e = cc

module _ {W A B : Type 0} {way : Way} where
  pub Stops-bind :
      (m : Link W A) (f : A → Link W B)
      → Stops way m
      → ((a : A) → Stops way (f a))
      → Stops way (m >>= f)
  unfolding ◌>>=◌
  Stops-bind m f hm hf = record {
    at = λ s. let (xs, p, h) = hm.at s in go s.ran (m s).0 (m s).1 xs p h;
  }
    where
      go :
          (before : List Ran) (e : Exit A) (t : Session W) (xs : List Ran)
          → t.ran ≡ before ++ xs
          → Succeeded xs ⊎ Failed way e xs
          → (ys : List Ran) × ((continue e f t).1.ran ≡ before ++ ys)
            × (Succeeded ys ⊎ Failed way (continue e f t).0 ys)
      go before (ok a) t xs p (inl good) =
          let (ys, q, h) = (hf a).at t in
          (
            xs ++ ys,
            q ∙ ap (λ l. l ++ ys) p ∙ append_assoc before xs ys,
            in_front way _ xs ys good h,
          )
      go before (ok a) t xs p (inr failed) = absurd (returned way a failed.message failed.ends)
      go before (die m) t xs p h = (xs, p, ended_there way _ _ xs (other_death way m) h)
      go before panic t xs p h = (xs, p, ended_there way _ _ xs (other_panic way) h)
      go before (panic_with m) t xs p h = (xs, p, ended_there way _ _ xs (other_message way m) h)

module _ {W A B : Type 0} {way : Way} where
  pub Stops-quiet :
      (m : Link W A) (f : A → Link W B)
      → IsQuiet m
      → ((a : A) → Stops way (f a))
      → Stops way (m >>= f)
  Stops-quiet m f hm hf = Stops-bind m f (Stops-of_quiet m hm) hf

module _ (host : Host) where
  -- A step that logs a failure and ends the process.
  pub Stops-failed :
      {A : Type 0} (way : Way) (m : Linking host A) (c : Command) (message : Text)
      → ((s : Session host.World)
          → ((m s).0 ≡ halted way message)
            × ((m s).1.ran ≡ s.ran ++ record { command = c; success = false } ∷ []))
      → Stops way m
  Stops-failed way m c message h = record {
    at = λ s.
        let (ends, ran) = h s in
        (
          record { command = c; success = false } ∷ [],
          ran,
          inr (record {
            earlier = [];
            last_one = record { command = c; success = false };
            spells = refl;
            succeeded = tt;
            failed = refl;
            message = message;
            ends = ends;
          }),
        );
  }

  after_run-Stops : (c : Command) (r : Spawned) → Stops by_death (after_run host c r)
  unfolding after_run
  after_run-Stops c (cannot_run e) =
      unfold ◌>>=◌ in
      Stops-failed by_death (after_run host c (cannot_run e)) c _ (λ s. (refl, refl))
  after_run-Stops c (ended o) = elim (Bool-cases o.success) [
    | inl e ↦
        rw (after_run, e)
          (Stops-bind _ _ (record { at = λ s. (_, refl, inl (refl, tt)) })
            λ _. Stops-of_quiet _ (
              IsQuiet-bind _ _ (IsQuiet-when host _ _ (IsQuiet-eprintln host _))
                (λ _. IsQuiet-pure _)))
    | inr e ↦ rw (after_run, e) (unfold ◌>>=◌ in Stops-failed by_death _ c _ (λ s. (refl, refl)))
  ]

  pub Stops-run : (c : Command) → Stops by_death (run host c)
  unfolding run
  Stops-run c =
      Stops-bind _ _ (Stops-of_quiet _ (IsQuiet-when host _ _ (IsQuiet-eprintln host _)))
        λ _. Stops-bind _ _ (Stops-of_quiet _ (IsQuiet-spawn host c)) λ r. after_run-Stops c r

module _ (host : Host) {B : Type 0} where
  pub Stops-run-bind :
      (c : Command) (f : Text → Linking host B)
      → ((out : Text) → Stops by_death (f out))
      → Stops by_death (run host c >>= f)
  Stops-run-bind c f h = Stops-bind _ _ (Stops-run host c) h
