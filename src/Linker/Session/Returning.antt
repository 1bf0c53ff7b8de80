-- ===== src/Linker/Session/Returning.antt =====
-- Steps that return, whatever session they start from, on an operating system that serves every
-- request.
use libarena_rs.Common.{
  ◌≡◌, refl, ◌∙◌, ap, Bool, true, false, Option, none, some, List, Text, if◌then◌else◌,
}
use libarena_rs.Linker.Session.{
  Host, Session, Exit, ok, Link, Linking, pure, continue, ◌>>=◌, when, Command, Output, eprintln,
  run, after_run, write_file, remove_dir, make_dir, Spawned, ended, spawn, ask, unwrap,
}

-- The step returns a value of which `P` holds.
pub record Returns {W A : Type 0} (m : Link W A) (P : A → Type 0) : Type 0 where
  pub at : (s : Session W) → (a : A) × ((m s).0 ≡ ok a) × P a

abbrev pub Finishes : {W A : Type 0} → Link W A → Type 0
Finishes m = Returns m (λ _. Unit)

-- Files can be written, directories made and read, paths resolved; every command succeeds.
pub record Serves (host : Host) : Type 0 where
  pub written : (w : host.World) (path text : Text) → (host.write w path text).0 ≡ true
  pub made : (w : host.World) (path : Text) → (host.create_dir_all w path).0 ≡ none
  pub resolved :
      (w : host.World) (path : Text) → (full : Text) × (host.canonicalize w path ≡ some full)
  pub listed :
      (w : host.World) (dir : Text) → (entries : List Text) × (host.read_dir w dir ≡ some entries)
  pub succeeds :
      (w : host.World) (c : Command)
      → (o : Output) × ((host.output w c).0 ≡ ended o) × (o.success ≡ true)

module _ {W A : Type 0} where
  pub Returns-pure : {P : A → Type 0} (a : A) → P a → Returns {W = W} (pure a) P
  Returns-pure a h = record { at = λ s. (a, refl, h) }

  pub Finishes-pure : (a : A) → Finishes {W = W} (pure a)
  Finishes-pure a = Returns-pure a tt

  pub Finishes-of : {P : A → Type 0} (m : Link W A) → Returns m P → Finishes m
  Finishes-of m h = record { at = λ s. let (a, e, _) = h.at s in (a, e, tt) }

  pub Returns-weaken :
      {P Q : A → Type 0} (m : Link W A) → Returns m P → ((a : A) → P a → Q a) → Returns m Q
  Returns-weaken m h k = record { at = λ s. let (a, e, p) = h.at s in (a, e, k a p) }

  pub Returns-if :
      {P : A → Type 0} (b : Bool) (m n : Link W A)
      → (b ≡ true → Returns m P)
      → (b ≡ false → Returns n P)
      → Returns (if b then m else n) P
  Returns-if true m n hm hn = hm refl
  Returns-if false m n hm hn = hn refl

module _ {W A B : Type 0} where
  -- A sequence returns if its first part does, and the rest does from what that can return.
  pub Returns-bind :
      {P : A → Type 0} {Q : B → Type 0} (m : Link W A) (f : A → Link W B)
      → Returns m P
      → ((a : A) → P a → Returns (f a) Q)
      → Returns (m >>= f) Q
  unfolding ◌>>=◌
  Returns-bind {P} {Q} m f hm hf = record {
    at = λ s.
        let (a, e, h) = hm.at s in
        let (b, q, k) = (hf a h).at (m s).1 in (b, ap (λ x. (continue x f (m s).1).0) e ∙ q, k);
  }

  -- What a sequence gives, from what its first part gives in one session.
  pub returns_at :
      (m : Link W A) (f : A → Link W B) (s : Session W) {a : A} {r : Exit B}
      → (m s).0 ≡ ok a
      → (f a (m s).1).0 ≡ r
      → ((m >>= f) s).0 ≡ r
  unfolding ◌>>=◌
  returns_at m f s e q = ap (λ x. (continue x f (m s).1).0) e ∙ q

  pub Finishes-bind :
      {Q : B → Type 0} (m : Link W A) (f : A → Link W B)
      → Finishes m
      → ((a : A) → Returns (f a) Q)
      → Returns (m >>= f) Q
  Finishes-bind m f hm hf = Returns-bind m f hm (λ a _. hf a)

module _ (host : Host) where
  pub Finishes-eprintln : (line : Text) → Finishes (eprintln host line)
  Finishes-eprintln line = record { at = λ s. (tt, refl, tt) }

  pub Finishes-when :
      (b : Bool) (m : Linking host (Unit {0})) → Finishes m → Finishes (when host b m)
  Finishes-when true m h = h
  Finishes-when false m h = Finishes-pure tt

  pub Finishes-spawn : (c : Command) → Finishes (spawn host c)
  Finishes-spawn c = record { at = λ s. (_, refl, tt) }

  pub Returns-spawn :
      {P : Spawned → Type 0} (c : Command)
      → ((w : host.World) → P (host.output w c).0)
      → Returns (spawn host c) P
  Returns-spawn c h = record { at = λ s. (_, refl, h s.world) }

  pub Returns-ask :
      {A : Type 0} {P : A → Type 0} (f : host.World → A)
      → ((w : host.World) → P (f w))
      → Returns (ask host f) P
  Returns-ask f h = record { at = λ s. (f s.world, refl, h s.world) }

  pub Finishes-ask : {A : Type 0} (f : host.World → A) → Finishes (ask host f)
  Finishes-ask f = Returns-ask f (λ w. tt)

  pub Returns-unwrap :
      {A : Type 0} {P : A → Type 0} (o : Option A)
      → (a : A) × (o ≡ some a) × P a
      → Returns (unwrap host o) P
  Returns-unwrap none (a, e, _) = absurd (cc e)
  Returns-unwrap (some b) (a, e, h) = let same : a ≡ b = cc e in Returns-pure b (rw (← same) h)

  pub Finishes-remove_dir : (path : Text) → Finishes (remove_dir host path)
  unfolding remove_dir
  Finishes-remove_dir path = record { at = λ s. (tt, refl, tt) }

  module _ (serves : Serves host) where
    pub Finishes-write_file : (path text : Text) → Finishes (write_file host path text)
    unfolding write_file
    Finishes-write_file path text = record {
      at = λ s. (tt, rw (write_file, serves.written s.world path text), tt);
    }

    pub Finishes-make_dir :
        (path : Text) (f : Text → Linking host (Unit {0})) → Finishes (make_dir host path f)
    unfolding make_dir
    Finishes-make_dir path f = record {
      at = λ s. (tt, rw (make_dir, serves.made s.world path), tt);
    }

    after_success :
        (c : Command) (o : Output) → o.success ≡ true → Finishes (after_run host c (ended o))
    unfolding after_run
    after_success c o e =
        rw (after_run, e)
          (Finishes-bind _ _ (record { at = λ s. (tt, refl, tt) })
            λ _. Finishes-bind _ _ (Finishes-when _ _ (Finishes-eprintln _)) λ _. Finishes-pure _)

    pub Finishes-run : (c : Command) → Finishes (run host c)
    unfolding run
    Finishes-run c = Finishes-bind _ _ (Finishes-when _ _ (Finishes-eprintln _)) λ _.
        Returns-bind {P = λ r. (o : Output) × (r ≡ ended o) × (o.success ≡ true)} _ _
          (Returns-spawn c (λ w. serves.succeeds w c))
          λ r (o, e, success). rw e (after_success c o success)
