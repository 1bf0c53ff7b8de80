-- ===== src/Linker/Session/Trace.antt =====
-- What a step that returns has added to the commands that were run: one rule for each way to build
-- a step.
use libarena_rs.Common.{
  ◌≡◌, refl, ◌∙◌, sym, ap, Bool, true, false, Option, none, some, List, [], ◌∷◌, ◌++◌, arith, Text,
  append-nil, append_assoc, if◌then◌else◌,
}
use libarena_rs.Linker.Session.{
  Output, Host, Session, Exit, ok, die, panic, panic_with, Link, Linking, pure, stop, continue,
  ◌>>=◌, when, Command, eprintln, run, after_run, write_file, remove_dir, make_dir, Spawned,
  cannot_run, ended, Ran, spawn, ask, unwrap, made_dir, unwrap_ok,
}

-- If the step returns `a`, it has added commands of which `P a` holds.
pub record Adds {W A : Type 0} (m : Link W A) (P : A → List Ran → Type 0) : Type 0 where
  pub at :
      (s : Session W) (a : A)
      → (m s).0 ≡ ok a
      → (xs : List Ran) × P a xs × ((m s).1.ran ≡ s.ran ++ xs)

-- The step runs no command by `run`, whether it returns or not.
pub record IsQuiet {W A : Type 0} (m : Link W A) : Type 0 where
  pub at : (s : Session W) → (m s).1.ran ≡ s.ran

module _ {W A : Type 0} {R : A → List Ran → Type 0} where
  pub Adds-pure : (a : A) → R a [] → Adds {W = W} (pure a) R
  Adds-pure a h = record { at = λ s b e. ([], ground arith, sym (append-nil _)) }

  pub Adds-die : (m : Text) → Adds {W = W} (stop (die m)) R
  Adds-die m = record { at = λ s b e. absurd (cc e) }

  pub Adds-panic : Adds {W = W} (stop panic) R
  Adds-panic = record { at = λ s b e. absurd (cc e) }

  pub Adds-panic_with : (m : Text) → Adds {W = W} (stop (panic_with m)) R
  Adds-panic_with m = record { at = λ s b e. absurd (cc e) }

  pub Adds-if :
      (b : Bool) (m n : Link W A)
      → (b ≡ true → Adds m R)
      → (b ≡ false → Adds n R)
      → Adds (if b then m else n) R
  Adds-if true m n hm hn = hm refl
  Adds-if false m n hm hn = hn refl

  pub Adds-weaken :
      {P : A → List Ran → Type 0} (m : Link W A)
      → Adds m P
      → ((a : A) (xs : List Ran) → P a xs → R a xs)
      → Adds m R
  Adds-weaken m h k = record { at = λ s a e. let (xs, p, q) = h.at s a e in (xs, k a xs p, q) }

module _ {W A B : Type 0} where
  continue_inv :
      (f : A → Link W B) (r : Exit A × Session W) {b : B}
      → (continue r.0 f r.1).0 ≡ ok b
      → (a : A) × (r ≡ (ok a, r.1)) × ((f a r.1).0 ≡ ok b)
  continue_inv f (ok a, s) e = (a, refl, e)
  continue_inv f (die m, s) e = absurd (cc e)
  continue_inv f (panic, s) e = absurd (cc e)
  continue_inv f (panic_with m, s) e = absurd (cc e)

module _ {W A B : Type 0} {R : B → List Ran → Type 0} where
  -- A sequence adds what its parts add.
  pub Adds-bind :
      {P : A → List Ran → Type 0} (m : Link W A) (f : A → Link W B)
      → Adds m P
      → ((a : A) (xs : List Ran) → P a xs → Adds (f a) (λ b ys. R b (xs ++ ys)))
      → Adds (m >>= f) R
  unfolding ◌>>=◌
  Adds-bind m f hm hf = record { at = λ s b e. go s b e (continue_inv f (m s) e) }
    where
      go :
          (s : Session W) (b : B)
          → ((m >>= f) s).0 ≡ ok b
          → (a : A) × (m s ≡ (ok a, (m s).1)) × ((f a (m s).1).0 ≡ ok b)
          → (xs : List Ran) × R b xs × (((m >>= f) s).1.ran ≡ s.ran ++ xs)
      go s b e (a, first, rest) =
          let (xs, p, q) = hm.at s a (ap (λ r. r.0) first) in
          let (ys, r, q') = (hf a xs p).at (m s).1 b rest in
          (
            xs ++ ys,
            r,
            ap (λ x. (continue x f (m s).1).1.ran) (ap (λ r. r.0) first)
                ∙ q'
                ∙ ap (λ l. l ++ ys) q
                ∙ append_assoc s.ran xs ys,
          )

  -- A quiet step in front adds nothing.
  pub Adds-quiet :
      (m : Link W A) (f : A → Link W B) → IsQuiet m → ((a : A) → Adds (f a) R) → Adds (m >>= f) R
  Adds-quiet m f hm hf =
      Adds-bind {P = λ a xs. xs ≡ []} m f
        (record { at = λ s a e. ([], refl, hm.at s ∙ sym (append-nil _)) }) (λ a xs e. rw e (hf a))

-- A step that returns only values of which `P` holds, and then has run nothing by `run`.
abbrev pub Gives : {W A : Type 0} → Link W A → (A → Type 0) → Type 0
Gives m P = Adds m (λ a xs. (xs ≡ []) × P a)

module _ {W A B : Type 0} {R : B → List Ran → Type 0} where
  pub Gives-bind :
      {P : A → Type 0} (m : Link W A) (f : A → Link W B)
      → Gives m P
      → ((a : A) → P a → Adds (f a) R)
      → Adds (m >>= f) R
  Gives-bind m f hm hf = Adds-bind m f hm (λ a xs (e, p). rw e (hf a p))

module _ {W A : Type 0} {P : A → Type 0} where
  pub Gives-pure : (a : A) → P a → Gives {W = W} (pure a) P
  Gives-pure a h = record { at = λ s b e. ([], (refl, rw (inj e) at h), sym (append-nil _)) }
    where
      inj : {b : A} → ok a ≡ ok b → a ≡ b
      inj e = cc e

  pub Gives-of_quiet : (m : Link W A) → IsQuiet m → ((a : A) → P a) → Gives m P
  Gives-of_quiet m h p = record { at = λ s a e. ([], (refl, p a), h.at s ∙ sym (append-nil s.ran)) }

module _ {W A B : Type 0} where
  continue_quiet :
      (e : Exit A) (f : A → Link W B) (s : Session W)
      → ((a : A) → IsQuiet (f a))
      → (continue e f s).1.ran ≡ s.ran
  continue_quiet (ok a) f s h = (h a).at s
  continue_quiet (die m) f s h = refl
  continue_quiet panic f s h = refl
  continue_quiet (panic_with m) f s h = refl

  pub IsQuiet-bind :
      (m : Link W A) (f : A → Link W B) → IsQuiet m → ((a : A) → IsQuiet (f a)) → IsQuiet (m >>= f)
  unfolding ◌>>=◌
  IsQuiet-bind m f hm hf = record { at = λ s. continue_quiet (m s).0 f (m s).1 hf ∙ hm.at s }

module _ {W A : Type 0} where
  pub IsQuiet-pure : (a : A) → IsQuiet {W = W} (pure a)
  IsQuiet-pure a = record { at = λ s. refl }

  pub IsQuiet-stop : (e : Exit A) → IsQuiet {W = W} (stop e)
  IsQuiet-stop e = record { at = λ s. refl }

  pub IsQuiet-if :
      (b : Bool) (m n : Link W A) → IsQuiet m → IsQuiet n → IsQuiet (if b then m else n)
  IsQuiet-if true m n hm hn = hm
  IsQuiet-if false m n hm hn = hn

  -- A quiet step that returns has added nothing.
  pub Adds-of_quiet :
      {R : A → List Ran → Type 0} (m : Link W A) → IsQuiet m → ((a : A) → R a []) → Adds m R
  Adds-of_quiet m h r = record { at = λ s a e. ([], r a, h.at s ∙ sym (append-nil _)) }

module _ (host : Host) where
  pub IsQuiet-eprintln : (line : Text) → IsQuiet (eprintln host line)
  IsQuiet-eprintln line = record { at = λ s. refl }

  pub IsQuiet-when : (b : Bool) (m : Linking host (Unit {0})) → IsQuiet m → IsQuiet (when host b m)
  IsQuiet-when true m h = h
  IsQuiet-when false m h = IsQuiet-pure tt

  pub IsQuiet-spawn : (c : Command) → IsQuiet (spawn host c)
  IsQuiet-spawn c = record { at = λ s. refl }

  pub IsQuiet-ask : {A : Type 0} (f : host.World → A) → IsQuiet (ask host f)
  IsQuiet-ask f = record { at = λ s. refl }

  pub IsQuiet-unwrap : {A : Type 0} (o : Option A) → IsQuiet (unwrap host o)
  IsQuiet-unwrap none = record { at = λ s. refl }
  IsQuiet-unwrap (some a) = record { at = λ s. refl }

  pub Gives-unwrap : {A : Type 0} (o : Option A) → Gives (unwrap host o) (λ a. o ≡ some a)
  Gives-unwrap none = record { at = λ s a e. absurd (cc e) }
  Gives-unwrap (some x) = Gives-pure x refl

  pub Gives-ask :
      {A : Type 0} (f : host.World → A) → Gives (ask host f) (λ a. (w : host.World) × (f w ≡ a))
  Gives-ask f = record { at = λ s a e. ([], (refl, (s.world, cc e)), sym (append-nil s.ran)) }

  unwrap_ok-IsQuiet : (b : Bool) → IsQuiet (unwrap_ok host b)
  unwrap_ok-IsQuiet true = record { at = λ s. refl }
  unwrap_ok-IsQuiet false = record { at = λ s. refl }

  pub IsQuiet-write_file : (path text : Text) → IsQuiet (write_file host path text)
  unfolding write_file
  IsQuiet-write_file path text = record {
    at = λ s.
        let (done, w) = host.write s.world path text in
        (unwrap_ok-IsQuiet done).at (record s { world = w });
  }

  pub IsQuiet-remove_dir : (path : Text) → IsQuiet (remove_dir host path)
  unfolding remove_dir
  IsQuiet-remove_dir path = record { at = λ s. refl }

  made_dir-IsQuiet :
      (e : Option Text) (f : Text → Linking host (Unit {0}))
      → ((t : Text) → IsQuiet (f t))
      → IsQuiet (made_dir host e f)
  made_dir-IsQuiet none f h = IsQuiet-pure tt
  made_dir-IsQuiet (some t) f h = h t

  pub IsQuiet-make_dir :
      (path : Text) (f : Text → Linking host (Unit {0}))
      → ((t : Text) → IsQuiet (f t))
      → IsQuiet (make_dir host path f)
  unfolding make_dir
  IsQuiet-make_dir path f h = record {
    at = λ s.
        let (e, w) = host.create_dir_all s.world path in
        (made_dir-IsQuiet e f h).at (record s { world = w });
  }

  abbrev pub done : Command → Ran
  done c = record { command = c; success = true }

  -- What a command writes where it runs and succeeds, in a world.
  pub record IsOutput (c : Command) (out : Text) : Type 0 where
    pub time : host.World
    pub output : Output
    pub ends : (host.output time c).0 ≡ ended output
    pub success : output.success ≡ true
    pub is_out : out ≡ output.stdout

  after_run_lem :
      (c : Command) (w : host.World) (r : Spawned)
      → (host.output w c).0 ≡ r
      → Adds (after_run host c r) (λ out xs. (xs ≡ done c ∷ []) × IsOutput c out)
  unfolding after_run ◌>>=◌
  after_run_lem c w (cannot_run e) q = record { at = λ s a h. absurd (cc h) }
  after_run_lem c w (ended o) q = record { at = λ s a h. ended_so s a o.success refl h }
    where
      ended_so :
          (s : Session host.World) (a : Text) (b : Bool)
          → o.success ≡ b
          → (after_run host c (ended o) s).0 ≡ ok a
          → (xs : List Ran) × ((xs ≡ done c ∷ []) × IsOutput c a)
            × ((after_run host c (ended o) s).1.ran ≡ s.ran ++ xs)
      ended_so s a true e h = (
        done c ∷ [],
        (refl, record { time = w; output = o; ends = q; success = e; is_out = ground arith }),
        ground arith,
      )
      ended_so s a false e h = absurd (ground arith)

  pub Gives-spawn :
      (c : Command) → Gives (spawn host c) (λ r. (w : host.World) × ((host.output w c).0 ≡ r))
  Gives-spawn c = record { at = λ s r e. ([], (refl, (s.world, cc e)), sym (append-nil s.ran)) }

  -- A command that `run` returned from is the one that was added, and it succeeded, with this output.
  pub Adds-run : (c : Command) → Adds (run host c) (λ out xs. (xs ≡ done c ∷ []) × IsOutput c out)
  unfolding run
  Adds-run c =
      Adds-quiet _ _ (IsQuiet-when _ _ (IsQuiet-eprintln _))
        λ _. Gives-bind _ _ (Gives-spawn c) λ r (w, q). after_run_lem c w r q

-- The commands that a step of several stages adds, one after the other.
module _ (host : Host) {B : Type 0} {R : B → List Ran → Type 0} where
  pub Adds-run-output :
      (c : Command) (f : Text → Linking host B)
      → ((out : Text) → IsOutput host c out → Adds (f out) (λ b ys. R b (done host c ∷ ys)))
      → Adds (run host c >>= f) R
  Adds-run-output c f h =
      Adds-bind (run host c) f (Adds-run host c) (λ out xs (e, o). rw e (h out o))

  pub Adds-run-bind :
      (c : Command) (f : Text → Linking host B)
      → ((out : Text) → Adds (f out) (λ b ys. R b (done host c ∷ ys)))
      → Adds (run host c >>= f) R
  Adds-run-bind c f h = Adds-run-output c f (λ out _. h out)
