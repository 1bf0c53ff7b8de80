-- ===== src/Linker/Pipeline/Order/Gather.antt =====
-- Commands of the first stages: reading the options, finding the tools and the bitcode.
use libarena_rs.Common.{
  ℕ, suc, ◌≡◌, refl, ◌∙◌, sym, ap, false, ◌||◌, Option, none, some, List, [], ◌∷◌, ◌++◌, arith,
  Text, codes, is_nil, append-nil, append_assoc, find, map, join_path,
}
use libarena_rs.Linker.Args.{Opts}
use libarena_rs.Linker.Session.{Host, Ran}
use libarena_rs.Linker.Session.Trace.{
  Adds, IsQuiet, Adds-pure, Adds-die, Adds-if, Adds-weaken, Adds-bind, Adds-quiet, IsQuiet-bind,
  IsQuiet-pure, IsQuiet-stop, IsQuiet-if, IsQuiet-eprintln, IsQuiet-when, IsQuiet-spawn,
  IsQuiet-ask, IsQuiet-unwrap, IsQuiet-write_file, IsQuiet-remove_dir, IsQuiet-make_dir,
  Adds-run-bind, Gives, Gives-bind, Gives-ask, Gives-unwrap, Gives-pure,
}
use libarena_rs.Sort.{sort}
use libarena_rs.Linker.Pipeline.Order.Inputs.{
  IsResolved, AreMembers, IsFound, IsInput, AreInputs, itself, unpacked, skipped, no_inputs, input,
}
use libarena_rs.Linker.Tools.{Tools, extract}
use libarena_rs.Linker.Pipeline.Stage.{succeeded, p, unpack_stage}
use libarena_rs.Linker.Pipeline.Plan.{unpackings}
use libarena_rs.Linker.Pipeline.Run.{
  gather_inputs, input_bitcode, archive_or_die, find_archive, gather_bitcode,
}

ruleset quiet_rules = (
  IsQuiet-bind, IsQuiet-pure, IsQuiet-stop, IsQuiet-if, IsQuiet-eprintln, IsQuiet-when,
  IsQuiet-spawn, IsQuiet-ask, IsQuiet-unwrap, IsQuiet-write_file, IsQuiet-remove_dir,
  IsQuiet-make_dir,
)

module _ (host : Host) (t : Tools) (tmp : Text) where
  abbrev Unpacks : List (Text × Text) → List Ran → Type 0
  Unpacks us xs = xs ≡ succeeded t tmp (unpackings us)

  -- What `extract` has run and returned.
  abbrev Extracted : Text → Text → List Text → List Ran → Type 0
  Extracted archive dir bcs xs =
      (path : Text) × IsResolved host archive path
      × AreMembers host dir bcs
      × Unpacks ((path, dir) ∷ []) xs

  pub extract_adds :
      (archive dir : Text) → Adds (extract host t archive dir) (Extracted archive dir)
  unfolding extract
  extract_adds archive dir = Adds-quiet _ _ (IsQuiet-make_dir host dir _ (λ e. IsQuiet-stop _)) λ _.
      Gives-bind _ _ (Gives-ask host _) λ full (w, resolved).
        Gives-bind _ _ (Gives-unwrap host full) λ path is_path. Adds-run-bind host _ _ λ out.
          Gives-bind _ _ (Gives-ask host _) λ found (w', listed).
            Gives-bind _ _ (Gives-unwrap host found) λ entries are_entries.
              Gives-bind _ _ (Gives-ask host _) λ members (w'', kept). Adds-pure _ (
                path,
                record { time = w; resolved = resolved ∙ is_path },
                record {
                  listing_time = w';
                  entries = entries;
                  listed = listed ∙ are_entries;
                  reading_time = w'';
                  members_are = sym (ap sort kept);
                },
                rw unpack_stage,
              )

  -- What a step has run and returned for an input.
  abbrev OfInput : ℕ → Text → List Text → List Ran → Type 0
  OfInput i inp bcs xs = (us : List (Text × Text)) × IsInput host t tmp i inp bcs us × Unpacks us xs

  input_bitcode_adds : (i : ℕ) (inp : Text) → Adds (input_bitcode host t tmp i inp) (OfInput i inp)
  unfolding input_bitcode
  input_bitcode_adds i inp = Gives-bind _ _ (Gives-ask host _) λ bitcode (w, is_bc).
      Gives-bind _ _ (Gives-ask host _) λ archive (w', is_ar).
        Adds-if bitcode _ _ (λ yes. Adds-pure _ ([], itself (w, is_bc ∙ yes), refl))
          λ no.
            Adds-if archive _ _
              (λ yes. Adds-weaken _ (extract_adds inp _) λ bcs xs (path, resolved, members, e).
                ((path, _) ∷ [], unpacked (w, is_bc ∙ no) (w', is_ar ∙ yes) resolved members, e))
              λ no_archive.
                Adds-quiet _ _ (search quiet_rules)
                  λ _. Adds-pure _ ([], skipped (w, is_bc ∙ no) (w', is_ar ∙ no_archive), refl)

  succeeded-unpackings :
      (us vs : List (Text × Text))
      → succeeded t tmp (unpackings us) ++ succeeded t tmp (unpackings vs)
        ≡ succeeded t tmp (unpackings (us ++ vs))
  succeeded-unpackings [] vs = refl
  succeeded-unpackings (u ∷ us) vs = rw (succeeded-unpackings us vs)

  -- The inputs' bitcode is put behind what was gathered before.
  abbrev OfInputs : ℕ → List Text → List Text → List Text → List Ran → Type 0
  OfInputs i inputs before out xs =
      (bcs : List Text) × (us : List (Text × Text)) × (out ≡ before ++ bcs)
      × AreInputs host t tmp i inputs bcs us
      × Unpacks us xs

  gather_inputs_adds :
      (i : ℕ) (inputs before : List Text)
      → Adds (gather_inputs host t tmp i inputs before) (OfInputs i inputs before)
  unfolding gather_inputs
  gather_inputs_adds i [] before = Adds-pure before ([], [], sym (append-nil _), no_inputs, refl)
  gather_inputs_adds i (inp ∷ rest) before =
      Adds-bind _ _ (input_bitcode_adds i inp) λ found xs (us, of_input, e).
        Adds-weaken _ (gather_inputs_adds (suc i) rest (before ++ found))
          λ out ys (bcs, vs, is_out, of_rest, q). (
            found ++ bcs,
            us ++ vs,
            is_out ∙ append_assoc before found bcs,
            input of_input of_rest,
            rw (e, q) (succeeded-unpackings us vs),
          )

  pub find_archive-IsQuiet : (dirs : List Text) → IsQuiet (find_archive host t tmp dirs)
  unfolding find_archive
  find_archive-IsQuiet dirs = IsQuiet-bind _ _ (IsQuiet-ask host _) found_or_not
    where
      found_or_not : (o : Option Text) → IsQuiet (archive_or_die host t tmp o)
      found_or_not none = IsQuiet-stop _
      found_or_not (some a) = IsQuiet-pure a

  find_archive_adds : (dirs : List Text) → Gives (find_archive host t tmp dirs) (IsFound host dirs)
  unfolding find_archive
  find_archive_adds dirs = Gives-bind _ _ (Gives-ask host _) found_or_not
    where
      found_or_not :
          (o : Option Text)
          → (w : host.World) × (find
                (host.exists w)
                (map (λ d. join_path d (codes "libarena_c.a")) dirs)
              ≡ o)
          → Gives (archive_or_die host t tmp o) (IsFound host dirs)
      found_or_not none h = Adds-die _
      found_or_not (some a) (w, e) = Gives-pure a (record { time = w; first = e })

  -- What was gathered: the inputs' bitcode, and the members of libarena's archive.
  pub record Gathered (o : Opts) (bcs : List Text × List Text) (xs : List Ran) : Type 0 where
    pub program_archives : List (Text × Text)
    pub program : AreInputs host t tmp 0 o.inputs bcs.0 program_archives
    pub archive : Text
    pub found : IsFound host o.lib_dirs archive
    pub arena_archive : Text
    pub resolved : IsResolved host archive arena_archive
    pub members : AreMembers host (p t tmp (codes "arena_c")) bcs.1
    pub some_rust : is_nil bcs.0 ≡ false
    pub some_arena : is_nil bcs.1 ≡ false
    pub unpacks :
        xs
        ≡ succeeded t tmp
            (unpackings (program_archives ++ (arena_archive, p t tmp (codes "arena_c")) ∷ []))

  pub gather_bitcode_adds : (o : Opts) → Adds (gather_bitcode host t tmp o) (Gathered o)
  unfolding gather_bitcode
  gather_bitcode_adds o =
      Adds-bind _ _ (gather_inputs_adds 0 o.inputs []) λ rust_bcs xs (bcs, us, is_bcs, inputs, e).
        Gives-bind _ _ (find_archive_adds o.lib_dirs) λ archive found.
          Adds-bind _ _ (extract_adds archive _) λ arena_bcs ys (path, resolved, members, q).
            Adds-if (is_nil rust_bcs || is_nil arena_bcs) _ _ (λ _. Adds-die _)
              λ some_of_each. Adds-pure _ (record {
                program_archives = us;
                program = rw is_bcs inputs;
                archive = archive;
                found = found;
                arena_archive = path;
                resolved = resolved;
                members = members;
                some_rust = ground arith;
                some_arena = ground arith;
                unpacks = rw (e, q, append-nil) (succeeded-unpackings us _);
              })
