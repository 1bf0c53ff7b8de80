-- ===== src/Linker/Args/Laws.antt =====
-- Every command line is a list of items, or ends in an option that lacks its value; the parse is
-- what the items ask for.
use libarena_rs.Common.{
  ◌≡◌, refl, sym, ◌≢◌, ◌⊎◌, inl, inr, List, [], ◌∷◌, ◌++◌, arith, Text, All, append-nil,
  append_assoc, ◌∙◌, ap,
}
use libarena_rs.Linker.Args.{
  Parser, Parsed, ok, die, Setting, set_output, push_lib_dir, skip_lib, set_cpu, skip_features,
  set_exports, Change, ignore, warn, push_input, push_joined_dir, set_joined_cpu, Arm, takes_next,
  alone, arm, set_value, apply_change, parse_loop, missing_value, parse_args, expand, initial,
  Reading, check_output,
}
use libarena_rs.Linker.Args.Spelling.{IsArm, IsSpelled, arm-IsArm, All-IsSpelled}
use libarena_rs.Linker.Args.Grammar.{Item, single, pair, IsItem, render, meaning}

parse_loop-alone :
    (a : Text) (rest : List Text) (p : Parser) {c : Change}
    → arm a ≡ alone c
    → parse_loop (a ∷ rest) p ≡ parse_loop rest (apply_change c a p)
unfolding parse_loop
parse_loop-alone a [] p e = rw (parse_loop, e)
parse_loop-alone a (v ∷ rest) p e = rw (parse_loop, e)

parse_loop-takes_next :
    (a v : Text) (rest : List Text) (p : Parser) {s : Setting}
    → arm a ≡ takes_next s
    → parse_loop (a ∷ v ∷ rest) p ≡ parse_loop rest (set_value s v p)
unfolding parse_loop
parse_loop-takes_next a v rest p e = rw (parse_loop, e)

meaning-single :
    (c : Change) (a : Text) (items : List Item) (p : Parser)
    → meaning items (apply_change c a p) ≡ meaning (single c a ∷ items) p
meaning-single ignore a items p = refl
meaning-single warn a items p = simp append_assoc
meaning-single push_input a items p = simp append_assoc
meaning-single (push_joined_dir d) a items p = simp append_assoc
meaning-single (set_joined_cpu c) a items p = refl

meaning-pair :
    (s : Setting) (a v : Text) (items : List Item) (p : Parser)
    → meaning items (set_value s v p) ≡ meaning (pair s a v ∷ items) p
meaning-pair set_output a v items p = refl
meaning-pair push_lib_dir a v items p = simp append_assoc
meaning-pair skip_lib a v items p = refl
meaning-pair set_cpu a v items p = refl
meaning-pair skip_features a v items p = refl
meaning-pair set_exports a v items p = refl

meaning-nil : (p : Parser) → meaning [] p ≡ p
meaning-nil p = simp append-nil

-- The loop reads the words of any items as what the items ask for.
pub parse_loop-render :
    (items : List Item) (p : Parser)
    → All IsItem items
    → parse_loop (render items) p ≡ ok (meaning items p)
unfolding render
parse_loop-render [] p h = unfold parse_loop in ap ok (sym (meaning-nil p))
parse_loop-render (single c a ∷ items) p (e, h) =
    parse_loop-alone a (render items) p e
    ∙ parse_loop-render items (apply_change c a p) h
    ∙ ap ok (meaning-single c a items p)
parse_loop-render (pair s a v ∷ items) p (e, h) =
    parse_loop-takes_next a v (render items) p e
    ∙ parse_loop-render items (set_value s v p) h
    ∙ ap ok (meaning-pair s a v items p)

parse_loop_dangling :
    (items : List Item) (a : Text) (p : Parser) {s : Setting}
    → All IsItem items
    → arm a ≡ takes_next s
    → parse_loop (render items ++ a ∷ []) p ≡ die (meaning items p).warned missing_value
unfolding render
parse_loop_dangling [] a p h e =
    unfold parse_loop in
    rw (parse_loop, e) (ap (λ q. die q.warned missing_value) (sym (meaning-nil p)))
parse_loop_dangling (single c b ∷ items) a p (eb, h) e =
    parse_loop-alone b _ p eb
    ∙ parse_loop_dangling items a (apply_change c b p) h e
    ∙ ap (λ q. die q.warned missing_value) (meaning-single c b items p)
parse_loop_dangling (pair s b v ∷ items) a p (eb, h) e =
    parse_loop-takes_next b v _ p eb
    ∙ parse_loop_dangling items a (set_value s v p) h e
    ∙ ap (λ q. die q.warned missing_value) (meaning-pair s b v items p)

-- A command line as items, all of its words used.
pub record Whole (args : List Text) : Type 0 where
  pub items : List Item
  pub reads : All IsItem items
  pub spelled : All IsSpelled items
  pub spells : args ≡ render items

-- A command line that ends in an option without its value.
pub record Dangling (args : List Text) : Type 0 where
  pub items : List Item
  pub option : Text
  pub setting : Setting
  pub reads : All IsItem items
  pub needs : arm option ≡ takes_next setting
  pub spelled : All IsSpelled items
  pub option_is : IsArm option (takes_next setting)
  pub spells : args ≡ render items ++ option ∷ []

whole : (args : List Text) (items : List Item) → All IsItem items → args ≡ render items → Whole args
whole args items h e = record {
  items = items;
  reads = h;
  spelled = All-IsSpelled items h;
  spells = e;
}

dangling :
    (args : List Text) (items : List Item) (a : Text) {s : Setting}
    → All IsItem items
    → arm a ≡ takes_next s
    → args ≡ render items ++ a ∷ []
    → Dangling args
dangling args items a {s} h e q = record {
  items = items;
  option = a;
  setting = s;
  reads = h;
  needs = e;
  spelled = All-IsSpelled items h;
  option_is = rw e at (arm-IsArm a);
  spells = q;
}

put_in_front :
    (i : Item) (words args : List Text)
    → IsItem i
    → ((items : List Item) → render (i ∷ items) ≡ words ++ render items)
    → Whole args ⊎ Dangling args
    → Whole (words ++ args) ⊎ Dangling (words ++ args)
put_in_front i words args h e (inl w) = inl (whole _ (i ∷ w.items) (h, w.reads) (rw (e, w.spells)))
put_in_front i words args h e (inr d) =
    inr (dangling _ (i ∷ d.items) d.option (h, d.reads) d.needs (rw (e, d.spells, append_assoc)))

Arm-cases : (x : Arm) → ((s : Setting) × (x ≡ takes_next s)) ⊎ ((c : Change) × (x ≡ alone c))
Arm-cases (takes_next s) = inl (s, refl)
Arm-cases (alone c) = inr (c, refl)

-- Each list of arguments is one or the other.
pub args_cases : (args : List Text) → Whole args ⊎ Dangling args
unfolding render
args_cases [] = inl (whole [] [] tt refl)
args_cases (a ∷ []) = elim (Arm-cases (arm a)) [
  | inl (s, e) ↦ inr (dangling _ [] a tt e refl)
  | inr (c, e) ↦ inl (whole _ (single c a ∷ []) (e, tt) refl)
]
args_cases (a ∷ v ∷ rest) = elim (Arm-cases (arm a)) [
  | inl (s, e) ↦ put_in_front (pair s a v) (a ∷ v ∷ []) rest e (λ items. refl) (args_cases rest)
  | inr (c, e) ↦
      put_in_front (single c a) (a ∷ []) (v ∷ rest) e (λ items. refl) (args_cases (v ∷ rest))
]

-- What the parse of a whole command line gives: the items' meaning, if it names an output.
abbrev pub outcome : List Item → Parsed Parser
outcome items = check_output (ok (meaning items initial))

-- Death for want of a value, behind the messages for the items' unknown flags.
abbrev pub died_of : List Item → Parsed Parser
died_of items = die (meaning items initial).warned missing_value

-- `parse_args` of a command line whose response files can be expanded has two cases. The expanded
-- line is a list of items, and the parse is what they ask for: their inputs, library directories and
-- unknown flags in order, the last value of `-o`, of `--cpu` and `--cpu=`, and of `--export-symbols`,
-- or death for want of an output that is not empty. Or the line is a list of items and an option that
-- lacks its value, and the parse dies with that message behind those for the unknown flags of the items.
-- An item is one of `-o`, `-L`, `-l`, `--cpu`, `--cpu-features` and `--export-symbols` with the word
-- behind it, or a word alone: `--debug`, an `-O` flag of rustc or `-l` with a name, which are ignored,
-- `-L` with a directory, `--cpu=` with a processor, another word that begins with a dash, which is an
-- unknown flag, or one that does not, which is an input.
pub parse_args_cases :
    (read : Text → Reading) (args expanded : List Text)
    → expand read args ≡ ok expanded
    → ((w : Whole expanded) × (parse_args read args ≡ outcome w.items))
      ⊎ ((d : Dangling expanded) × (parse_args read args ≡ died_of d.items))
unfolding parse_args
parse_args_cases read args expanded e = elim (args_cases expanded) [
  | inl w ↦ inl (w, rw (parse_args, e, w.spells, parse_loop-render w.items initial w.reads))
  | inr d ↦ inr (
    d,
    rw (parse_args, e, d.spells, parse_loop_dangling d.items d.option initial d.reads d.needs),
  )
]

-- The options of a parse that succeeds have an output that is not empty.
pub parse_args_has_output :
    (read : Text → Reading) (args : List Text) (p : Parser)
    → parse_args read args ≡ ok p
    → p.output ≢ []
unfolding parse_args
parse_args_has_output read args p h = ground arith
