-- ===== src/Linker/Pipeline/Returning/Gather.antt =====
-- Gathering the bitcode returns.
use libarena_rs.Common.{
  ℕ, suc, ◌≡◌, refl, ◌∙◌, ap, Bool, true, false, Option, none, some, List, [], ◌∷◌, ◌++◌, arith,
  Text, codes, ◌||◌, is_nil, map, find, join_path, contains, keep_if, text_eq, text_eq_iff,
  Bool-cases, inl, inr, ◌⊎◌,
}
use libarena_rs.Sort.{sort, insert}
use libarena_rs.Linker.Args.{Opts}
use libarena_rs.Linker.Session.{Host, is_bitcode}
use libarena_rs.Linker.Session.Returning.{
  Returns, Finishes, Serves, Returns-pure, Finishes-pure, Finishes-of, Returns-if, Returns-weaken,
  Returns-bind, Finishes-bind, Finishes-eprintln, Finishes-when, Returns-ask, Returns-unwrap,
  Finishes-ask, Finishes-make_dir, Finishes-run,
}
use libarena_rs.Linker.Tools.{Tools, extract}
use libarena_rs.Linker.Pipeline.Stage.{p}
use libarena_rs.Linker.Pipeline.Run.{
  temporaries, input_bitcode, gather_inputs, archive_or_die, find_archive, gather_bitcode,
}

insert_nonempty : (x : Text) (xs : List Text) → is_nil (insert x xs) ≡ false
unfolding insert
insert_nonempty x [] = refl
insert_nonempty x (y ∷ ys) = ground arith

sort_nonempty : (xs : List Text) → is_nil xs ≡ false → is_nil (sort xs) ≡ false
unfolding sort
sort_nonempty [] h = cc
sort_nonempty (x ∷ xs) h = insert_nonempty x (sort xs)

append_nonempty : (xs ys : List Text) → is_nil ys ≡ false → is_nil (xs ++ ys) ≡ false
append_nonempty [] ys h = h
append_nonempty (x ∷ xs) ys h = refl

kept_nonempty :
    (p : Text → Bool) (a : Text) (xs : List Text)
    → contains xs a ≡ true
    → p a ≡ true
    → is_nil (keep_if p xs) ≡ false
unfolding contains
kept_nonempty p a [] h e = cc
kept_nonempty p a (x ∷ xs) h e = elim (Bool-cases (p x)) [
  | inl yes_x ↦ rw yes_x
  | inr no_x ↦ elim (Bool-cases (text_eq x a)) [
    | inl same ↦ let q : x ≡ a = (text_eq_iff x a).0 same in cc (ap p q)
    | inr differ ↦ rw no_x (kept_nonempty p a xs (ground arith) e)
  ]
]

append_nonempty_left : (xs ys : List Text) → is_nil xs ≡ false → is_nil (xs ++ ys) ≡ false
append_nonempty_left [] ys h = cc
append_nonempty_left (x ∷ xs) ys h = refl

module _ (host : Host) where
  -- The directory lists a file that is bitcode, at any time.
  pub record HoldsBitcode (dir : Text) : Type 0 where
    pub member : Text
    pub lists :
        (w : host.World) (entries : List Text)
        → host.read_dir w dir ≡ some entries
        → contains entries member ≡ true
    pub bitcode : (w : host.World) → is_bitcode host w member ≡ true

  -- What a link needs of its inputs: one that is bitcode, libarena's archive in a library directory,
  -- and bitcode among its members.
  pub record HasBitcode (o : Opts) : Type 0 where
    pub input : Text
    pub is_input : contains o.inputs input ≡ true
    pub input_bitcode : (w : host.World) → is_bitcode host w input ≡ true
    pub lib_dir : Text
    pub is_lib_dir : contains o.lib_dirs lib_dir ≡ true
    pub has_archive :
        (w : host.World) → host.exists w (join_path lib_dir (codes "libarena_c.a")) ≡ true
    pub members : HoldsBitcode (join_path (temporaries o) (codes "arena_c"))

module _ (host : Host) (serves : Serves host) where
  abbrev Holds : Text → Type 0
  Holds dir = HoldsBitcode host dir

  abbrev Resolved : Option Text → Type 0
  Resolved r = (full : Text) × (r ≡ some full) × Unit {0}

  resolving : (path : Text) (w : host.World) → Resolved (host.canonicalize w path)
  resolving path w = let (full, e) = serves.resolved w path in (full, e, tt)

  abbrev Listing : Text → Option (List Text) → Type 0
  Listing dir r =
      (entries : List Text) × (r ≡ some entries)
      × ((h : Holds dir) → contains entries h.member ≡ true)

  listing : (dir : Text) (w : host.World) → Listing dir (host.read_dir w dir)
  listing dir w = let (entries, e) = serves.listed w dir in (entries, e, λ h. h.lists w entries e)

  -- Extraction returns; it returns some bitcode if the directory holds some.
  pub extract-Returns :
      (t : Tools) (archive dir : Text)
      → Returns (extract host t archive dir) (λ bcs. Holds dir → is_nil bcs ≡ false)
  unfolding extract
  extract-Returns t archive dir = Finishes-bind _ _ (Finishes-make_dir host serves dir _) λ _.
      Returns-bind {P = Resolved} _ _ (Returns-ask host _ (resolving archive)) λ full r.
        Returns-bind {P = λ _. Unit {0}} _ _ (Returns-unwrap host full r) λ path _.
          Finishes-bind _ _ (Finishes-run host serves _) λ _.
            Returns-bind _ _ (Returns-ask host _ (listing dir)) λ found r.
              Returns-bind {P = λ es. (h : Holds dir) → contains es h.member ≡ true} _ _
                (Returns-unwrap host found r)
                λ entries holds.
                  Returns-bind {P = λ ms. Holds dir → is_nil ms ≡ false} _ _
                    (Returns-ask host _ (λ w h.
                      kept_nonempty (is_bitcode host w) h.member entries (holds h) (h.bitcode w)))
                    λ members some_kept. Returns-pure _ (λ h. sort_nonempty members (some_kept h))

  extract-Finishes : (t : Tools) (archive dir : Text) → Finishes (extract host t archive dir)
  extract-Finishes t archive dir = Finishes-of _ (extract-Returns t archive dir)

  module _ (t : Tools) (tmp : Text) where
    abbrev AlwaysBitcode : Text → Type 0
    AlwaysBitcode path = (w : host.World) → is_bitcode host w path ≡ true

    input_bitcode-Returns :
        (i : ℕ) (inp : Text)
        → Returns (input_bitcode host t tmp i inp) (λ bcs. AlwaysBitcode inp → is_nil bcs ≡ false)
    unfolding input_bitcode
    input_bitcode-Returns i inp =
        Returns-bind {P = λ b. AlwaysBitcode inp → b ≡ true} _ _ (Returns-ask host _ (λ w h. h w))
          λ bitcode asked. Finishes-bind _ _ (Finishes-ask host _) λ archive.
            Returns-if bitcode _ _ (λ _. Returns-pure _ (λ h. refl))
              λ no_bitcode.
                Returns-weaken _
                  (Returns-if archive _ _ (λ _. extract-Finishes t inp _)
                    λ _.
                      Finishes-bind _ _ (Finishes-when host _ _ (Finishes-eprintln host _))
                        λ _. Finishes-pure [])
                  (λ bcs _ h. cc (asked h))

    -- Some bitcode was found already, or an input to come is bitcode.
    abbrev Finds : List Text → List Text → Type 0
    Finds inputs found =
        (is_nil found ≡ false) ⊎ ((inp : Text) × (contains inputs inp ≡ true) × AlwaysBitcode inp)

    Finds-next :
        (inp : Text) (rest found bcs : List Text)
        → Finds (inp ∷ rest) found
        → (AlwaysBitcode inp → is_nil bcs ≡ false)
        → Finds rest (found ++ bcs)
    unfolding contains
    Finds-next inp rest found bcs (inl some_found) h =
        inl (append_nonempty_left found bcs some_found)
    Finds-next inp rest found bcs (inr (x, listed, always)) h = elim (Bool-cases (text_eq inp x)) [
      | inl same ↦
          let e : inp ≡ x = (text_eq_iff inp x).0 same in
          inl (append_nonempty found bcs (h (λ w. ap (is_bitcode host w) e ∙ always w)))
      | inr differ ↦ inr (x, ground arith, always)
    ]

    gather_inputs-Returns :
        (i : ℕ) (inputs found : List Text)
        → Finds inputs found
        → Returns (gather_inputs host t tmp i inputs found) (λ bcs. is_nil bcs ≡ false)
    unfolding gather_inputs contains
    gather_inputs-Returns i [] found (inl some_found) = Returns-pure found some_found
    gather_inputs-Returns i [] found (inr (x, listed, _)) = absurd (cc listed)
    gather_inputs-Returns i (inp ∷ rest) found h =
        Returns-bind _ _ (input_bitcode-Returns i inp) λ bcs k.
          gather_inputs-Returns (suc i) rest (found ++ bcs) (Finds-next inp rest found bcs h k)

    archive_in :
        (d : Text) (dirs : List Text) (w : host.World)
        → contains dirs d ≡ true
        → host.exists w (join_path d (codes "libarena_c.a")) ≡ true
        → (a : Text) × (find (host.exists w) (map (λ d. join_path d (codes "libarena_c.a")) dirs)
            ≡ some a)
    unfolding contains
    archive_in d [] w h e = cc
    archive_in d (x ∷ dirs) w h e =
        elim (Bool-cases (host.exists w (join_path x (codes "libarena_c.a")))) [
          | inl here ↦ (join_path x (codes "libarena_c.a"), rw here)
          | inr missing ↦ elim (Bool-cases (text_eq x d)) [
            | inl same ↦
                let q : x ≡ d = (text_eq_iff x d).0 same in
                cc (ap (λ y. host.exists w (join_path y (codes "libarena_c.a"))) q)
            | inr differ ↦ rw missing (archive_in d dirs w (ground arith) e)
          ]
        ]

    find_archive-Finishes :
        (d : Text) (dirs : List Text)
        → contains dirs d ≡ true
        → ((w : host.World) → host.exists w (join_path d (codes "libarena_c.a")) ≡ true)
        → Finishes (find_archive host t tmp dirs)
    unfolding find_archive
    find_archive-Finishes d dirs h e =
        Returns-bind {P = λ o. (a : Text) × (o ≡ some a)} _ _
          (Returns-ask host _ (λ w. archive_in d dirs w h (e w))) found_or_not
      where
        found_or_not :
            (o : Option Text) → (a : Text) × (o ≡ some a) → Finishes (archive_or_die host t tmp o)
        found_or_not none (a, e) = absurd (cc e)
        found_or_not (some a) _ = Finishes-pure a

  pub gather_bitcode-Finishes :
      (t : Tools) (o : Opts)
      → HasBitcode host o
      → Finishes (gather_bitcode host t (temporaries o) o)
  unfolding gather_bitcode p
  gather_bitcode-Finishes t o h =
      Returns-bind _ _
        (gather_inputs-Returns t (temporaries o) 0 o.inputs []
          (inr (h.input, h.is_input, h.input_bitcode)))
        λ rust_bcs some_rust.
          Finishes-bind _ _
            (find_archive-Finishes t (temporaries o) h.lib_dir o.lib_dirs h.is_lib_dir
              h.has_archive)
            λ archive. Returns-bind _ _ (extract-Returns t archive _) λ arena_bcs some_arena.
              Returns-if (is_nil rust_bcs || is_nil arena_bcs) _ _
                (λ none_found. absurd (ground (arith, some_arena h.members))) (λ _. Finishes-pure _)
