-- ===== src/Linker/Args/Spelling.antt =====
-- How the options are spelled: the arms of the `match` in `parse_args`, each by the words that it takes.
use libarena_rs.Common.{
  among, ◌≡◌, refl, sym, ◌∙◌, ap, ◌≢◌, Bool, true, false, none, some, List, [], ◌∷◌, ◌++◌, arith,
  Text, codes, text_eq, text_eq_iff, strip_prefix, strip_prefix-append, starts_with-strip_prefix,
  if◌then◌else◌, Option-cases, inl, inr, All, append-nil,
}
use libarena_rs.Linker.Args.{
  ignore, warn, push_input, push_joined_dir, set_joined_cpu, Arm, takes_next, alone, arm,
  set_output, push_lib_dir, skip_lib, set_cpu, skip_features, set_exports, prefix_arm, is_noise,
}
use libarena_rs.Linker.Args.Grammar.{Item, single, pair, IsItem}

abbrev pub Begins : Text → Text → Type 0
Begins p a = (rest : Text) × (a ≡ p ++ rest)

abbrev pub noise : List Text
noise =
    codes "--debug"
    ∷ codes "-O0"
    ∷ codes "-O1"
    ∷ codes "-O2"
    ∷ codes "-O3"
    ∷ codes "-Os"
    ∷ codes "-Oz"
    ∷ []

abbrev pub options : List Text
options =
    codes "-o"
    ∷ codes "-L"
    ∷ codes "-l"
    ∷ codes "--cpu"
    ∷ codes "--cpu-features"
    ∷ codes "--export-symbols"
    ∷ []

-- What an argument asks for.
pub data IsArm (a : Text) : Arm → Type 0 where
  output_next : a ≡ codes "-o" → IsArm a (takes_next set_output)
  dir_next : a ≡ codes "-L" → IsArm a (takes_next push_lib_dir)
  lib_next : a ≡ codes "-l" → IsArm a (takes_next skip_lib)
  cpu_next : a ≡ codes "--cpu" → IsArm a (takes_next set_cpu)
  features_next : a ≡ codes "--cpu-features" → IsArm a (takes_next skip_features)
  exports_next : a ≡ codes "--export-symbols" → IsArm a (takes_next set_exports)
  is_ignored : among noise a ≡ true → IsArm a (alone ignore)
  dir_joined : {d : Text} → a ≡ codes "-L" ++ d → d ≢ [] → IsArm a (alone (push_joined_dir d))
  lib_joined : {l : Text} → a ≡ codes "-l" ++ l → l ≢ [] → IsArm a (alone ignore)
  cpu_joined : {c : Text} → a ≡ codes "--cpu=" ++ c → IsArm a (alone (set_joined_cpu c))
  unknown_flag :
      Begins (codes "-") a
      → among options a ≡ false
      → among noise a ≡ false
      → (Begins (codes "-L") a → ⊥)
      → (Begins (codes "-l") a → ⊥)
      → (Begins (codes "--cpu=") a → ⊥)
      → IsArm a (alone warn)
  an_input : (Begins (codes "-") a → ⊥) → IsArm a (alone push_input)

choose :
    (P : Arm → Type 0) (b : Bool) (x y : Arm)
    → (b ≡ true → P x)
    → (b ≡ false → P y)
    → P (if b then x else y)
choose P true x y hx hy = hx refl
choose P false x y hx hy = hy refl

no_prefix : (p a : Text) → strip_prefix p a ≡ none → Begins p a → ⊥
no_prefix p a e (rest, q) =
    let found : strip_prefix p a ≡ some rest = ap (strip_prefix p) q ∙ strip_prefix-append p rest in
    cc (sym e ∙ found)

begins : (p a r : Text) → strip_prefix p a ≡ some r → a ≡ p ++ r
begins p a r e = (starts_with-strip_prefix p a r e).1

-- What is joined to an option that does not stand alone is not empty.
joined : (p a r : Text) → text_eq a p ≡ false → a ≡ p ++ r → r ≢ []
joined p a r differ e empty =
    let same : a ≡ p = e ∙ ap (λ x. p ++ x) empty ∙ append-nil p in
    let yes_equal = (text_eq_iff a p).1 same in cc (sym differ ∙ yes_equal)

prefix_arm-IsArm :
    (a : Text)
    → among options a ≡ false
    → among noise a ≡ false
    → text_eq a (codes "-L") ≡ false
    → text_eq a (codes "-l") ≡ false
    → IsArm a (prefix_arm a)
unfolding prefix_arm
prefix_arm-IsArm a opts quiet no_dir no_lib = elim (Option-cases (strip_prefix (codes "-L") a)) [
  | inr (d, e) ↦
      let q = begins (codes "-L") a d e in
      rw (prefix_arm, e) (dir_joined q (joined (codes "-L") a d no_dir q))
  | inl e1 ↦ elim (Option-cases (strip_prefix (codes "-l") a)) [
    | inr (l, e) ↦
        let q = begins (codes "-l") a l e in
        rw (prefix_arm, e1, e) (lib_joined q (joined (codes "-l") a l no_lib q))
    | inl e2 ↦ elim (Option-cases (strip_prefix (codes "--cpu=") a)) [
      | inr (c, e) ↦ rw (prefix_arm, e1, e2, e) (cpu_joined (begins (codes "--cpu=") a c e))
      | inl e3 ↦ elim (Option-cases (strip_prefix (codes "-") a)) [
        | inr (r, e) ↦
            rw (prefix_arm, e1, e2, e3, e)
              (unknown_flag (r, begins (codes "-") a r e) opts quiet (no_prefix (codes "-L") a e1)
                (no_prefix (codes "-l") a e2) (no_prefix (codes "--cpu=") a e3))
        | inl e ↦ rw (prefix_arm, e1, e2, e3, e) (an_input (no_prefix (codes "-") a e))
      ]
    ]
  ]
]

pub arm-IsArm : (a : Text) → IsArm a (arm a)
unfolding arm is_noise
arm-IsArm a =
    choose (IsArm a) _ _ _ (λ e. output_next ((text_eq_iff a _).0 e))
      λ n1.
        choose (IsArm a) _ _ _ (λ e. dir_next ((text_eq_iff a _).0 e))
          λ n2.
            choose (IsArm a) _ _ _ (λ e. lib_next ((text_eq_iff a _).0 e))
              λ n3.
                choose (IsArm a) _ _ _ (λ e. cpu_next ((text_eq_iff a _).0 e))
                  λ n4.
                    choose (IsArm a) _ _ _ (λ e. features_next ((text_eq_iff a _).0 e))
                      λ n5.
                        choose (IsArm a) _ _ _ (λ e. exports_next ((text_eq_iff a _).0 e))
                          λ n6.
                            choose (IsArm a) _ _ _ (λ e. is_ignored (ground arith))
                              λ n7. prefix_arm-IsArm a (ground arith) (ground arith) n2 n3

-- The words of an item are the option's.
abbrev pub IsSpelled : Item → Type 0
IsSpelled (single c a) = IsArm a (alone c)
IsSpelled (pair s a v) = IsArm a (takes_next s)

pub All-IsSpelled : (items : List Item) → All IsItem items → All IsSpelled items
All-IsSpelled [] h = tt
All-IsSpelled (single c a ∷ items) (e, h) = (rw e at (arm-IsArm a), All-IsSpelled items h)
All-IsSpelled (pair s a v ∷ items) (e, h) = (rw e at (arm-IsArm a), All-IsSpelled items h)
