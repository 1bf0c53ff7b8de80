-- ===== src/Passes/Finalize/Numbers.antt =====
-- The numbers of the metadata that bpf_finalize.py adds.
use libarena_rs.Common.{
  ℕ, zero, suc, ◌+◌, ◌-◌, ◌≤◌, ◌<◌, ◌≡◌, refl, sym, ap, ◌∙◌, Bool, true, false, ◌||◌, Option, none,
  some, List, [], ◌∷◌, ◌++◌, arith, Text, codes, text_eq, is_nil, split, join, ◌==◌, length, All,
  Option-cases, inl, inr, if◌then◌else◌,
}
use libarena_rs.Passes.Pattern.{strip}
use libarena_rs.Passes.Regex.{
  group_of, Regex, Groups, match_here, sub_from, find_all, found, search_from,
}
use libarena_rs.Passes.Finalize.Declares.{
  Metadata, node, md, as_node, di_type, di_body, arg_types, ret_type, arguments_of, strip_attrs,
  subprogram_for, stays, tag_declare, tag_all, declaration_line,
}
use libarena_rs.Passes.LowerMem.{drop_defined}
use libarena_rs.Passes.Finalize.Returns.{return_lines}
use libarena_rs.Passes.Finalize.{
  di_file, attr_ref, late_calls, has_invoke, put_declarations, put_metadata, bpf_finalize, id_regex,
  id_of, ids, largest, first_id, throw_traps, thrown, declare_throw, trap_call, throw_declared,
  start, prepared,
}

-- Nodes with the numbers from one on.
abbrev pub numbered : ℕ → List Text → List Text
numbered n [] = []
numbered n (body ∷ bodies) = node n body ∷ numbered (suc n) bodies

pub record IsNumbered (first : ℕ) (s : Metadata) : Type 0 where
  pub bodies : List Text
  pub nodes : s.new_md ≡ numbered first bodies
  pub next : s.next_id ≡ first + length bodies

numbered-append :
    (n : ℕ) (bodies : List Text) (body : Text)
    → numbered n (bodies ++ body ∷ []) ≡ numbered n bodies ++ node (n + length bodies) body ∷ []
numbered-append n [] body = let e : n ≡ n + 0 = omega arith in ap (λ k. node k body ∷ []) e
numbered-append n (b ∷ bodies) body =
    let e : suc n + length bodies ≡ n + suc (length bodies) = omega arith in
    ap (λ x. node n b ∷ x)
      (numbered-append (suc n) bodies body
        ∙ ap (λ k. numbered (suc n) bodies ++ node k body ∷ []) e)

length-snoc : (xs : List Text) (x : Text) → length (xs ++ x ∷ []) ≡ length xs + 1
length-snoc [] x = omega arith
length-snoc (y ∷ xs) x = omega (arith, length-snoc xs x)

module _ (first : ℕ) where
  either_way :
      {A : Type 0} (b : Bool) (x y : A × Metadata)
      → IsNumbered first x.1
      → IsNumbered first y.1
      → IsNumbered first (if b then x else y).1
  either_way true x y hx hy = hx
  either_way false x y hx hy = hy

  md-IsNumbered : (body : Text) (s : Metadata) → IsNumbered first s → IsNumbered first (md body s).1
  unfolding md
  md-IsNumbered body s n = record {
    bodies = n.bodies ++ body ∷ [];
    nodes =
        ap (λ x. x ++ node s.next_id body ∷ []) n.nodes
        ∙ ap (λ k. numbered first n.bodies ++ node k body ∷ []) n.next
        ∙ sym (numbered-append first n.bodies body);
    next = let e = length-snoc n.bodies body in omega (arith, e, n.next);
  }

  as_node-IsNumbered :
      (o : Option Text) (s : Metadata) → IsNumbered first s → IsNumbered first (as_node o s).1
  as_node-IsNumbered none s n = n
  as_node-IsNumbered (some body) s n = md-IsNumbered body s n

  di_type-IsNumbered :
      (ty : Text) (s : Metadata) → IsNumbered first s → IsNumbered first (di_type ty s).1
  unfolding di_type
  di_type-IsNumbered ty s n = as_node-IsNumbered (di_body ty) s n

  arg_types-IsNumbered :
      (args : List Text) (s : Metadata) → IsNumbered first s → IsNumbered first (arg_types args s).1
  unfolding arg_types
  arg_types-IsNumbered [] s n = n
  arg_types-IsNumbered (a ∷ args) s n =
      either_way (is_nil (strip a) || text_eq (strip a) (codes "...")) _ _
        (arg_types-IsNumbered args s n)
        (arg_types-IsNumbered args _ (di_type-IsNumbered (strip_attrs (strip a)) s n))

  ret_type-IsNumbered :
      (ret : Text) (s : Metadata) → IsNumbered first s → IsNumbered first (ret_type ret s).1
  unfolding ret_type
  ret_type-IsNumbered ret s n =
      either_way (text_eq ret (codes "void")) _ _ n (di_type-IsNumbered ret s n)

  subprogram_for-IsNumbered :
      (file name ret args : Text) (s : Metadata)
      → IsNumbered first s
      → IsNumbered first (subprogram_for file name ret args s).1
  unfolding subprogram_for
  subprogram_for-IsNumbered file name ret args s n =
      md-IsNumbered _ _ (
        md-IsNumbered _ _
          (arg_types-IsNumbered (arguments_of args) _ (ret_type-IsNumbered ret s n)))

  tag_declare-IsNumbered :
      (file line : Text) (g : Groups) (s : Metadata)
      → IsNumbered first s
      → IsNumbered first (tag_declare file line g s).1
  unfolding tag_declare
  tag_declare-IsNumbered file line g s n =
      either_way (stays (group_of 3 g) line) _ _ n
        (subprogram_for-IsNumbered file (group_of 3 g) (group_of 2 g) (group_of 4 g) s n)

  -- A rewriting keeps what its function keeps.
  sub_from-IsNumbered :
      (r : Regex) (f : Text → Groups → Metadata → Text × Metadata)
      → ((m : Text) (g : Groups) (s : Metadata) → IsNumbered first s → IsNumbered first (f m g s).1)
      → (prev : Option ℕ) (skip : ℕ) (text : Text) (s : Metadata) → IsNumbered first s
      → IsNumbered first (sub_from r f prev skip text s).1
  unfolding sub_from
  sub_from-IsNumbered r f keeps prev skip [] s n = n
  sub_from-IsNumbered r f keeps prev (suc skip) (c ∷ text) s n =
      sub_from-IsNumbered r f keeps (some c) skip text s n
  sub_from-IsNumbered r f keeps prev zero (c ∷ text) s n =
      elim (Option-cases (match_here r prev (c ∷ text))) [
        | inl fails ↦ rw (sub_from, fails) (sub_from-IsNumbered r f keeps (some c) zero text s n)
        | inr ((g, t), matches) ↦
            rw (sub_from, matches)
              (sub_from-IsNumbered r f keeps (some c) (length text - length t) text _
                (keeps _ g s n))
      ]

  tag_all-IsNumbered :
      (file text : Text) (s : Metadata)
      → IsNumbered first s
      → IsNumbered first (tag_all file text s).1
  unfolding tag_all
  tag_all-IsNumbered file text s n =
      sub_from-IsNumbered declaration_line (tag_declare file) (tag_declare-IsNumbered file) none 0
        text s n

  declare_throw-IsNumbered :
      (file attr text : Text) (s : Metadata)
      → IsNumbered first s
      → IsNumbered first (declare_throw file attr text s).1
  unfolding declare_throw
  declare_throw-IsNumbered file attr text s n =
      either_way (found (search_from throw_declared none text)) _ _ n
        (subprogram_for-IsNumbered file (codes "bpf_throw") (codes "void") (codes "i64") s n)

  throw_traps-IsNumbered :
      (cookie : Option Text) (file attr text : Text) (s : Metadata)
      → IsNumbered first s
      → IsNumbered first (throw_traps cookie file attr text s).2
  unfolding throw_traps
  throw_traps-IsNumbered none file attr text s n = n
  throw_traps-IsNumbered (some cookie) file attr text s n =
      one_way (found (search_from trap_call none text)) _ (text, [], s)
        (declare_throw-IsNumbered file attr (thrown cookie text) s n) n
    where
      one_way :
          (b : Bool) (x y : Text × List Text × Metadata)
          → IsNumbered first x.2
          → IsNumbered first y.2
          → IsNumbered first (if b then x else y).2
      one_way true x y hx hy = hx
      one_way false x y hx hy = hy

below-largest : (ns : List ℕ) → All (λ n. n ≤ largest ns) ns
below-largest ns = all_below ns (largest ns) (omega arith)
  where
    all_below : (ns : List ℕ) (k : ℕ) → largest ns ≤ k → All (λ n. n ≤ k) ns
    all_below [] k h = tt
    all_below (n ∷ ns) k h = (omega (arith, h), all_below ns k (omega (arith, h)))

below_first :
    (xs : List Text) (ns : List ℕ) (k : ℕ)
    → ns ≡ ids xs
    → All (λ n. n ≤ k) ns
    → All (λ x. id_of x < k + 1) xs
below_first [] ns k e h = tt
below_first (x ∷ xs) [] k e h = absurd (cc e)
below_first (x ∷ xs) (n ∷ ns) k e (here, h) =
    let same : n ≡ id_of x = cc in (omega (arith, here, same), below_first xs ns k (cc) h)

prepared-IsNumbered :
    (cookie : Option Text) (text : Text) → IsNumbered (first_id text) (prepared cookie text).2
unfolding prepared
prepared-IsNumbered cookie text =
    let begun : IsNumbered (first_id text) (start text) = record {
      bodies = [];
      nodes = refl;
      next = omega arith;
    } in
    let throwing =
      throw_traps cookie (di_file text) (attr_ref text) (late_calls text) (start text) in
    tag_all-IsNumbered (first_id text) (di_file text) (drop_defined throwing.0) throwing.2 (
      throw_traps-IsNumbered (first_id text) cookie (di_file text) (attr_ref text) (late_calls text)
        (start text) begun)

abbrev pub finished : Option Text → Text → Text
finished cookie text = put_declarations (prepared cookie text).1 (
    join (codes "\n") (return_lines (codes "void") (split (λ c. c == 10) (prepared cookie text).0)))

bpf_finalize-finished :
    (cookie : Option Text) (text out : Text)
    → bpf_finalize cookie text ≡ some out
    → (has_invoke text ≡ false)
      × (out ≡ put_metadata (prepared cookie text).2.new_md (finished cookie text))
unfolding bpf_finalize
bpf_finalize-finished cookie text out e = taken (has_invoke text) _ out e
  where
    taken :
        (b : Bool) (x out : Text)
        → (if b then none else some x) ≡ some out
        → (b ≡ false) × (out ≡ x)
    taken true x out e = absurd (cc e)
    taken false x out e = (refl, cc)

-- When bpf_finalize.py writes a module, its text holds no `invoke`, and the nodes that the script put
-- together while it rewrote the module, which are those that it puts at the end, have consecutive
-- numbers in their order, each larger than every number that the text writes behind a `!`: none of them
-- takes the number of another node.
pub bpf_finalize_lem :
    (cookie : Option Text) (text out : Text)
    → bpf_finalize cookie text ≡ some out
    → (has_invoke text ≡ false)
      × All (λ x. id_of x < first_id text) (find_all id_regex 1 text)
      × (out ≡ put_metadata (prepared cookie text).2.new_md (finished cookie text))
      × ((bodies : List Text) × ((prepared cookie text).2.new_md ≡ numbered (first_id text) bodies))
unfolding first_id
bpf_finalize_lem cookie text out e =
    let (plain, written) = bpf_finalize-finished cookie text out e in
    let n = prepared-IsNumbered cookie text in
    (
      plain,
      below_first (find_all id_regex 1 text) (ids (find_all id_regex 1 text)) _ refl
          (below-largest (ids (find_all id_regex 1 text))),
      written,
      (n.bodies, n.nodes),
    )
