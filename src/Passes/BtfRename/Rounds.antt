-- ===== src/Passes/BtfRename/Rounds.antt =====
-- What one round of btf_rename.py does, taken apart.
use libarena_rs.Common.{
  ℕ, zero, suc, ◌+◌, ◌/◌, ◌%◌, ◌^◌, ◌≡◌, refl, sym, ap, ◌∙◌, Bool, true, false, Option, none, some,
  arith, Text, Option-cases, inl, inr,
}
use libarena_rs.Passes.Bytes.{ok, unpack, pack}
use libarena_rs.Passes.Bytes.Laws.{ok->>=, ok_inj}
use libarena_rs.Passes.BtfRename.{
  Header, Renaming, get_str, lookup, intern, give_name, new_name, extra, apply_name, rename_type,
  rename_round,
}

-- A name is given to the type at the place of the round.
pub record IsGiven (str_len : ℕ) (name : Text) (s t : Renaming) : Type 0 where
  pub packs : pack 4 s.buf s.pos (intern str_len name s).0 ≡ ok t.buf
  pub pos : t.pos ≡ s.pos
  pub strings : t.new_strings ≡ (intern str_len name s).1.new_strings
  pub appended : t.appended ≡ (intern str_len name s).1.appended

-- How many names have been given.
abbrev pub changes : Renaming → ℕ
changes s = s.renamed + s.sanitized

-- What `rename_type` does to a type of this kind with a name at this offset.
pub data IsTyped (h : Header) (kind off : ℕ) (s t : Renaming) : Type 0 where
  unnamed : off ≡ 0 → t ≡ s → IsTyped h kind off s t
  kept :
      (name : Text)
      → get_str h.str_base s.buf off ≡ ok name
      → new_name kind name ≡ none
      → t ≡ s
      → IsTyped h kind off s t
  given :
      (name new : Text) (c_name : Bool)
      → get_str h.str_base s.buf off ≡ ok name
      → new_name kind name ≡ some (c_name, new)
      → IsGiven h.str_len new s t
      → changes t ≡ changes s + 1
      → IsTyped h kind off s t

intern-buf :
    (str_len : ℕ) (name : Text) (s : Renaming)
    → ((intern str_len name s).1.buf ≡ s.buf)
      × ((intern str_len name s).1.pos ≡ s.pos)
      × (changes (intern str_len name s).1 ≡ changes s)
unfolding intern
intern-buf str_len name s = elim (Option-cases (lookup s.appended name)) [
  | inl fresh ↦ rw (intern, fresh) (refl, refl, refl)
  | inr (off, known) ↦ rw (intern, known) (refl, refl, refl)
]

give_name-IsGiven :
    (str_len : ℕ) (name : Text) (s t : Renaming)
    → give_name str_len name s ≡ ok t
    → IsGiven str_len name s t × (changes t ≡ changes s)
unfolding give_name
give_name-IsGiven str_len name s t h =
    let (same_buf, same_pos, same_changes) = intern-buf str_len name s in
    let (off, u) = intern str_len name s in
    let (buf, packed, e) = ok->>= (pack 4 u.buf u.pos off) h in
    let here : t ≡ record u { buf = buf } = ok_inj e in
    (
      record {
        packs =
            ap (λ b. pack 4 b s.pos off) (sym same_buf)
            ∙ ap (λ p. pack 4 u.buf p off) (sym same_pos)
            ∙ packed
            ∙ ap (λ (x : Renaming). ok x.buf) (sym here);
        pos = ap (λ (x : Renaming). x.pos) here ∙ same_pos;
        strings = ap (λ (x : Renaming). x.new_strings) here;
        appended = ap (λ (x : Renaming). x.appended) here;
      },
      ap (λ (x : Renaming). changes x) here ∙ same_changes,
    )

IsGiven-counted :
    (str_len : ℕ) (name : Text) (s t u : Renaming)
    → IsGiven str_len name s u
    → (t.buf ≡ u.buf)
      × (t.pos ≡ u.pos)
      × (t.new_strings ≡ u.new_strings)
      × (t.appended ≡ u.appended)
    → IsGiven str_len name s t
IsGiven-counted str_len name s t u g (buf, pos, strings, appended) = record {
  packs = g.packs ∙ ap ok (sym buf);
  pos = pos ∙ g.pos;
  strings = strings ∙ g.strings;
  appended = appended ∙ g.appended;
}

apply_name-IsTyped :
    (h : Header) (kind off : ℕ) (name : Text) (o : Option (Bool × Text)) (s t : Renaming)
    → get_str h.str_base s.buf off ≡ ok name
    → new_name kind name ≡ o
    → apply_name h.str_len o s ≡ ok t
    → IsTyped h kind off s t
unfolding apply_name
apply_name-IsTyped h kind off name none s t reads e f = kept name reads e (ok_inj f)
apply_name-IsTyped h kind off name (some (true, new)) s t reads e f =
    let (u, gives, g) = ok->>= (give_name h.str_len new s) f in
    let same : t ≡ record u { renamed = u.renamed + 1 } = ok_inj g in
    let (given_name, counts) = give_name-IsGiven h.str_len new s u gives in
    let one_more = ap (λ (x : Renaming). changes x) same in
    given name new true reads e
      (IsGiven-counted h.str_len new s t u given_name (
        ap (λ (x : Renaming). x.buf) same,
        ap (λ (x : Renaming). x.pos) same,
        ap (λ (x : Renaming). x.new_strings) same,
        ap (λ (x : Renaming). x.appended) same,
      ))
      (omega (arith, one_more, counts))
apply_name-IsTyped h kind off name (some (false, new)) s t reads e f =
    let (u, gives, g) = ok->>= (give_name h.str_len new s) f in
    let same : t ≡ record u { sanitized = u.sanitized + 1 } = ok_inj g in
    let (given_name, counts) = give_name-IsGiven h.str_len new s u gives in
    let one_more = ap (λ (x : Renaming). changes x) same in
    given name new false reads e
      (IsGiven-counted h.str_len new s t u given_name (
        ap (λ (x : Renaming). x.buf) same,
        ap (λ (x : Renaming). x.pos) same,
        ap (λ (x : Renaming). x.new_strings) same,
        ap (λ (x : Renaming). x.appended) same,
      ))
      (omega (arith, one_more, counts))

pub rename_type-IsTyped :
    (h : Header) (kind off : ℕ) (s t : Renaming)
    → rename_type h kind off s ≡ ok t
    → IsTyped h kind off s t
unfolding rename_type
rename_type-IsTyped h kind zero s t e = unnamed refl (ok_inj e)
rename_type-IsTyped h kind (suc off) s t e =
    let (name, reads, f) = ok->>= (get_str h.str_base s.buf (suc off)) e in
    apply_name-IsTyped h kind (suc off) name _ s t reads refl f

-- The kind of a type, by its `info`, and how many bytes it has.
abbrev pub kind_of : ℕ → ℕ
kind_of info = info / 2 ^ 24 % 32

-- A round: the fields that are read, and what becomes of them.
pub record IsRound (h : Header) (s t : Renaming) : Type 0 where
  pub name_off : ℕ
  pub info : ℕ
  pub rest : ℕ
  pub n : ℕ
  pub after : Renaming
  pub reads_name : unpack 4 s.buf s.pos ≡ ok name_off
  pub reads_info : unpack 4 s.buf (s.pos + 4) ≡ ok info
  pub reads_rest : unpack 4 s.buf (s.pos + 8) ≡ ok rest
  pub typed : IsTyped h (kind_of info) name_off s after
  pub size : extra (kind_of info) (info % 2 ^ 16) ≡ ok n
  pub next : t ≡ record after { pos = after.pos + (12 + n) }

pub rename_round-IsRound : (h : Header) (s t : Renaming) → rename_round h s ≡ ok t → IsRound h s t
unfolding rename_round
rename_round-IsRound h s t e =
    let (name_off, a, e1) = ok->>= (unpack 4 s.buf s.pos) e in
    let (info, b, e2) = ok->>= (unpack 4 s.buf (s.pos + 4)) e1 in
    let (rest, c, e3) = ok->>= (unpack 4 s.buf (s.pos + 8)) e2 in
    let (after, d, e4) = ok->>= (rename_type h (kind_of info) name_off s) e3 in
    let (n, f, e5) = ok->>= (extra (kind_of info) (info % 2 ^ 16)) e4 in
    record {
      name_off = name_off;
      info = info;
      rest = rest;
      n = n;
      after = after;
      reads_name = a;
      reads_info = b;
      reads_rest = c;
      typed = rename_type-IsTyped h (kind_of info) name_off s after d;
      size = f;
      next = ok_inj e5;
    }

IsTyped-pos : (h : Header) (kind off : ℕ) (s t : Renaming) → IsTyped h kind off s t → t.pos ≡ s.pos
IsTyped-pos h kind off s t (unnamed _ e) = ap (λ (x : Renaming). x.pos) e
IsTyped-pos h kind off s t (kept _ _ _ e) = ap (λ (x : Renaming). x.pos) e
IsTyped-pos h kind off s t (given _ _ _ _ _ g _) = g.pos

-- A round goes on by the bytes of the type.
pub IsRound-pos : (h : Header) (s t : Renaming) (r : IsRound h s t) → t.pos ≡ s.pos + (12 + r.n)
IsRound-pos h s t r =
    ap (λ (x : Renaming). x.pos) r.next
    ∙ ap (λ p. p + (12 + r.n)) (IsTyped-pos h (kind_of r.info) r.name_off s r.after r.typed)
