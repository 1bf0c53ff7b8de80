-- ===== src/ArenaAlloc/Clients.antt =====
-- Any sequence of `alloc` and `dealloc` calls by a program that frees only what it holds.
use Prim.Native.Nat.{◌∣◌}
use libarena_rs.Common.{
  ℕ, ◌≤◌, ◌≡◌, ◌≢◌, Bool, true, false, List, [], ◌∷◌, arith, ◌==◌, ◌||◌, if◌then◌else◌, All,
  Bool-cases, inl, inr, ==_iff, ◌∙◌, ap, sym,
}
use libarena_rs.Cast.{Machine, cast_kern, cast_user}
use libarena_rs.Cast.Views.{IsFaithful}
use libarena_rs.Raw.{Libarena, arena_free}
use libarena_rs.Raw.Laws.{Block, Disjoint, is_live, release, IsAllocator}
use libarena_rs.ArenaAlloc.{Layout, alloc, dealloc}
use libarena_rs.ArenaAlloc.Contract.{IsValid, alloc_lem}

-- The pointers that the program holds, with the layouts that they were allocated for.
abbrev pub Owned : Type 0
Owned = List (ℕ × Layout)

abbrev pub owns : ℕ → Owned → Bool
owns p [] = false
owns p ((q, _) ∷ os) = (q == p) || owns p os

abbrev pub disown : ℕ → Owned → Owned
disown p [] = []
disown p ((q, layout) ∷ os) = let rest = disown p os in if q == p then os else (q, layout) ∷ rest

module _ (m : Machine) where
  -- One held pointer in front of one live block: the same place in its two views, aligned and large
  -- enough for its layout.
  pub record Backs (ptr : ℕ) (layout : Layout) (b : Block) : Type 0 where
    pub kernel_view : cast_kern m b.addr ≡ ptr
    pub user_view : cast_user m ptr ≡ b.addr
    pub aligned : layout.align ∣ ptr
    pub enough : layout.size ≤ b.size

  -- The live blocks are those of the held pointers, one for each, and lie apart.
  abbrev pub Matches : Owned → List Block → Type 0
  Matches [] [] = Unit
  Matches [] (b ∷ bs) = ⊥
  Matches (o ∷ os) [] = ⊥
  Matches ((ptr, layout) ∷ os) (b ∷ bs) = Backs ptr layout b × All (Disjoint b) bs × Matches os bs

  All-release : (P : Block → Type 0) (a : ℕ) (bs : List Block) → All P bs → All P (release a bs)
  All-release P a [] h = tt
  All-release P a (b ∷ bs) (hb, h) = elim (Bool-cases (b.addr == a)) [
    | inl here ↦ rw here h
    | inr other ↦ rw other (hb, All-release P a bs h)
  ]

  owned_view :
      (p : ℕ) (os : Owned) (bs : List Block)
      → Matches os bs
      → owns p os ≡ true
      → (cast_kern m (cast_user m p) ≡ p) × (is_live (cast_user m p) bs ≡ true)
  owned_view p [] bs h o = cc
  owned_view p (_ ∷ os) [] h o = absurd h
  owned_view p ((q, layout) ∷ os) (b ∷ bs) (backs, apart, h) o = elim (Bool-cases (q == p)) [
    | inl here ↦
        let e : q ≡ p = (==_iff q p).0 here in
        let addr : cast_user m p ≡ b.addr = ap (cast_user m) (sym e) ∙ backs.user_view in
        (rw addr (backs.kernel_view ∙ e), ground arith)
    | inr other ↦ ground (arith, owned_view p os bs h)
  ]

  disown-Matches :
      (p : ℕ) (os : Owned) (bs : List Block)
      → cast_kern m (cast_user m p) ≡ p
      → Matches os bs
      → Matches (disown p os) (release (cast_user m p) bs)
  disown-Matches p [] [] view h = tt
  disown-Matches p [] (b ∷ bs) view h = absurd h
  disown-Matches p (_ ∷ os) [] view h = absurd h
  disown-Matches p ((q, layout) ∷ os) (b ∷ bs) view (backs, apart, h) = elim (Bool-cases (q == p)) [
    | inl here ↦
        let e : q ≡ p = (==_iff q p).0 here in
        let addr : b.addr ≡ cast_user m p = sym (ap (cast_user m) (sym e) ∙ backs.user_view) in
        rw (here, (==_iff _ _).1 addr) h
    | inr other ↦ elim (Bool-cases (b.addr == cast_user m p)) [
      | inl same ↦
          let e : q ≡ p = sym backs.kernel_view ∙ ap (cast_kern m) ((==_iff _ _).0 same) ∙ view in
          absurd (ground arith)
      | inr apart_from ↦
          rw (other, apart_from) (backs, All-release _ _ bs apart, disown-Matches p os bs view h)
    ]
  ]

module _ (m : Machine) (l : Libarena) (limit : ℕ) where
  pub record Client : Type 0 where
    pub heap : l.Heap
    pub owned : Owned

  pub data Step : Client → Client → Type 0 where
    allocates :
        (c : Client) (layout : Layout) (v : IsValid layout)
        → v.align_log ≤ limit
        → (alloc m l c.heap layout).0 ≢ 0
        → Step c (record {
          heap = (alloc m l c.heap layout).1;
          owned = ((alloc m l c.heap layout).0, layout) ∷ c.owned;
        })
    runs_out :
        (c : Client) (layout : Layout) (v : IsValid layout)
        → v.align_log ≤ limit
        → (alloc m l c.heap layout).0 ≡ 0
        → Step c (record { heap = (alloc m l c.heap layout).1; owned = c.owned })
    frees :
        (c : Client) (ptr : ℕ) (layout : Layout)
        → owns ptr c.owned ≡ true
        → Step c (record { heap = dealloc m l c.heap ptr layout; owned = disown ptr c.owned })

  pub data Reach (c : Client) : Client → Type 0 where
    here : Reach c c
    next : {d e : Client} → Reach c d → Step d e → Reach c e

module _ (m : Machine) (l : Libarena) (limit : ℕ) (InArena : ℕ → Type 0)
    (views : IsFaithful m InArena) (laws : IsAllocator l limit InArena) (low : limit ≤ 32) where
  abbrev pub IsSafe : Client m l limit → Type 0
  IsSafe c = Matches m c.owned (laws.blocks c.heap)

  pub Step-IsSafe : {c d : Client m l limit} → Step m l limit c d → IsSafe c → IsSafe d
  unfolding dealloc arena_free
  Step-IsSafe (allocates c layout v small ok) safe =
      let f = (alloc_lem m l limit InArena views laws c.heap layout v small low).1 ok in
      rw f.grown (
        record {
          kernel_view = f.kernel_view;
          user_view = f.user_view;
          aligned = f.aligned;
          enough = f.enough;
        },
        f.fresh,
        safe,
      )
  Step-IsSafe (runs_out c layout v small null) safe =
      rw ((alloc_lem m l limit InArena views laws c.heap layout v small low).0 null) safe
  Step-IsSafe (frees c ptr layout held) safe =
      let (view, live) = owned_view m ptr c.owned _ safe held in
      rw (laws.released c.heap _ live) (disown-Matches m ptr c.owned _ view safe)

  pub Reach-IsSafe : {c d : Client m l limit} → Reach m l limit c d → IsSafe c → IsSafe d
  Reach-IsSafe here safe = safe
  Reach-IsSafe (next r s) safe = Step-IsSafe s (Reach-IsSafe r safe)

  -- Where the casts are faithful and the allocator keeps its contract: from an allocator with no live
  -- block, after any sequence of allocations, refusals and frees of held pointers, the live blocks are
  -- those of the held pointers, one for each and in their order, pairwise apart, and each pointer is
  -- the kernel view of its block, a multiple of its layout's alignment, with the layout's size at least
  -- behind it.
  pub allocator-IsSafe :
      (h : l.Heap)
      → laws.blocks h ≡ []
      → {d : Client m l limit} → Reach m l limit (record { heap = h; owned = [] }) d
      → IsSafe d
  allocator-IsSafe h empty r = Reach-IsSafe r (rw empty tt)
