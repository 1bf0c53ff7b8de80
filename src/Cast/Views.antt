-- ===== src/Cast/Views.antt =====
-- The user view and the kernel view of an arena address: what the wrappers keep, from what the
-- kernel documents of the instruction.
use libarena_rs.Common.{ℕ, ◌%◌, ◌^◌, ◌<◌, ◌≡◌, ◌≢◌, some, List, arith, ◌∙◌}
use libarena_rs.Cast.{r10, bpf, hosted, Machine, cast_kern, cast_user}
use libarena_rs.Cast.Encoding.{decode, cast_insn, decode-addr_space_cast}

-- The documented behaviour of a BPF machine. `InArena a` says that `a` is a user-form address of the
-- arena that an allocation can have.
pub record RunsCasts (m : Machine) (InArena : ℕ → Type 0) : Type 0 where
  pub convert : ℕ → ℕ → ℕ → ℕ
  -- Bytes that are a cast instruction of the register that the operand is in convert its value.
  pub runs :
      (bytes : List ℕ) (dst_as src_as a : ℕ)
      → dst_as < 65536
      → src_as < 65536
      → decode bytes ≡ some (cast_insn m.reg dst_as src_as)
      → m.execute bytes a ≡ convert dst_as src_as a
  -- The compiler gives an operand no frame pointer, and `usize` has 64 bits.
  pub allocatable : m.reg ≢ r10
  pub wide : m.usize_bits ≡ 64
  -- To the kernel view: the low half. Back: the upper half of the arena's base, and null stays null.
  pub to_kernel : (a : ℕ) → InArena a → convert 0 1 a ≡ a % 2 ^ 32
  pub to_user : (a : ℕ) → InArena a → convert 1 0 (a % 2 ^ 32) ≡ a
  pub to_user_null : convert 1 0 0 ≡ 0
  pub not_null : (a : ℕ) → InArena a → a ≢ 0

-- What the allocator needs of the two casts, whatever the target.
pub record IsFaithful (m : Machine) (InArena : ℕ → Type 0) : Type 0 where
  pub round_trip : (a : ℕ) → InArena a → cast_user m (cast_kern m a) ≡ a
  pub low_bits : (a : ℕ) → InArena a → cast_kern m a % 2 ^ 32 ≡ a % 2 ^ 32
  pub fits : (a : ℕ) → InArena a → cast_kern m a < 2 ^ m.usize_bits
  pub non_null : (a : ℕ) → InArena a → cast_kern m a ≢ 0

module _ (m : Machine) (InArena : ℕ → Type 0) where
  module _ (on_bpf : m.arch ≡ bpf) (laws : RunsCasts m InArena) where
    pub cast_kern_lem : (a : ℕ) → cast_kern m a ≡ laws.convert 0 1 a
    unfolding cast_kern
    cast_kern_lem a =
        rw (cast_kern, on_bpf)
          (laws.runs _ 0 1 a (omega arith) (omega arith)
            (decode-addr_space_cast m.reg 0 1 laws.allocatable (omega arith) (omega arith)))

    pub cast_user_lem : (a : ℕ) → cast_user m a ≡ laws.convert 1 0 a
    unfolding cast_user
    cast_user_lem a =
        rw (cast_user, on_bpf)
          (laws.runs _ 1 0 a (omega arith) (omega arith)
            (decode-addr_space_cast m.reg 1 0 laws.allocatable (omega arith) (omega arith)))

    kernel_view : (a : ℕ) → InArena a → cast_kern m a ≡ a % 2 ^ 32
    kernel_view a h = cast_kern_lem a ∙ laws.to_kernel a h

    user_view : (a : ℕ) → InArena a → cast_user m (a % 2 ^ 32) ≡ a
    user_view a h = cast_user_lem (a % 2 ^ 32) ∙ laws.to_user a h

    low_ne_zero : (a : ℕ) → InArena a → a % 2 ^ 32 ≢ 0
    low_ne_zero a h e =
        laws.not_null a h (omega (arith, rw e at (laws.to_user a h), laws.to_user_null))

    -- On BPF, where a decoded cast instruction does what the kernel documents, the hand-encoded casts
    -- are faithful: for an address of the arena the kernel view keeps the low 32 bits, fits a pointer
    -- and is not null, and `cast_user` takes it back to the address.
    pub bpf-IsFaithful : IsFaithful m InArena
    bpf-IsFaithful = record {
      round_trip = λ a h. rw (kernel_view a h) (user_view a h);
      low_bits = λ a h. omega (arith, kernel_view a h);
      fits = λ a h. rw (kernel_view a h, laws.wide) (omega arith);
      non_null = λ a h. rw (kernel_view a h) (low_ne_zero a h);
    }

  -- Elsewhere the casts change nothing.
  pub hosted-IsFaithful :
      m.arch ≡ hosted
      → ((a : ℕ) → InArena a → (a < 2 ^ m.usize_bits) × (a ≢ 0))
      → IsFaithful m InArena
  unfolding cast_kern cast_user
  hosted-IsFaithful e small = record {
    round_trip = λ a h. rw e;
    low_bits = λ a h. rw e;
    fits = λ a h. rw e (small a h).0;
    non_null = λ a h. rw e (small a h).1;
  }
