-- ===== src/Rpc/Programs.antt =====
-- The registered programs that src/rpc/dispatch.cpp looks through.
use mathlib.Core.List.{Mem, mem-cons_self, mem-cons_of_mem}
use mathlib.Core.Path.{subst}
use lightnfs.Prelude.{
  ℕ, ◌≡◌, ◌≤◌, sym, arith, ◌&&◌, not, inl, inr, min, max, true, false, none, some, List, [], ◌∷◌,
  leb, ◌==◌, Bool-cases, All,
}
use lightnfs.Rpc.Dispatch.{Program, find_program, prog_known, version_range}

no_truth : false ≡ true → ⊥
no_truth h = cc

none-some : {p : Program} → none ≡ some p → ⊥
none-some h = cc

-- The program that is found is registered, has the number, and serves the version.
pub find_program-some :
    (prog vers : ℕ) (programs : List Program) (p : Program)
    → find_program prog vers programs ≡ some p
    → Mem p programs × (p.prog ≡ prog) × (p.vers_lo ≤ vers) × (vers ≤ p.vers_hi)
unfolding find_program
find_program-some prog vers [] p h = absurd (none-some h)
find_program-some prog vers (q ∷ programs) p h = elim (Bool-cases (not (q.prog == prog))) [
  | inl a ↦
      let (there, number, low, high) = find_program-some prog vers programs p (rw a at h) in
      (mem-cons_of_mem q there, number, low, high)
  | inr a ↦ elim (Bool-cases (leb q.vers_lo vers && leb vers q.vers_hi)) [
    | inl b ↦
        let found : some q ≡ some p = rw (a, b) at h in
        let same : q ≡ p = cc in
        rw (← same) (mem-cons_self, ground arith, ground arith, ground arith)
    | inr b ↦
        let (there, number, low, high) = find_program-some prog vers programs p (rw (a, b) at h) in
        (mem-cons_of_mem q there, number, low, high)
  ]
]

no_other : (p : Program) (prog : ℕ) → not (p.prog == prog) ≡ true → p.prog ≡ prog → ⊥
no_other p prog h e = ground arith

-- A program of a version range.
abbrev pub Widens : ℕ → ℕ × ℕ → Program → Type 0
Widens prog range p = p.prog ≡ prog → (range.0 ≤ p.vers_lo) × (p.vers_hi ≤ range.1)

version_range-other :
    (prog : ℕ) (p : Program) (programs : List Program) (lo hi : ℕ)
    → not (p.prog == prog) ≡ true
    → version_range prog (p ∷ programs) lo hi ≡ version_range prog programs lo hi
unfolding version_range
version_range-other prog p programs lo hi q = rw q

version_range-same :
    (prog : ℕ) (p : Program) (programs : List Program) (lo hi : ℕ)
    → not (p.prog == prog) ≡ false
    → version_range prog (p ∷ programs) lo hi
      ≡ version_range prog programs (min lo p.vers_lo) (max hi p.vers_hi)
unfolding version_range
version_range-same prog p programs lo hi q = rw q

abbrev pub RangeFits : ℕ → List Program → ℕ → ℕ → ℕ × ℕ → Type 0
RangeFits prog programs lo hi range =
    (range.0 ≤ lo) × (hi ≤ range.1) × All (Widens prog range) programs

range_of_none : (prog lo hi : ℕ) → RangeFits prog [] lo hi (version_range prog [] lo hi)
unfolding version_range
range_of_none prog lo hi = (omega arith, omega arith, tt)

pub version_range_lem :
    (prog : ℕ) (programs : List Program) (lo hi : ℕ)
    → RangeFits prog programs lo hi (version_range prog programs lo hi)
version_range_lem prog [] lo hi = range_of_none prog lo hi
version_range_lem prog (p ∷ programs) lo hi = elim (Bool-cases (not (p.prog == prog))) [
  | inl q ↦
      let (low, high, others) = version_range_lem prog programs lo hi in
      subst (RangeFits prog (p ∷ programs) lo hi)
        (sym (version_range-other prog p programs lo hi q))
        (low, high, ((λ e. absurd (no_other p prog q e)), others))
  | inr q ↦
      let (low, high, others) =
        version_range_lem prog programs (min lo p.vers_lo) (max hi p.vers_hi) in
      subst (RangeFits prog (p ∷ programs) lo hi) (sym (version_range-same prog p programs lo hi q))
        (
          omega (arith, low),
          omega (arith, high),
          ((λ e. (omega (arith, low), omega (arith, high))), others),
        )
]

-- A program of that number, whatever its versions.
pub prog_known-some :
    (prog : ℕ) (programs : List Program)
    → prog_known prog programs ≡ true
    → (p : Program) × Mem p programs × (p.prog ≡ prog)
unfolding prog_known
prog_known-some prog [] h = absurd (no_truth h)
prog_known-some prog (q ∷ programs) h = elim (Bool-cases (q.prog == prog)) [
  | inl a ↦ (q, mem-cons_self, ground arith)
  | inr a ↦
      let (p, there, number) = prog_known-some prog programs (rw a at h) in
      (p, mem-cons_of_mem q there, number)
]
