-- ===== src/Rpc/Accepts.antt =====
-- The credentials that src/rpc/auth.cpp accepts, and the program of src/rpc/dispatch.cpp that serves a
-- version, described without their code.
use mathlib.Core.Path.{subst}
use lightnfs.Prelude.{
  ℕ, zero, suc, ◌≡◌, ◌≤◌, ◌⊎◌, refl, ap, sym, ◌∙◌, arith, ◌&&◌, ◌||◌, not, inl, inr, true, false,
  Option, none, some, List, [], ◌∷◌, ◌++◌, ltb, leb, ◌==◌, if◌then◌else◌, ◌>>=◌, All, Bool-cases,
}
use lightnfs.Xdr.Decode.{XdrDec, of_flat}
use lightnfs.Xdr.Flat.{
  view, IsDec, Agrees, bind-Agrees, test-Agrees, u32-Agrees, opaque-Agrees, u32_flat, opaque_flat,
}
use lightnfs.Rpc.Call.{Header}
use lightnfs.Rpc.Auth.{
  auth_sys, Cred, nobody, authenticated, auth_failed, read_gids, auth_sys_body,
  auth_sys_authenticate, or_eacces, authenticate, is_empty,
}
use lightnfs.Rpc.Dispatch.{Program, find_program}

-- Words of 32 bits, one after the other.
unfoldable pub words_flat : ℕ → List ℕ → Option (List ℕ × List ℕ)
words_flat zero b = some ([], b)
words_flat (suc n) b = do (w, b) ← u32_flat b; (ws, b) ← words_flat n b; some (w ∷ ws, b)

-- The body of AUTH_SYS in plain bytes, as RFC 5531 has it: at most 16 groups, and a machine name of
-- at most 255 bytes.
unfoldable pub auth_sys_flat : List ℕ → Option Cred
unfolding words_flat
auth_sys_flat b = do
  (stamp, b) ← u32_flat b
  (machine, b) ← opaque_flat 255 b
  (uid, b) ← u32_flat b
  (gid, b) ← u32_flat b
  (ngids, b) ← u32_flat b
  (gids, b) ← (if ltb 16 ngids then none else words_flat ngids b)
  some (record {
    uid = uid;
    gid = gid;
    gids = gids;
    flavor = auth_sys;
    anonymous = false;
    machine = machine;
  })

-- AUTH_NONE is nobody; AUTH_SYS needs an empty AUTH_NONE verifier and a body that can be read.
abbrev pub Accepted : Header → Cred → Type 0
Accepted h cred =
    ((h.cred.flavor ≡ 0) × (cred ≡ nobody))
    ⊎ ((h.cred.flavor ≡ 1)
        × (h.verf.flavor ≡ 0)
        × (h.verf.body ≡ [])
        × (auth_sys_flat h.cred.body ≡ some cred))

auth_failed-authenticated : {e : ℕ} {c : Cred} → auth_failed e ≡ authenticated c → ⊥
auth_failed-authenticated h = cc

authenticated_inj : {c d : Cred} → authenticated c ≡ authenticated d → c ≡ d
authenticated_inj h = cc

is_empty-nil : (bytes : List ℕ) → is_empty bytes ≡ true → bytes ≡ []
is_empty-nil [] h = refl
is_empty-nil (b ∷ bytes) h = let bad : ⊥ = cc in absurd bad

read_gids-Agrees : (n : ℕ) (d : XdrDec) → IsDec d → Agrees (read_gids n d) (words_flat n (view d))
unfolding read_gids words_flat
read_gids-Agrees zero d h = (refl, refl, h)
read_gids-Agrees (suc n) d h =
    bind-Agrees _ _ _ _ (u32-Agrees d h)
      λ g d h. bind-Agrees _ _ _ _ (read_gids-Agrees n d h) λ gids d h. (refl, refl, h)

-- A step whose result keeps no decoder.
bind-same :
    {A : Type 0} {B : Type 0} (r : Option (A × XdrDec)) (p : Option (A × List ℕ))
    → (f : A × XdrDec → Option B) (g : A × List ℕ → Option B) → Agrees r p
    → ((a : A) (d : XdrDec) → IsDec d → f (a, d) ≡ g (a, view d))
    → (r >>= f) ≡ (p >>= g)
bind-same none none f g h k = refl
bind-same none (some p) f g h k = absurd h
bind-same (some r) none f g h k = absurd h
bind-same (some (a, d)) (some (b, bytes)) f g h k = rw (← h.0, ← h.1) (k a d h.2)

auth_sys_body-flat : (d : XdrDec) → IsDec d → auth_sys_body d ≡ auth_sys_flat (view d)
unfolding auth_sys_body auth_sys_flat
auth_sys_body-flat d h = bind-same _ _ _ _ (u32-Agrees d h) λ stamp d h.
    bind-same _ _ _ _ (opaque-Agrees 255 d h) λ machine d h.
      bind-same _ _ _ _ (u32-Agrees d h) λ uid d h. bind-same _ _ _ _ (u32-Agrees d h) λ gid d h.
        bind-same _ _ _ _ (u32-Agrees d h) λ ngids d h.
          bind-same _ _ _ _
            (test-Agrees (ltb 16 ngids) (read_gids ngids d) (words_flat ngids (view d))
              (read_gids-Agrees ngids d h))
            λ gids d h. refl

of_flat-IsDec : (bytes : List ℕ) → IsDec (of_flat bytes)
of_flat-IsDec bytes = record { inside = tt; counted = refl }

body-Accepted :
    (h : Header) (cred : Cred) (o : Option Cred)
    → h.cred.flavor ≡ 1
    → (h.verf.flavor ≡ 0) × (h.verf.body ≡ [])
    → auth_sys_flat h.cred.body ≡ o
    → or_eacces o ≡ authenticated cred
    → Accepted h cred
body-Accepted h cred none f v e k = absurd (auth_failed-authenticated k)
body-Accepted h cred (some c) f v e k = inr (f, v.0, v.1, e ∙ ap some (authenticated_inj k))

pub authenticate-Accepted :
    (h : Header) (cred : Cred) → authenticate h ≡ authenticated cred → Accepted h cred
unfolding authenticate auth_sys_authenticate
authenticate-Accepted h cred k = elim (Bool-cases (h.cred.flavor == 0)) [
  | inl q ↦ inl (ground arith, sym (authenticated_inj (rw q at k)))
  | inr q ↦ elim (Bool-cases (h.cred.flavor == 1)) [
    | inl u ↦ elim (Bool-cases (not (h.verf.flavor == 0) || not (is_empty h.verf.body))) [
      | inl v ↦ absurd (auth_failed-authenticated (rw (q, u, v) at k))
      | inr v ↦
          let no_flavor : h.verf.flavor ≡ 0 = ground arith in
          let empty : is_empty h.verf.body ≡ true = ground arith in
          let body = auth_sys_body-flat (of_flat h.cred.body) (of_flat-IsDec h.cred.body) in
          body-Accepted h cred (auth_sys_flat h.cred.body) (ground arith)
            (no_flavor, is_empty-nil h.verf.body empty) refl (rw (q, u, v, body) at k)
    ]
    | inr u ↦ absurd (auth_failed-authenticated (rw (q, u) at k))
  ]
]

pub Accepted-authenticate :
    (h : Header) (cred : Cred) → Accepted h cred → authenticate h ≡ authenticated cred
unfolding authenticate auth_sys_authenticate
Accepted-authenticate h cred (inl (f, c)) = rw (f, c)
Accepted-authenticate h cred (inr (f, v, e, b)) =
    rw (f, v, e, auth_sys_body-flat (of_flat h.cred.body) (of_flat-IsDec h.cred.body), b)

-- A program serves a number and a version in its range.
abbrev pub Serves : ℕ → ℕ → Program → Type 0
Serves prog vers p = (p.prog ≡ prog) × (p.vers_lo ≤ vers) × (vers ≤ p.vers_hi)

-- The first of the registered programs that serves.
pub record IsFirst (prog vers : ℕ) (programs : List Program) (p : Program) : Type 0 where
  pub before : List Program
  pub after : List Program
  pub split : programs ≡ before ++ p ∷ after
  pub serves : Serves prog vers p
  pub none_before : All (λ q. ¬ Serves prog vers q) before

later :
    {prog vers : ℕ} {programs : List Program} {p : Program} (q : Program)
    → ¬ Serves prog vers q
    → IsFirst prog vers programs p
    → IsFirst prog vers (q ∷ programs) p
later q h f = record {
  before = q ∷ f.before;
  after = f.after;
  split = ap (λ (t : List Program). q ∷ t) f.split;
  serves = f.serves;
  none_before = (h, f.none_before);
}

pub find_program-IsFirst :
    (prog vers : ℕ) (programs : List Program) (p : Program)
    → find_program prog vers programs ≡ some p
    → IsFirst prog vers programs p
unfolding find_program
find_program-IsFirst prog vers [] p h = let bad : ⊥ = cc in absurd bad
find_program-IsFirst prog vers (q ∷ programs) p h = elim (Bool-cases (not (q.prog == prog))) [
  | inl a ↦ later q (λ s. ground arith) (find_program-IsFirst prog vers programs p (rw a at h))
  | inr a ↦ elim (Bool-cases (leb q.vers_lo vers && leb vers q.vers_hi)) [
    | inl b ↦
        let found : some q ≡ some p = rw (a, b) at h in
        let same : q ≡ p = cc in
        record {
          before = [];
          after = programs;
          split = ap (λ (t : Program). t ∷ programs) same;
          serves = subst (Serves prog vers) same (ground arith, ground arith, ground arith);
          none_before = tt;
        }
    | inr b ↦
        later q (λ s. ground arith) (find_program-IsFirst prog vers programs p (rw (a, b) at h))
  ]
]

found_after :
    (prog vers : ℕ) (before after : List Program) (p : Program)
    → Serves prog vers p
    → All (λ q. ¬ Serves prog vers q) before
    → find_program prog vers (before ++ p ∷ after) ≡ some p
unfolding find_program
found_after prog vers [] after p (e, lo, hi) h =
    let a : not (p.prog == prog) ≡ false = ground arith in
    let b : (leb p.vers_lo vers && leb vers p.vers_hi) ≡ true = ground arith in rw (a, b)
found_after prog vers (q ∷ before) after p s (h, hs) = elim (Bool-cases (not (q.prog == prog))) [
  | inl a ↦ rw a (found_after prog vers before after p s hs)
  | inr a ↦ elim (Bool-cases (leb q.vers_lo vers && leb vers q.vers_hi)) [
    | inl b ↦ absurd (h (ground arith, ground arith, ground arith))
    | inr b ↦ rw (a, b) (found_after prog vers before after p s hs)
  ]
]

pub IsFirst-find_program :
    (prog vers : ℕ) (programs : List Program) (p : Program)
    → IsFirst prog vers programs p
    → find_program prog vers programs ≡ some p
IsFirst-find_program prog vers programs p f =
    rw (f.split) (found_after prog vers f.before f.after p f.serves f.none_before)
