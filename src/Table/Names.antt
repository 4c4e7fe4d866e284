-- ===== src/Table/Names.antt =====
-- File names: what `strncmp` compares and `memcpy` copies.
use nvme_dpdk_pcapreplay.Prelude.{
  ℕ, zero, suc, ◌≡◌, ◌↔◌, refl, List, [], ◌∷◌, true, arith, ◌==◌, if◌then◌else◌,
}
use nvme_dpdk_pcapreplay.Table.{strncmp_eq, memcpy_bytes, first_char}

-- The string in a field of `n` bytes: it ends at the first zero, or with the field.
abbrev pub cstr : ℕ → List ℕ → List ℕ
cstr zero cs = []
cstr (suc n) [] = []
cstr (suc n) (c ∷ cs) = if c == 0 then [] else (c ∷ cstr n cs)

-- Two fields compare as equal exactly when they hold the same string.
pub strncmp_eq-cstr : (n : ℕ) (a b : List ℕ) → strncmp_eq n a b ≡ true ↔ cstr n a ≡ cstr n b
unfolding strncmp_eq
strncmp_eq-cstr zero a b = ((λ e. refl), λ e. refl)
strncmp_eq-cstr (suc n) [] [] = ((λ e. refl), λ e. refl)
strncmp_eq-cstr (suc n) [] (b ∷ bs) = ground arith
strncmp_eq-cstr (suc n) (a ∷ r) [] = ground arith
strncmp_eq-cstr (suc n) (a ∷ r) (b ∷ bs) = ground (arith, strncmp_eq-cstr n r bs)

-- Copying a name into a field keeps the string that the field can hold.
pub cstr-memcpy_bytes : (n : ℕ) (cs : List ℕ) → cstr n (memcpy_bytes n cs) ≡ cstr n cs
unfolding memcpy_bytes
cstr-memcpy_bytes zero cs = refl
cstr-memcpy_bytes (suc n) [] = refl
cstr-memcpy_bytes (suc n) (c ∷ cs) = ground (arith, cstr-memcpy_bytes n cs)

pub first_char-memcpy_bytes :
    (n : ℕ) (cs : List ℕ) → first_char (memcpy_bytes (suc n) cs) ≡ first_char cs
unfolding memcpy_bytes
first_char-memcpy_bytes n [] = refl
first_char-memcpy_bytes n (c ∷ cs) = refl
