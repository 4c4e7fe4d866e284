-- ===== src/Replay/Numbers.antt =====
-- src/replay/config.c, `str_to_unsigned_array` and `str_to_unsigned_vals`, and the functions of the
-- C library under them.
use nvme_dpdk_pcapreplay.Prelude.{
  ℕ, ◌+◌, ◌-◌, ◌*◌, ◌%◌, ◌^◌, ◌≡◌, refl, Bool, true, false, Option, none, some, List, [], ◌∷◌, leb,
  ltb, ◌==◌, if◌then◌else◌, ◌&&◌, ◌||◌, length,
}
use nvme_dpdk_pcapreplay.Layout.{u32}
use nvme_dpdk_pcapreplay.Replay.Params.{Dpdk}

-- How a function that reads an argument ends: well, with the code -k, by `exit`, or in writes past
-- the end of an array, after which C says nothing.
pub data Parse {ℓ} (A : Type ℓ) : Type ℓ where
  ok : A → Parse A
  fails : ℕ → Parse A
  exits : Parse A
  undefined : Parse A

infixl 5 ◌>>=◌ ◌>>◌
abbrev pub ◌>>=◌ {ℓ κ} : {A : Type ℓ} {B : Type κ} → Parse A → (A → Parse B) → Parse B
ok a >>= f = f a
fails k >>= f = fails k
exits >>= f = exits
undefined >>= f = undefined

abbrev pub ◌>>◌ {ℓ} : {B : Type ℓ} → Parse (Unit {0}) → Parse B → Parse B
m >> k = m >>= λ _. k

-- `if (!test) return -k;`
abbrev pub guard : Bool → ℕ → Parse (Unit {0})
guard true k = ok tt
guard false k = fails k

abbrev is_space : ℕ → Bool
is_space c = c == 32 || (leb 9 c && leb c 13)

skip_spaces : List ℕ → List ℕ
skip_spaces [] = []
skip_spaces (c ∷ cs) = if is_space c then skip_spaces cs else (c ∷ cs)

-- The value of a digit, or 99.
abbrev digit_value : ℕ → ℕ
digit_value c =
    if leb b'0' c && leb c b'9'
    then c - b'0'
    else (if leb b'a' c && leb c b'z'
        then c - b'a' + 10
        else (if leb b'A' c && leb c b'Z' then c - b'A' + 10 else 99))

-- The digits in a base from the front, with the number so far: the number, and what is left.
digits_from : ℕ → ℕ → List ℕ → ℕ × List ℕ
digits_from base acc [] = (acc, [])
digits_from base acc (c ∷ cs) =
    let rest = digits_from base (acc * base + digit_value c) cs in
    if ltb (digit_value c) base then rest else (acc, c ∷ cs)

-- The number of a text without a sign, in the base that its prefix tells; with no digit, nothing is
-- read.
abbrev starts_digit : ℕ → List ℕ → Bool
starts_digit base [] = false
starts_digit base (c ∷ cs) = ltb (digit_value c) base

unsigned_text : List ℕ → Option (ℕ × List ℕ)
unfolding digits_from
unsigned_text [] = none
unsigned_text (c ∷ []) = if ltb (digit_value c) 10 then some (digit_value c, []) else none
unsigned_text (c ∷ d ∷ cs) =
    if c == b'0'
    then (if (d == b'x' || d == b'X') && starts_digit 16 cs
        then some (digits_from 16 0 cs)
        else some (digits_from 8 0 (c ∷ d ∷ cs)))
    else (if ltb (digit_value c) 10 then some (digits_from 10 0 (c ∷ d ∷ cs)) else none)

-- `strtoul (s, &end, 0)`: the value, the text at `end`, and whether it is in range.
pub record Strtoul : Type 0 where
  pub value : ℕ
  pub end : List ℕ
  pub in_range : Bool

abbrev signed_result : Bool → List ℕ → Option (ℕ × List ℕ) → Strtoul
signed_result negative s none = record { value = 0; end = s; in_range = true }
signed_result negative s (some (n, end)) =
    if ltb n (2 ^ 64)
    then record {
      value = (if negative then (2 ^ 64 - n) % 2 ^ 64 else n);
      end = end;
      in_range = true;
    }
    else record { value = 2 ^ 64 - 1; end = end; in_range = false }

after_sign : List ℕ → List ℕ → Strtoul
unfolding unsigned_text
after_sign s [] = record { value = 0; end = s; in_range = true }
after_sign s (c ∷ cs) =
    if c == b'-'
    then signed_result true s (unsigned_text cs)
    else (if c == b'+'
        then signed_result false s (unsigned_text cs)
        else signed_result false s (unsigned_text (c ∷ cs)))

pub strtoul : List ℕ → Strtoul
unfolding after_sign skip_spaces
strtoul s = after_sign s (skip_spaces s)

-- The loop of `str_to_unsigned_array`: `none` is its -1.
unsigned_values : List (List ℕ) → Option (List ℕ)
unfolding strtoul
unsigned_values [] = some []
unsigned_values (s ∷ ss) =
    let r = strtoul s in
    let rest = unsigned_values ss in
    if r.in_range && (length r.end == 0)
    then elim rest [ none ↦ none | some vs ↦ some (u32 r.value ∷ vs) ]
    else none

-- `str` is the text to be split, of which `snprintf` has copied at most `sbuflen` characters.
pub str_to_unsigned_array : Dpdk → List ℕ → ℕ → ℕ → Option (List ℕ)
unfolding unsigned_values
str_to_unsigned_array dpdk s separator num_vals =
    unsigned_values (dpdk.strsplit s num_vals separator)

-- A -1 becomes the unsigned bound of the loop that stores the values.
unfoldable pub str_to_unsigned_vals : Dpdk → List ℕ → ℕ → ℕ → Parse (List ℕ)
unfolding str_to_unsigned_array
str_to_unsigned_vals dpdk s separator num_vals =
    elim (str_to_unsigned_array dpdk s separator num_vals) [ none ↦ undefined | some vs ↦ ok vs ]

-- What a chain that ends well went through.
pub >>=-eq-ok {ℓ κ} :
    {A : Type ℓ} {C : Type κ} (first : Parse A) (next : A → Parse C) {out : C}
    → (first >>= next) ≡ ok out
    → (got : A) × (first ≡ ok got) × (next got ≡ ok out)
>>=-eq-ok undefined next went = cc
>>=-eq-ok exits next went = cc
>>=-eq-ok (fails k) next went = cc
>>=-eq-ok (ok got) next went = (got, refl, went)
