-- ===== src/Inquiry/Text.antt =====
-- The text of a string in an array, which libscsicmd/src/parse_inquiry.c and arch/arch-linux.c
-- write and cut.
use diskscan.Base.{
  ℕ, zero, suc, ◌+◌, ◌<◌, ◌≤◌, ◌≡◌, ◌≢◌, ◌∙◌, Bool, some, List, [], ◌∷◌, length, get_elem?, set,
  if◌then◌else◌, get_elem?-set_ne, arith,
}

-- From offset i on, the array holds this text and a zero behind it.
pub data Text (buf : List ℕ) : ℕ → List ℕ → Type 0 where
  stop : {i : ℕ} → get_elem? buf i ≡ some 0 → Text buf i []
  char :
      {i c : ℕ} {w : List ℕ}
      → get_elem? buf i ≡ some c
      → c ≢ 0
      → Text buf (i + 1) w
      → Text buf i (c ∷ w)

-- A write before the text leaves it.
pub Text-set :
    {buf : List ℕ} {i s : ℕ} {w : List ℕ} (v : ℕ) → s < i → Text buf i w → Text (set buf s v) i w
Text-set {buf} v h (stop e) = stop (get_elem?-set_ne buf v (ground (arith, h)) ∙ e)
Text-set {buf} v h (char e n rest) =
    char (get_elem?-set_ne buf v (ground (arith, h)) ∙ e) n (Text-set v (omega (arith, h)) rest)

pub Text-length : {buf : List ℕ} {i : ℕ} {w : List ℕ} → Text buf i w → i + length w < length buf
Text-length {buf} {i} (stop e) = inside buf i e
  where
    inside : (xs : List ℕ) (i : ℕ) → get_elem? xs i ≡ some 0 → i + 0 < length xs
    inside [] i e = cc
    inside (x ∷ xs) zero e = omega arith
    inside (x ∷ xs) (suc i) e = omega (arith, inside xs i e)
Text-length (char e n rest) = omega (arith, Text-length rest)

-- Two arrays that agree from i on hold the same text there.
pub Text-same :
    {a b : List ℕ} {i : ℕ} {w : List ℕ}
    → ((j : ℕ) → i ≤ j → get_elem? b j ≡ get_elem? a j)
    → Text a i w
    → Text b i w
Text-same {i} k (stop e) = stop (k i (omega arith) ∙ e)
Text-same {i} k (char e n rest) =
    char (k i (omega arith) ∙ e) n (Text-same (λ j h. k j (omega arith)) rest)

module _ (isspace : ℕ → Bool) where
  abbrev pub drop_spaces : List ℕ → List ℕ
  drop_spaces [] = []
  drop_spaces (c ∷ w) = let rest = drop_spaces w in if isspace c then rest else c ∷ w

  abbrev pub take_word : List ℕ → List ℕ
  take_word [] = []
  take_word (c ∷ w) = let rest = take_word w in if isspace c then [] else c ∷ rest

  -- The first word of a text.
  abbrev pub first_word : List ℕ → List ℕ
  first_word w = take_word (drop_spaces w)
