-- ===== src/SystemId/Texts.antt =====
-- Texts at the start of an array, which lib/system_id.c writes and cuts.
use mathlib.Core.Path.{subst}
use mathlib.Core.List.{append_assoc, append-nil}
use diskscan.Base.{
  ℕ, zero, suc, ◌+◌, ◌*◌, ◌/◌, ◌%◌, ◌^◌, ◌<◌, ◌≤◌, ◌≡◌, ◌≢◌, refl, sym, ap, Bool, true, false,
  Option, some, List, [], ◌∷◌, ◌++◌, length, get_elem?, set, take, ◌==◌, ◌||◌, if◌then◌else◌, arith,
  Bool-cases, inl, inr, length-append, Gives, gives, Gives-elim_of,
}
use diskscan.Report.Hex.{nibble_to_hex}
use diskscan.SystemId.{write, print_byte, print_digest, line, strlen, chop_end, trim_end}

-- The array begins with this text and a zero.
abbrev pub Holds : List ℕ → List ℕ → Type 0
Holds buf w = (t : List ℕ) × (buf ≡ w ++ 0 ∷ t)

-- Text as a command prints it has no zero.
abbrev pub Printed : List ℕ → Type 0
Printed [] = Unit {0}
Printed (c ∷ w) = (c ≢ 0) × Printed w

-- Two digits for each byte.
abbrev pub hex_text : List ℕ → List ℕ
hex_text [] = []
hex_text (b ∷ bs) = nibble_to_hex (b / 2 ^ 4) ∷ nibble_to_hex (b % 2 ^ 4) ∷ hex_text bs

-- A text less the character that ends its line.
abbrev pub chomp : List ℕ → List ℕ
chomp [] = []
chomp (c ∷ []) = if c == 13 || c == 10 then [] else c ∷ []
chomp (c ∷ d ∷ w) = c ∷ chomp (d ∷ w)

-- A text less the spaces at its end.
abbrev pub rstrip : (ℕ → Bool) → List ℕ → List ℕ
rstrip isspace [] = []
rstrip isspace (c ∷ w) = elim (rstrip isspace w) [
  | [] ↦ if isspace c then [] else c ∷ []
  | d ∷ r ↦ c ∷ d ∷ r
]

pub strlen-Printed : (w t : List ℕ) → Printed w → strlen (w ++ 0 ∷ t) ≡ some (length w)
unfolding strlen
strlen-Printed [] t p = refl
strlen-Printed (c ∷ w) t (n, p) = rw (strlen-Printed w t p) (ground (arith, n))

pub line-Printed : (n : ℕ) (s : List ℕ) → Printed s → Printed (line n s)
unfolding line
line-Printed zero s p = tt
line-Printed (suc n) [] p = tt
line-Printed (suc n) (c ∷ s) (q, p) = elim (Bool-cases (c == 10)) [
  | inl e ↦ rw e (q, tt)
  | inr e ↦ rw e (q, line-Printed n s p)
]

pub length-line : (n : ℕ) (s : List ℕ) → length (line n s) ≤ n
unfolding line
length-line zero s = omega arith
length-line (suc n) [] = omega arith
length-line (suc n) (c ∷ s) = ground (arith, length-line n s)

get_elem?-append : (u : List ℕ) (c : ℕ) (t : List ℕ) → get_elem? (u ++ c ∷ t) (length u) ≡ some c
get_elem?-append [] c t = refl
get_elem?-append (d ∷ u) c t = get_elem?-append u c t

set-append : (u : List ℕ) (c v : ℕ) (t : List ℕ) → set (u ++ c ∷ t) (length u) v ≡ u ++ v ∷ t
set-append [] c v t = refl
set-append (d ∷ u) c v t = ap (λ s. d ∷ s) (set-append u c v t)

pub take-append : (u t : List ℕ) → take (length u) (u ++ t) ≡ u
take-append [] t = refl
take-append (d ∷ u) t = ap (λ s. d ∷ s) (take-append u t)

-- Texts that are not empty have a last character.
snoc :
    (n : ℕ) (w : List ℕ)
    → length w ≡ suc n
    → (u : List ℕ) × (d : ℕ) × (w ≡ u ++ d ∷ []) × (n ≡ length u)
snoc n [] h = absurd (omega arith)
snoc zero (c ∷ []) h = ([], c, refl, refl)
snoc (suc n) (c ∷ []) h = absurd (omega arith)
snoc zero (c ∷ d ∷ w) h = absurd (omega arith)
snoc (suc n) (c ∷ d ∷ w) h =
    let (u, e, p, q) = snoc n (d ∷ w) (omega arith) in (c ∷ u, e, ap (λ s. c ∷ s) p, ap suc q)

length-snoc : (u : List ℕ) (d : ℕ) → length (u ++ d ∷ []) ≡ suc (length u)
length-snoc [] d = refl
length-snoc (c ∷ u) d = ap suc (length-snoc u d)

chomp-snoc :
    (u : List ℕ) (d : ℕ) → chomp (u ++ d ∷ []) ≡ (if d == 13 || d == 10 then u else u ++ d ∷ [])
chomp-snoc [] d = refl
chomp-snoc (c ∷ []) d = ground arith
chomp-snoc (c ∷ e ∷ u) d = rw (chomp-snoc (e ∷ u) d) (ground arith)

-- What is kept before a text that is not empty.
kept_before :
    (c : ℕ) (b : Bool) (u : List ℕ) (d : ℕ)
    → elim (u ++ d ∷ []) as (λ s. List ℕ) [ [] ↦ if b then [] else c ∷ [] | e ∷ r ↦ c ∷ e ∷ r ]
      ≡ c ∷ (u ++ d ∷ [])
kept_before c b [] d = refl
kept_before c b (e ∷ u) d = refl

rstrip-snoc :
    (isspace : ℕ → Bool) (u : List ℕ) (d : ℕ)
    → rstrip isspace (u ++ d ∷ []) ≡ (if isspace d then rstrip isspace u else u ++ d ∷ [])
rstrip-snoc isspace [] d = refl
rstrip-snoc isspace (c ∷ u) d = rw (rstrip-snoc isspace u d) (split (isspace d) refl)
  where
    split :
        (b : Bool)
        → isspace d ≡ b
        → elim (if b then rstrip isspace u else u ++ d ∷ []) as (λ s. List ℕ) [
          | [] ↦ if isspace c then [] else c ∷ []
          | e ∷ r ↦ c ∷ e ∷ r
        ]
          ≡ (if b then rstrip isspace (c ∷ u) else c ∷ (u ++ d ∷ []))
    split true e = refl
    split false e = kept_before c (isspace c) u d

-- The array with the last character of its text.
last_char : (u : List ℕ) (d : ℕ) (t : List ℕ) → (u ++ d ∷ []) ++ t ≡ u ++ d ∷ t
last_char u d t = append_assoc u (d ∷ []) t

pub chop_end-Holds :
    (n : ℕ) (w t : List ℕ)
    → length w ≡ suc n
    → (t' : List ℕ) × (chop_end (w ++ 0 ∷ t) (suc n) ≡ some (chomp w ++ 0 ∷ t', length (chomp w)))
unfolding chop_end
chop_end-Holds n w t h =
    let (u, d, e, m) = snoc n w h in
    rw (e, m, last_char u d (0 ∷ t), chomp-snoc u d, get_elem?-append u d (0 ∷ t))
      (split u d (d == 13 || d == 10))
  where
    split :
        (u : List ℕ) (d : ℕ) (b : Bool)
        → (t' : List ℕ) × (◌≡◌ {A = Option (List ℕ × ℕ)}
            (some (
              if b
              then (set (u ++ d ∷ 0 ∷ t) (length u) 0, length u)
              else (u ++ d ∷ 0 ∷ t, suc (length u))))
            (some
              ((if b then u else u ++ d ∷ []) ++ 0 ∷ t', length (if b then u else u ++ d ∷ []))))
    split u d true = (0 ∷ t, rw (set-append u d 0 (0 ∷ t)))
    split u d false = (t, rw (last_char u d (0 ∷ t), length-snoc u d))

-- The last character is taken off and the rest is cut, or the text ends there.
trim_step :
    (isspace : ℕ → Bool) (n : ℕ) (u : List ℕ) (d : ℕ) (t : List ℕ)
    → n ≡ length u
    → Gives (λ b. Holds b (rstrip isspace u)) (trim_end isspace n (u ++ 0 ∷ 0 ∷ t))
    → Gives
        (λ b. Holds b (rstrip isspace (u ++ d ∷ [])))
        (trim_end isspace (suc n) ((u ++ d ∷ []) ++ 0 ∷ t))
unfolding trim_end
trim_step isspace n u d t m rest =
    let at : get_elem? (u ++ d ∷ 0 ∷ t) n ≡ some d = rw m (get_elem?-append u d (0 ∷ t)) in
    let cut : set (u ++ d ∷ 0 ∷ t) n 0 ≡ u ++ 0 ∷ 0 ∷ t = rw m (set-append u d 0 (0 ∷ t)) in
    rw (last_char u d (0 ∷ t), rstrip-snoc isspace u d, at)
      (Gives-elim_of (isspace d) (λ y. rw (y, last_char u d (0 ∷ t), cut) rest)
        (λ y. rw y (gives _ (t, refl))))

pub trim_end-Holds :
    (isspace : ℕ → Bool) (n : ℕ) (w t : List ℕ)
    → length w ≡ n
    → Gives (λ b. Holds b (rstrip isspace w)) (trim_end isspace n (w ++ 0 ∷ t))
trim_end-Holds isspace zero [] t e = unfold trim_end in gives _ (t, refl)
trim_end-Holds isspace zero (c ∷ w) t e = absurd (omega arith)
trim_end-Holds isspace (suc n) w t h =
    let (u, d, e, m) = snoc n w h in
    subst (λ v. Gives (λ b. Holds b (rstrip isspace v)) (trim_end isspace (suc n) (v ++ 0 ∷ t)))
      (sym e) (trim_step isspace n u d t m (trim_end-Holds isspace n u (0 ∷ t) (sym m)))

write-append :
    (u : List ℕ) (i c v : ℕ) (t : List ℕ)
    → i ≡ length u
    → write (u ++ c ∷ t) i v ≡ some (u ++ v ∷ t)
write-append u i c v t h = rw (h, get_elem?-append u c t, set-append u c v t) refl

-- A write behind two texts.
write-behind :
    (u m : List ℕ) (i c v : ℕ) (t : List ℕ)
    → i ≡ length u + length m
    → write (u ++ (m ++ c ∷ t)) i v ≡ some (u ++ (m ++ v ∷ t))
write-behind u m i c v t h =
    rw (← append_assoc u m (c ∷ t), ← append_assoc u m (v ∷ t))
      (write-append (u ++ m) i c v t (omega (arith, length-append {A = ℕ} u m)))

-- Three places of an array get the digits of a byte and a zero.
print_byte-append :
    (u : List ℕ) (i b c d e : ℕ) (r : List ℕ)
    → i ≡ length u
    → print_byte (u ++ c ∷ d ∷ e ∷ r) i b
      ≡ some (u ++ nibble_to_hex (b / 2 ^ 4) ∷ nibble_to_hex (b % 2 ^ 4) ∷ 0 ∷ r)
unfolding print_byte
print_byte-append u i b c d e r h =
    let hi = nibble_to_hex (b / 2 ^ 4) in
    let lo = nibble_to_hex (b % 2 ^ 4) in
    rw
      (
        write-append u i c hi (d ∷ e ∷ r) h,
        write-behind u (hi ∷ []) (i + 1) d lo (e ∷ r) (omega arith),
        write-behind u (hi ∷ lo ∷ []) (i + 2) e 0 r (omega arith),
      )
      refl

print_digest-Holds :
    (bs u : List ℕ) (i : ℕ) (r : List ℕ)
    → i ≡ length u
    → 2 * length bs ≤ length r
    → Gives (λ o. Holds o (u ++ hex_text bs)) (print_digest bs i (u ++ 0 ∷ r))
unfolding print_digest
print_digest-Holds [] u i r e h = gives _ (r, rw (append-nil u) refl)
print_digest-Holds (b ∷ bs) u i [] e h = absurd (omega arith)
print_digest-Holds (b ∷ bs) u i (c ∷ []) e h = absurd (omega arith)
print_digest-Holds (b ∷ bs) u i (c ∷ d ∷ r) e h =
    let two = nibble_to_hex (b / 2 ^ 4) ∷ nibble_to_hex (b % 2 ^ 4) ∷ [] in
    rw
      (
        print_byte-append u i b 0 c d r e,
        ← append_assoc u two (0 ∷ r),
        ← append_assoc u two (hex_text bs),
      )
      (print_digest-Holds bs (u ++ two) (i + 2) r (omega (arith, length-append {A = ℕ} u two))
        (omega arith))

-- A digest of a byte or more, printed at the start of an array that has room for it.
pub print_digest_start :
    (b : ℕ) (bs : List ℕ) (out : List ℕ)
    → 2 * length bs + 2 < length out
    → Gives (λ o. Holds o (hex_text (b ∷ bs))) (print_digest (b ∷ bs) 0 out)
unfolding print_digest
print_digest_start b bs [] h = absurd (omega arith)
print_digest_start b bs (c ∷ []) h = absurd (omega arith)
print_digest_start b bs (c ∷ d ∷ []) h = absurd (omega arith)
print_digest_start b bs (c ∷ d ∷ e ∷ r) h =
    let two = nibble_to_hex (b / 2 ^ 4) ∷ nibble_to_hex (b % 2 ^ 4) ∷ [] in
    rw (print_byte-append [] 0 b c d e r refl)
      (print_digest-Holds bs two (0 + 2) r (omega arith) (omega arith))
