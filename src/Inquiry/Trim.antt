-- ===== src/Inquiry/Trim.antt =====
-- `strtrim` of arch/arch-linux.c leaves the first word of a string.
use diskscan.Base.{
  ℕ, zero, suc, ◌<◌, ◌≤◌, ◌≡◌, ◌≢◌, ◌∙◌, refl, Bool, true, false, not, ◌&&◌, ◌==◌, some, List, [],
  length, get_elem?, set, get_elem?-set_ne, get_elem?-set_self, length-set, get_elem?-get_or, arith,
  Gives, gives, Gives-mono, not-false, not-true, Gives-elim_of, Gives-step, ◌>>=◌,
}
use diskscan.Inquiry.{skip_spaces, move_word, skip_word, strtrim}
use diskscan.Inquiry.Text.{
  Text, stop, char, Text-set, Text-length, drop_spaces, take_word, first_word,
}

and_right : (a : Bool) {b : Bool} → (a && b) ≡ true → b ≡ true
and_right true e = e
and_right false e = cc

and_false : {a b : Bool} → a ≡ true → (a && b) ≡ false → b ≡ false
and_false {a = true} h e = e
and_false {a = false} h e = cc

module _ (isspace : ℕ → Bool) where
  -- Where a run over spaces ends, the text is the rest; it ends where it began only without them.
  record Skipped (buf : List ℕ) (i : ℕ) (w : List ℕ) (t : ℕ) : Type 0 where
    rest : Text buf t (drop_spaces isspace w)
    onward : i ≤ t

  space_of : (c : ℕ) → (not (c == 0) && isspace c) ≡ true → isspace c ≡ true
  space_of c e = and_right (not (c == 0)) e

  letter_of : (c : ℕ) → c ≢ 0 → (not (c == 0) && isspace c) ≡ false → isspace c ≡ false
  letter_of c n e = let nonzero : not (c == 0) ≡ true = ground (arith, n) in and_false nonzero e

  skip_spaces-Skipped :
      (fuel : ℕ) {buf : List ℕ} {i : ℕ} {w : List ℕ}
      → Text buf i w
      → length w < fuel
      → Gives (Skipped buf i w) (skip_spaces isspace fuel buf i)
  unfolding skip_spaces
  skip_spaces-Skipped zero text h = absurd (omega arith)
  skip_spaces-Skipped (suc fuel) {i} (stop e) h =
      rw e (gives i (record { rest = stop e; onward = omega arith }))
  skip_spaces-Skipped (suc fuel) {i} (char {c = c} e n rest) h = rw e (
      Gives-elim_of (not (c == 0) && isspace c)
        (λ t.
          Gives-mono (skip_spaces-Skipped fuel rest (omega (arith, h)))
            (λ end s. record { rest = rw (space_of c t) s.rest; onward = omega (arith, s.onward) }))
        (λ f.
          gives i (record { rest = rw (letter_of c n f) (char e n rest); onward = omega arith })))

  word_end : (c : ℕ) → c ≢ 0 → (not (c == 0) && not (isspace c)) ≡ false → isspace c ≡ true
  word_end c n f =
      let nonzero : not (c == 0) ≡ true = ground (arith, n) in not-false (and_false nonzero f)

  word_on : (c : ℕ) → (not (c == 0) && not (isspace c)) ≡ true → isspace c ≡ false
  word_on c t = not-true (and_right (not (c == 0)) t)

  -- The array from s on holds the first word of what it held from t on, and nothing changed below.
  record Moved (buf : List ℕ) (s : ℕ) (w : List ℕ) (r : List ℕ) : Type 0 where
    moved : Text r s (take_word isspace w)
    below : (j : ℕ) → j < s → get_elem? r j ≡ get_elem? buf j
    size : length r ≡ length buf

  stop_here :
      {buf : List ℕ} {s : ℕ} {w : List ℕ}
      → s < length buf
      → take_word isspace w ≡ []
      → Gives (Moved buf s w) (get_elem? buf s >>= λ old. some (set buf s 0))
  stop_here {buf} {s} h e = rw (get_elem?-get_or buf s 0 h) (
      gives (set buf s 0) (record {
        moved = rw e (stop (get_elem?-set_self buf s 0 h));
        below = λ j lt. get_elem?-set_ne buf 0 (ground (arith, lt));
        size = length-set buf s 0;
      }))

  move_word-Moved :
      (fuel : ℕ) {buf : List ℕ} {t s : ℕ} {w : List ℕ}
      → Text buf t w
      → s < t
      → length w < fuel
      → Gives (Moved buf s w) (move_word isspace fuel buf t s)
  unfolding move_word
  move_word-Moved zero text lt h = absurd (omega arith)
  move_word-Moved (suc fuel) {buf} (stop e) lt h =
      rw e (stop_here (omega (arith, lt, Text-length {buf = buf} (stop e))) refl)
  move_word-Moved (suc fuel) {buf} {t} {s} (char {c = c} e n rest) lt h = rw e (
      Gives-elim_of (not (c == 0) && not (isspace c))
        (λ on.
          let inside : s < length buf = omega (arith, lt, Text-length {buf = buf} rest) in
          rw (get_elem?-get_or buf s 0 inside) (
            Gives-mono
              (move_word-Moved fuel (Text-set c (omega (arith, lt)) rest) (omega (arith, lt))
                (omega (arith, h)))
              (λ r m. record {
                moved =
                    rw (word_on c on) (
                      char (m.below s (omega arith) ∙ get_elem?-set_self buf s c inside) n m.moved);
                below = λ j hj.
                    m.below j (omega (arith, hj)) ∙ get_elem?-set_ne buf c (ground (arith, hj));
                size = m.size ∙ length-set buf s c;
              })))
        (λ ended.
          stop_here (omega (arith, lt, Text-length {buf = buf} (char e n rest)))
            (rw (word_end c n ended) refl)))

  -- The array cut at the end of a word.
  record Cut (buf : List ℕ) (i : ℕ) (w : List ℕ) (end : ℕ) : Type 0 where
    word : Text (set buf end 0) i (take_word isspace w)
    onward : i ≤ end

  skip_word-Cut :
      (fuel : ℕ) {buf : List ℕ} {i : ℕ} {w : List ℕ}
      → Text buf i w
      → length w < fuel
      → Gives (Cut buf i w) (skip_word isspace fuel buf i)
  unfolding skip_word
  skip_word-Cut zero text h = absurd (omega arith)
  skip_word-Cut (suc fuel) {buf} {i} (stop e) h =
      let inside : i < length buf = omega (arith, Text-length {buf = buf} (stop e)) in
      rw e
        (gives i (record { word = stop (get_elem?-set_self buf i 0 inside); onward = omega arith }))
  skip_word-Cut (suc fuel) {buf} {i} (char {c = c} e n rest) h =
      let inside : i < length buf = omega (arith, Text-length {buf = buf} (char e n rest)) in
      rw e (
        Gives-elim_of (not (c == 0) && not (isspace c))
          (λ on. Gives-mono (skip_word-Cut fuel rest (omega (arith, h))) (λ end s. record {
            word =
                rw (word_on c on)
                  (char (get_elem?-set_ne buf 0 (ground (arith, s.onward)) ∙ e) n s.word);
            onward = omega (arith, s.onward);
          }))
          (λ ended. gives i (record {
            word = rw (word_end c n ended) (stop (get_elem?-set_self buf i 0 inside));
            onward = omega arith;
          })))

  -- Of a string inside its array, `strtrim` leaves the first word: it skips the spaces in front and
  -- cuts at the next one, so that what stood behind it is lost, and it does not leave the array.
  pub strtrim-Text :
      (s w : List ℕ) → Text s 0 w → Gives (λ r. Text r 0 (first_word isspace w)) (strtrim isspace s)
  unfolding strtrim
  strtrim-Text s w text =
      let long : length w < length s = omega (arith, Text-length text) in
      Gives-step _ (skip_spaces-Skipped (length s) text long) (λ t skipped.
        Gives-elim_of (t == 0)
          (λ z.
            let start : t ≡ 0 = ground (arith, z) in
            Gives-step _
              (skip_word-Cut (length s) skipped.rest
                (omega (arith, Text-length {buf = s} skipped.rest)))
              (λ end cut. gives (set s end 0) (rw start at cut.word)))
          (λ p.
            Gives-mono
              (move_word-Moved (length s) skipped.rest (ground (arith, p))
                (omega (arith, Text-length {buf = s} skipped.rest)))
              (λ r m. m.moved)))
