-- ===== src/SystemId/Names.antt =====
-- What `system_identifier_read` of lib/system_id.c leaves.
use diskscan.Base.{
  ℕ, zero, suc, ◌+◌, ◌≤◌, ◌≡◌, refl, sym, ap, ◌∙◌, Bool, true, false, not, Option, some, none, List,
  [], ◌∷◌, ◌++◌, length, take, drop, if◌then◌else◌, ◌>>=◌, arith, codes, replicate, length-append,
  length-drop, length-set, Gives, gives, Gives-step,
}
use diskscan.Cdb.{zero_bytes}
use diskscan.SystemId.{
  line, store, strlen, chop_end, sha1_calc, cmd_str, dmidecode_read, os_read, print_digest,
}
use diskscan.SystemId.Texts.{
  Holds, Printed, hex_text, chomp, rstrip, strlen-Printed, line-Printed, length-line, take-append,
  chop_end-Holds, trim_end-Holds, print_digest_start,
}

-- The line that is seen of what a command prints.
abbrev pub shown : Option (List ℕ) → List ℕ
shown none = []
shown (some out) = line 63 out

abbrev pub AllPrinted : Option (List ℕ) → Type 0
AllPrinted none = Unit {0}
AllPrinted (some out) = Printed out

-- The flag of `cmd_str` for a line.
abbrev any : List ℕ → Bool
any [] = false
any (c ∷ w) = true

pub zero_bytes-replicate :
    (n : ℕ) (buf : List ℕ) → length buf ≡ n → zero_bytes buf 0 n ≡ replicate n 0
unfolding zero_bytes
zero_bytes-replicate zero [] e = refl
zero_bytes-replicate zero (c ∷ buf) e = absurd (omega arith)
zero_bytes-replicate (suc n) [] e = absurd (omega arith)
zero_bytes-replicate (suc n) (c ∷ buf) e =
    ap (λ s. 0 ∷ s) (zero_bytes-replicate n buf (omega arith))

shown-Printed : (o : Option (List ℕ)) → AllPrinted o → Printed (shown o)
shown-Printed none p = tt
shown-Printed (some out) p = line-Printed 63 out p

chop_end-length :
    (buf : List ℕ) (n : ℕ) {b : List ℕ} {m : ℕ}
    → chop_end buf n ≡ some (b, m)
    → length b ≡ length buf
unfolding chop_end
chop_end-length buf zero e = cc
chop_end-length buf (suc n) e = ground (arith, e, length-set buf n 0)

store-text :
    (w buf : List ℕ)
    → length w + 1 ≤ length buf
    → store w buf ≡ some (w ++ 0 ∷ drop (length w + 1) buf)
unfolding store
store-text w buf h = ground arith

length-stored :
    (w buf : List ℕ)
    → length w + 1 ≤ length buf
    → length (w ++ 0 ∷ drop (length w + 1) buf) ≡ length buf
length-stored w buf h =
    omega
      (arith, length-append {A = ℕ} w (0 ∷ drop (length w + 1) buf), length-drop (length w + 1) buf)

-- A line that was read has a character.
any-line : (n c : ℕ) (s : List ℕ) → true ≡ any (line (suc n) (c ∷ s))
unfolding line
any-line n c s = ground arith

module _ (sha1 : List ℕ → List ℕ) (run : List ℕ → Option (List ℕ)) where
  -- The array holds the line, and the flag says whether there is one.
  cmd_str-Holds :
      (cmd buf : List ℕ) (o : Option (List ℕ))
      → run cmd ≡ o
      → length buf ≡ 64
      → Holds buf []
      → Gives
          (λ r. (r.0 ≡ any (shown o)) × (length r.1 ≡ 64) × Holds r.1 (shown o))
          (cmd_str sha1 run cmd buf 64)
  unfolding cmd_str line
  cmd_str-Holds cmd buf none e size h = rw (e, cmd_str) (gives _ (refl, size, h))
  cmd_str-Holds cmd buf (some []) e size h = rw (e, cmd_str) (gives _ (refl, size, h))
  cmd_str-Holds cmd buf (some (c ∷ out)) e size h =
      let w = line 63 (c ∷ out) in
      let short : length w ≤ 63 = length-line 63 (c ∷ out) in
      rw (e, cmd_str, store-text w buf (omega arith))
        (gives _ (any-line 62 c out, omega (arith, length-stored w buf), (_, refl)))

  -- The hash of a line, in digits.
  abbrev pub digest_text : List ℕ → List ℕ
  digest_text [] = []
  digest_text (c ∷ w) = hex_text (sha1 (chomp (c ∷ w)))

  module _ (hash : (s : List ℕ) → length (sha1 s) ≡ 20) where
    pub sha1_calc-Holds :
        (src out : List ℕ)
        → length out ≡ 64
        → Gives (λ o. Holds o (hex_text (sha1 src))) (sha1_calc sha1 run src out 64)
    unfolding sha1_calc
    sha1_calc-Holds src out size = digits (sha1 src) (hash src)
      where
        digits :
            (d : List ℕ) → length d ≡ 20 → Gives (λ o. Holds o (hex_text d)) (print_digest d 0 out)
        digits [] e = absurd (omega arith)
        digits (b ∷ bs) e = print_digest_start b bs out (omega arith)

    -- The line is cut, hashed and printed over itself.
    hash_line :
        (w t : List ℕ) (n : ℕ)
        → length w ≡ suc n
        → length (w ++ 0 ∷ t) ≡ 64
        → Gives
            (λ o. Holds o (hex_text (sha1 (chomp w))))
            (chop_end (w ++ 0 ∷ t) (suc n) >>= λ (b2, actual_len).
              sha1_calc sha1 run (take actual_len b2) b2 64)
    hash_line w t n e size =
        let (t', runs) = chop_end-Holds n w t e in
        rw (runs, take-append (chomp w) (0 ∷ t'))
          (sha1_calc-Holds (chomp w) _ (chop_end-length (w ++ 0 ∷ t) (suc n) runs ∙ size))

    -- What follows the line.
    after_line :
        (w t : List ℕ)
        → Printed w
        → length (w ++ 0 ∷ t) ≡ 64
        → Gives
            (λ o. Holds o (digest_text w))
            (if not (any w)
              then some (w ++ 0 ∷ t)
              else (strlen (w ++ 0 ∷ t) >>= λ n. chop_end (w ++ 0 ∷ t) n >>= λ (b2, actual_len).
                  sha1_calc sha1 run (take actual_len b2) b2 64))
    after_line [] t p size = gives _ (t, refl)
    after_line (c ∷ w) t p size =
        rw (strlen-Printed (c ∷ w) t p) (hash_line (c ∷ w) t (length w) refl size)

    -- The field is the hash of the line that dmidecode prints, and empty if it prints nothing.
    pub dmidecode_read-Holds :
        (field buf : List ℕ)
        → length buf ≡ 64
        → AllPrinted (run (codes "dmidecode -s " ++ field))
        → Gives
            (λ o. Holds o (digest_text (shown (run (codes "dmidecode -s " ++ field)))))
            (dmidecode_read sha1 run field buf 64)
    unfolding dmidecode_read
    dmidecode_read-Holds field buf size p =
        let cmd = codes "dmidecode -s " ++ field in
        rw (zero_bytes-replicate 64 buf size) (
          Gives-step _ (cmd_str-Holds cmd (replicate 64 0) (run cmd) refl refl (_, refl)) λ r q.
            let (f, len, (t, e)) = q in
            rw (f, e)
              (after_line (shown (run cmd)) t (shown-Printed (run cmd) p)
                (ap length (sym e) ∙ len)))

  -- The array is the line without the spaces at its end.
  pub os_read-Holds :
      (isspace : ℕ → Bool) (buf : List ℕ)
      → length buf ≡ 64
      → Holds buf []
      → AllPrinted (run (codes "uname -o"))
      → Gives
          (λ o. Holds o (rstrip isspace (shown (run (codes "uname -o")))))
          (os_read sha1 run isspace buf 64)
  unfolding os_read
  os_read-Holds isspace buf size h p =
      let cmd = codes "uname -o" in
      Gives-step _ (cmd_str-Holds cmd buf (run cmd) refl size h) λ r q.
        let (f, len, (t, e)) = q in
        let w = shown (run cmd) in
        rw (e, strlen-Printed w t (shown-Printed (run cmd) p))
          (trim_end-Holds isspace (length w) w t refl)
