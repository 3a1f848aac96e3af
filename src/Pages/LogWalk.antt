-- ===== src/Pages/LogWalk.antt =====
-- What the walk over the parameters of a log page finds: libscsicmd/include/parse_log_sense.h and
-- libscsicmd/src/log_sense.c.
use diskscan.Base.{
  ℕ, zero, suc, ◌+◌, ◌*◌, ◌%◌, ◌^◌, ◌<◌, ◌≤◌, ◌≡◌, ◌≢◌, refl, false, Option, some, none, List,
  length, get_or, get_elem?-get_or, arith, ltb, ◌==◌, not, Gives, gives, Bool-cases, inl, inr, leb,
  leb→le, Gives-mono, ◌&&◌, Gives-if_of, Gives-elim_of, if◌then◌else◌, ◌>>=◌, bit,
}
use diskscan.Wire.{get_uint16}
use diskscan.Pages.Log.{
  log_sense_data_len, log_sense_is_valid, log_sense_subpage_format, log_sense_subpage_code,
  log_sense_param_len, log_sense_param_is_valid, log_sense_param_code, exceptions_at,
  find_exceptions, log_sense_page_informational_exceptions, InformationalExceptions,
  log_sense_page_code,
}

-- The parameter at p has its header and its data before the end of the page.
abbrev pub Fits : List ℕ → ℕ → ℕ → Type 0
Fits page page_len p = p + 4 + get_or page (p + 3) 0 ≤ page_len

-- The parameter at p is on the page, counted from the one at q: each that fits is followed by the
-- next.
pub data Follows (page : List ℕ) (page_len : ℕ) : ℕ → ℕ → Type 0 where
  here : (p : ℕ) → Follows page page_len p p
  next :
      {q p : ℕ}
      → Fits page page_len q
      → Follows page page_len (q + 4 + get_or page (q + 3) 0) p
      → Follows page page_len q p

abbrev pub code_of : List ℕ → ℕ → ℕ
code_of page p = get_or page p 0 * 2 ^ 8 + get_or page (p + 1) 0

-- What a walk from the parameter at q has found: the bytes of a parameter of code 0 that fits, or
-- that there is none.
pub data Found (page : List ℕ) (page_len q : ℕ) : Option InformationalExceptions → Type 0 where
  found :
      (p : ℕ) {r : InformationalExceptions}
      → Follows page page_len q p
      → Fits page page_len p
      → code_of page p ≡ 0
      → r.asc ≡ get_or page (p + 4) 0
      → r.ascq ≡ get_or page (p + 4 + 1) 0
      → r.temperature ≡ get_or page (p + 4 + 2) 0
      → Found page page_len q (some r)
  missing :
      ((p : ℕ) → Follows page page_len q p → Fits page page_len p → code_of page p ≢ 0)
      → Found page page_len q none

valid_lem :
    (page : List ℕ) (page_len p : ℕ)
    → page_len ≤ length page
    → log_sense_param_is_valid page page_len p ≡ some (leb (p + 4 + get_or page (p + 3) 0) page_len)
unfolding log_sense_param_is_valid log_sense_param_len
valid_lem page page_len p h = elim (Bool-cases (ltb page_len (p + 4))) [
  | inl short ↦ ground (arith, short)
  | inr long ↦
      let inside : p + 3 < length page = ground (arith, long) in
      rw (long, get_elem?-get_or page (p + 3) 0 inside) (ground (arith, long))
]

hit_here :
    (page : List ℕ) (page_len q : ℕ)
    → page_len + 3 ≤ length page
    → Fits page page_len q
    → code_of page q ≡ 0
    → Gives (Found page page_len q) (exceptions_at page (q + 4) >>= λ r. some (some r))
unfolding exceptions_at
hit_here page page_len q h fits zeroed =
    rw
      (
        get_elem?-get_or page (q + 4) 0 (omega arith),
        get_elem?-get_or page (q + 4 + 1) 0 (omega arith),
        get_elem?-get_or page (q + 4 + 2) 0 (omega arith),
      )
      (gives
        (some (record {
          asc = get_or page (q + 4) 0;
          ascq = get_or page (q + 4 + 1) 0;
          temperature = get_or page (q + 4 + 2) 0;
        }))
        (found q (here q) fits zeroed refl refl refl))

hit_next :
    {page : List ℕ} {page_len q : ℕ} {o : Option InformationalExceptions}
    → Fits page page_len q
    → code_of page q ≢ 0
    → Found page page_len (q + 4 + get_or page (q + 3) 0) o
    → Found page page_len q o
hit_next fits other (found p path at code a b c) = found p (next fits path) at code a b c
hit_next {page} {page_len} {q} fits other (missing none_after) =
    missing (after page page_len q other none_after)
  where
    after :
        (page : List ℕ) (page_len q : ℕ)
        → code_of page q ≢ 0
        → ((p : ℕ)
            → Follows page page_len (q + 4 + get_or page (q + 3) 0) p
            → Fits page page_len p
            → code_of page p ≢ 0)
        → (p : ℕ) → Follows page page_len q p
        → Fits page page_len p
        → code_of page p ≢ 0
    after page page_len q other none_after p (here _) fits = other
    after page page_len q other none_after p (next _ path) fits = none_after p path fits

no_hit :
    (page : List ℕ) (page_len q p : ℕ)
    → ¬ (Fits page page_len q)
    → Follows page page_len q p
    → Fits page page_len p
    → code_of page p ≢ 0
no_hit page page_len q p out (here _) fits = absurd (out fits)
no_hit page page_len q p out (next fits _) _ = absurd (out fits)

find_exceptions_lem :
    (fuel : ℕ) (page : List ℕ) (page_len q : ℕ)
    → page_len + 3 ≤ length page
    → 0 < fuel
    → page_len < q + fuel
    → Gives (Found page page_len q) (find_exceptions fuel page page_len q)
unfolding find_exceptions log_sense_param_code log_sense_param_len get_uint16
find_exceptions_lem zero page page_len q h h0 hf = absurd (omega arith)
find_exceptions_lem (suc fuel) page page_len q h h0 hf =
    rw (valid_lem page page_len q (omega arith)) (
      Gives-elim_of (leb (q + 4 + get_or page (q + 3) 0) page_len)
        (λ e.
          let fits : Fits page page_len q = leb→le _ _ e in
          rw
            (get_elem?-get_or page q 0 (omega arith), get_elem?-get_or page (q + 1) 0 (omega arith))
            (Gives-elim_of (get_or page q 0 * 2 ^ 8 + get_or page (q + 1) 0 == 0)
              (λ z. hit_here page page_len q h fits (ground (arith, z)))
              (λ z. rw (get_elem?-get_or page (q + 3) 0 (omega arith)) (
                Gives-mono (find_exceptions_lem fuel page page_len _ h (omega arith) (omega arith))
                  (λ o w. hit_next fits (ground (arith, z)) w)))))
        (λ e. gives none (missing (λ p. no_hit page page_len q p (ground (arith, e))))))

-- A page of informational exceptions that claims at least the bytes it has.
abbrev pub ExceptionsPage : List ℕ → ℕ → Type 0
ExceptionsPage page page_len =
    (4 ≤ page_len)
    × (page_len ≤ code_of page 2 + 4)
    × (get_or page 0 0 % 2 ^ 6 ≡ 0x2F)
    × (get_or page 1 0 ≡ 0)

pub data Reported (page : List ℕ) (page_len : ℕ) : Option InformationalExceptions → Type 0 where
  rejected : ¬ (ExceptionsPage page page_len) → Reported page page_len none
  walked :
      {r : Option InformationalExceptions}
      → ExceptionsPage page page_len
      → Found page page_len 4 r
      → Reported page page_len r

-- The tests on the header, on its format bit and its bytes.
header_branches :
    (page : List ℕ) (page_len : ℕ) {o : Option (Option InformationalExceptions)}
    → 4 ≤ page_len
    → (ExceptionsPage page page_len → Gives (Reported page page_len) o)
    → let format = bit (get_or page 0 0) 6 in
      let sub = not (get_or page 1 0 == 0) in
      Gives (Reported page page_len) (
        if not (if not format && sub then false else not (ltb (code_of page 2 + 4) page_len))
        then some none
        else if not (get_or page 0 0 % 2 ^ 6 == 0x2F)
        then some none
        else if format && sub
        then some none
        else o)
header_branches page page_len h k =
    let format = bit (get_or page 0 0) 6 in
    let sub = not (get_or page 1 0 == 0) in
    Gives-if_of (not (if not format && sub then false else not (ltb (code_of page 2 + 4) page_len)))
      (λ e. gives none (rejected (λ (a, b, c, d). ground (arith, e, b, d))))
      (λ e1.
        Gives-if_of (not (get_or page 0 0 % 2 ^ 6 == 0x2F))
          (λ e. gives none (rejected (λ (a, b, c, d). ground (arith, e, c))))
          (λ e2.
            Gives-if_of (format && sub)
              (λ e. gives none (rejected (λ (a, b, c, d). ground (arith, e, d))))
              (λ e3. k (h, ground (arith, e1), ground (arith, e2), ground (arith, e1, e3)))))

-- On a buffer three bytes longer than the page, the function returns without leaving the buffer. It
-- reports the data of a parameter of code 0 that fits on the page where the page is one of
-- informational exceptions and has such a parameter, and nothing exactly where there is none.
pub log_sense_page_informational_exceptions-Reported :
    (page : List ℕ) (page_len : ℕ)
    → page_len + 3 ≤ length page
    → Gives (Reported page page_len) (log_sense_page_informational_exceptions page page_len)
unfolding log_sense_page_informational_exceptions log_sense_is_valid log_sense_page_code
    log_sense_subpage_format log_sense_subpage_code log_sense_data_len get_uint16
log_sense_page_informational_exceptions-Reported page page_len h =
    elim (Bool-cases (ltb page_len 4)) [
      | inl short ↦ rw short (gives none (rejected (λ p. ground (arith, short, p.0))))
      | inr long ↦
          rw
            (
              long,
              get_elem?-get_or page 0 0 (ground (arith, long)),
              get_elem?-get_or page 1 0 (ground (arith, long)),
              get_elem?-get_or page 2 0 (ground (arith, long)),
              get_elem?-get_or page 3 0 (ground (arith, long)),
            )
            (header_branches page page_len (ground (arith, long)) (λ header.
              Gives-mono
                (find_exceptions_lem (page_len + 1) page page_len 4 h (omega arith) (omega arith))
                (λ r w. walked header w)))
    ]
