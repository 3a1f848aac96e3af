-- ===== src/Inquiry/Fields.antt =====
-- What `parse_inquiry` of libscsicmd/src/parse_inquiry.c puts into its strings.
use diskscan.Base.{
  ℕ, zero, suc, ◌+◌, ◌^◌, ◌%◌, ◌<◌, ◌≤◌, ◌≡◌, ◌∙◌, refl, Bool, true, false, ◌&&◌, ◌==◌, leb, ltb,
  some, List, [], ◌∷◌, length, get_elem?, set, get_elem?-set_ne, get_elem?-set_self, length-set,
  get_or, get_elem?-get_or, arith, Gives, gives, Gives-mono, Gives-step, Gives-elim_of, ◌>>=◌, take,
  drop, drop-lt, if◌then◌else◌,
}
use diskscan.Inquiry.{zero_fill, strncpy, copy_field, Inquiry, parse_inquiry}
use diskscan.Inquiry.Text.{Text, stop, char}

-- The characters before the first zero.
abbrev pub until_zero : List ℕ → List ℕ
until_zero [] = []
until_zero (c ∷ w) = let rest = until_zero w in if c == 0 then [] else c ∷ rest

-- r is s but for n characters from `to` on.
record Filled (s : List ℕ) (to : ℕ) (r : List ℕ) : Type 0 where
  size : length r ≡ length s
  below : (j : ℕ) → j < to → get_elem? r j ≡ get_elem? s j

Filled-set :
    {s : List ℕ} {to : ℕ} (v : ℕ) {r : List ℕ} → Filled (set s to v) (to + 1) r → Filled s to r
Filled-set {s} {to} v f = record {
  size = f.size ∙ length-set s to v;
  below = λ j h. f.below j (omega (arith, h)) ∙ get_elem?-set_ne s v (ground (arith, h));
}

zero_fill-Filled :
    (n : ℕ) (s : List ℕ) (to : ℕ)
    → to + n ≤ length s
    → Gives (λ r. Filled s to r × (0 < n → get_elem? r to ≡ some 0)) (zero_fill n s to)
unfolding zero_fill
zero_fill-Filled zero s to h =
    gives s (record { size = refl; below = λ j lt. refl }, λ lt. absurd (omega (arith, lt)))
zero_fill-Filled (suc n) s to h =
    let size = length-set s to 0 in
    rw (get_elem?-get_or s to 0 (omega arith)) (
      Gives-mono (zero_fill-Filled n (set s to 0) (to + 1) (omega (arith, size))) (λ r (f, _).
        (Filled-set 0 f, λ lt. f.below to (omega arith) ∙ get_elem?-set_self s to 0 (omega arith))))

strncpy-Filled :
    (n : ℕ) (buf : List ℕ) (src : ℕ) (s : List ℕ) (to : ℕ)
    → src + n ≤ length buf
    → to + n < length s
    → Gives
        (λ r. Filled s to r × Text (set r (to + n) 0) to (until_zero (take n (drop src buf))))
        (strncpy n buf src s to)
unfolding strncpy
strncpy-Filled zero buf src s to hb hs =
    let e : to + 0 ≡ to = omega arith in
    gives s (
      record { size = refl; below = λ j lt. refl },
      rw e (stop (get_elem?-set_self s to 0 (omega arith))),
    )
strncpy-Filled (suc n) buf src s to hb hs =
    let c = get_or buf src 0 in
    let next : src + 1 ≡ suc src = omega arith in
    let last : to + suc n ≡ to + 1 + n = omega arith in
    rw
      (
        drop-lt buf src 0 (omega arith),
        get_elem?-get_or buf src 0 (omega arith),
        get_elem?-get_or s to 0 (omega arith),
      )
      (Gives-elim_of (c == 0)
        (λ z. Gives-mono (zero_fill-Filled (suc n) s to (omega arith)) (λ r (f, first).
          (f, rw z (stop (get_elem?-set_ne r 0 (ground arith) ∙ first (omega arith))))))
        (λ nz.
          let size = length-set s to c in
          Gives-mono
            (strncpy-Filled n buf (src + 1) (set s to c) (to + 1) (omega arith)
              (omega (arith, size)))
            (λ r (f, text). (
              Filled-set c f,
              rw (nz, last)
                  (char
                    (get_elem?-set_ne r 0 (ground arith)
                      ∙ f.below to (omega arith)
                      ∙ get_elem?-set_self s to c (omega arith))
                    (ground (arith, nz)) (rw next at text)),
            ))))

copy_field-Text :
    (n : ℕ) (buf : List ℕ) (src : ℕ) (s : List ℕ)
    → src + n ≤ length buf
    → n < length s
    → Gives (λ r. Text r 0 (until_zero (take n (drop src buf)))) (copy_field n buf src s)
unfolding copy_field
copy_field-Text n buf src s hb hs =
    let e : 0 + n ≡ n = omega arith in
    Gives-step (λ copied. get_elem? copied n >>= λ old. some (set copied n 0))
      (strncpy-Filled n buf src s 0 hb (omega arith))
      (λ copied (f, text).
        rw (get_elem?-get_or copied n 0 (omega (arith, f.size)))
          (gives (set copied n 0) (rw e at text)))

-- The text of a field that is there or not.
abbrev pub field : Bool → ℕ → List ℕ → ℕ → List ℕ
field present n buf src = if present then until_zero (take n (drop src buf)) else []

optional_field :
    (present : Bool) (n : ℕ) (buf : List ℕ) (src : ℕ) (s : List ℕ)
    → src + n ≤ length buf
    → n < length s
    → Gives
        (λ r. Text r 0 (field present n buf src))
        (if present then copy_field n buf src (set s 0 0) else some (set s 0 0))
optional_field true n buf src s hb hs =
    copy_field-Text n buf src (set s 0 0) hb (omega (arith, length-set s 0 0))
optional_field false n buf src s hb hs =
    gives (set s 0 0) (stop (get_elem?-set_self s 0 0 (omega arith)))

-- The arrays that a caller passes have room for the fields and a zero.
pub record Room (out : Inquiry) : Type 0 where
  pub vendor : 8 < length out.vendor
  pub model : 16 < length out.model
  pub revision : 4 < length out.revision
  pub serial : 8 < length out.serial

-- The names that the bytes of an answer give; byte 4 says how long the answer is.
pub record Named (buf : List ℕ) (r : Inquiry) : Type 0 where
  pub device_type : r.device_type ≡ get_or buf 0 0 % 2 ^ 5
  pub vendor : Text r.vendor 0 (field (leb 16 (get_or buf 4 0 + 4)) 8 buf 8)
  pub model : Text r.model 0 (field (leb 32 (get_or buf 4 0 + 4)) 16 buf 16)
  pub revision : Text r.revision 0 (field (leb 36 (get_or buf 4 0 + 4)) 4 buf 32)
  pub serial :
      Text r.serial 0
        (field (leb 44 (get_or buf 4 0 + 4) && (get_or buf 3 0 % 2 ^ 4 == 2)) 8 buf 36)

-- An answer of 32 bytes or more, in an array of 44, gives true and the names of its fields, each up
-- to its first zero and empty where the answer says that it is too short for it; nothing is read or
-- written outside the arrays.
pub parse_inquiry-Named :
    (buf : List ℕ) (buf_len : ℕ) (out : Inquiry)
    → 32 ≤ buf_len
    → 44 ≤ length buf
    → Room out
    → Gives (λ (ok, r). (ok ≡ true) × Named buf r) (parse_inquiry buf buf_len out)
unfolding parse_inquiry
parse_inquiry-Named buf buf_len out h hb room =
    let long : ltb buf_len 32 ≡ false = ground arith in
    let valid_len = get_or buf 4 0 + 4 in
    rw
      (
        long,
        get_elem?-get_or buf 3 0 (omega arith),
        get_elem?-get_or buf 4 0 (omega arith),
        get_elem?-get_or buf 0 0 (omega arith),
      )
      (Gives-step _ (optional_field (leb 16 valid_len) 8 buf 8 out.vendor (omega arith) room.vendor)
        (λ vendor v.
          Gives-step _
            (optional_field (leb 32 valid_len) 16 buf 16 out.model (omega arith) room.model)
            (λ model m.
              Gives-step _
                (optional_field (leb 36 valid_len) 4 buf 32 out.revision (omega arith)
                  room.revision)
                (λ revision r.
                  Gives-step _
                    (optional_field (leb 44 valid_len && (get_or buf 3 0 % 2 ^ 4 == 2)) 8 buf 36
                      out.serial (omega arith) room.serial)
                    (λ serial s. gives _ (
                      refl,
                      record {
                        device_type = refl;
                        vendor = v;
                        model = m;
                        revision = r;
                        serial = s;
                      },
                    ))))))
