-- ===== src/Ata/Attributes.antt =====
-- The attributes of a SMART page, libscsicmd/src/ata.c, against the entries of the page.
use diskscan.Base.{
  ℕ, zero, suc, ◌+◌, ◌*◌, ◌≤◌, ◌<◌, ◌≡◌, ◌↔◌, refl, ap, ◌∙◌, sym, ◌==◌, ◌^◌, true, false, List, [],
  ◌∷◌, ◌++◌, length, some, get_elem?, get_or, get_elem?-get_or, set, min, arith, if◌then◌else◌,
  Bool-cases, inl, inr, length-set,
}
use mathlib.Core.List.{append_assoc, append-nil}
use diskscan.Ata.{
  SmartAttr, raw_value, read_attr, read_attrs, ata_parse_ata_smart_read_data, ata_checksum_verify,
}

-- The attribute that the twelve bytes at `at` describe, with a threshold from elsewhere.
abbrev pub entry : List ℕ → ℕ → ℕ → SmartAttr
entry buf at threshold =
    let byte = (λ (k : ℕ). get_or buf (at + k) 0) in
    record {
      id = get_or buf at 0;
      status = byte 1 + byte 2 * 2 ^ 8;
      value = byte 3;
      lowest = byte 4;
      threshold = threshold;
      raw = raw_value (byte 5) (byte 6) (byte 7) (byte 8) (byte 9) (byte 10);
    }

-- The attributes, in their order, of the n entries from i on that have an id. The page has no
-- thresholds; they are 0 here.
abbrev pub entries : ℕ → ℕ → List ℕ → List SmartAttr
entries zero i buf = []
entries (suc n) i buf =
    if get_or buf (2 + 12 * i) 0 == 0
    then entries n (i + 1) buf
    else entry buf (2 + 12 * i) 0 ∷ entries n (i + 1) buf

-- The first j of an array, without their thresholds.
abbrev pub stored : ℕ → List SmartAttr → List SmartAttr
stored zero attrs = []
stored (suc j) [] = []
stored (suc j) (a ∷ attrs) = record a { threshold = 0 } ∷ stored j attrs

read_attr-entry :
    (buf : List ℕ) (at : ℕ) (old : SmartAttr)
    → at + 11 ≤ length buf
    → read_attr buf at (get_or buf at 0) old ≡ some (entry buf at old.threshold)
unfolding read_attr
read_attr-entry buf at old h =
    rw
      (
        get_elem?-get_or buf (at + 1) 0 (omega arith),
        get_elem?-get_or buf (at + 2) 0 (omega arith),
        get_elem?-get_or buf (at + 3) 0 (omega arith),
        get_elem?-get_or buf (at + 4) 0 (omega arith),
        get_elem?-get_or buf (at + 5) 0 (omega arith),
        get_elem?-get_or buf (at + 6) 0 (omega arith),
        get_elem?-get_or buf (at + 7) 0 (omega arith),
        get_elem?-get_or buf (at + 8) 0 (omega arith),
        get_elem?-get_or buf (at + 9) 0 (omega arith),
        get_elem?-get_or buf (at + 10) 0 (omega arith),
      )
      refl

stored-set_at :
    (j : ℕ) (attrs : List SmartAttr) (a : SmartAttr) → stored j (set attrs j a) ≡ stored j attrs
stored-set_at zero attrs a = refl
stored-set_at (suc j) [] a = refl
stored-set_at (suc j) (b ∷ attrs) a = rw (stored-set_at j attrs a)

stored-set_next :
    (j : ℕ) (attrs : List SmartAttr) (a : SmartAttr)
    → j < length attrs
    → stored (suc j) (set attrs j a) ≡ stored j attrs ++ record a { threshold = 0 } ∷ []
stored-set_next j [] a h = absurd (omega arith)
stored-set_next zero (b ∷ attrs) a h = refl
stored-set_next (suc j) (b ∷ attrs) a h = rw (stored-set_next j attrs a (omega arith))

abbrev get_attr : List SmartAttr → ℕ → SmartAttr
get_attr [] j = record { id = 0; status = 0; value = 0; lowest = 0; threshold = 0; raw = 0 }
get_attr (a ∷ attrs) zero = a
get_attr (a ∷ attrs) (suc j) = get_attr attrs j

get_elem?-get_attr :
    (attrs : List SmartAttr) (j : ℕ)
    → j < length attrs
    → get_elem? attrs j ≡ some (get_attr attrs j)
get_elem?-get_attr [] j h = absurd (omega arith)
get_elem?-get_attr (a ∷ attrs) zero h = refl
get_elem?-get_attr (a ∷ attrs) (suc j) h = get_elem?-get_attr attrs j (omega arith)

-- What the loop leaves: the entries with an id, after the first j, in an array of the same length.
pub record Entered (n i : ℕ) (buf : List ℕ) (j : ℕ) (attrs : List SmartAttr) : Type 0 where
  pub count : ℕ
  pub array : List SmartAttr
  pub runs : read_attrs n i j buf attrs ≡ some (count, array)
  pub counted : count ≡ j + length (entries n i buf)
  pub same_length : length array ≡ length attrs
  pub kept : stored count array ≡ stored j attrs ++ entries n i buf

module _ (n i j : ℕ) (buf : List ℕ) (attrs : List SmartAttr) where
  skip-Entered :
      2 + 12 * (i + suc n) ≤ length buf
      → j + suc n ≤ length attrs
      → (get_or buf (2 + 12 * i) 0 == 0) ≡ true
      → Entered n (i + 1) buf j (set attrs j (record (get_attr attrs j) { id = 0 }))
      → Entered (suc n) i buf j attrs
  unfolding read_attrs
  skip-Entered h k e r = record {
    count = r.count;
    array = r.array;
    runs =
        rw
          (
            get_elem?-get_or buf (2 + 12 * i) 0 (omega arith),
            get_elem?-get_attr attrs j (omega arith),
            e,
          )
          r.runs;
    counted = rw e r.counted;
    same_length = r.same_length ∙ length-set attrs j _;
    kept = rw e (r.kept ∙ ap (λ t. t ++ entries n (i + 1) buf) (stored-set_at j attrs _));
  }

  keep-Entered :
      2 + 12 * (i + suc n) ≤ length buf
      → j + suc n ≤ length attrs
      → (get_or buf (2 + 12 * i) 0 == 0) ≡ false
      → Entered n
          (i + 1)
          buf
          (suc j)
          (set attrs j (entry buf (2 + 12 * i) (get_attr attrs j).threshold))
      → Entered (suc n) i buf j attrs
  unfolding read_attrs
  keep-Entered h k e r = record {
    count = r.count;
    array = r.array;
    runs =
        rw
          (
            get_elem?-get_or buf (2 + 12 * i) 0 (omega arith),
            get_elem?-get_attr attrs j (omega arith),
            e,
            read_attr-entry buf (2 + 12 * i) (get_attr attrs j) (omega arith),
            next,
          )
          r.runs;
    counted = rw e (r.counted ∙ omega arith);
    same_length = r.same_length ∙ length-set attrs j _;
    kept = rw e (
        r.kept
        ∙ ap (λ t. t ++ entries n (i + 1) buf) (stored-set_next j attrs _ (omega arith))
        ∙ append_assoc (stored j attrs) _ _);
  }
    where
      next : j + 1 ≡ suc j
      next = omega arith

read_attrs-Entered :
    (n i j : ℕ) (buf : List ℕ) (attrs : List SmartAttr)
    → 2 + 12 * (i + n) ≤ length buf
    → j + n ≤ length attrs
    → Entered n i buf j attrs
read_attrs-Entered zero i j buf attrs h k =
    unfold read_attrs in
    record {
      count = j;
      array = attrs;
      runs = refl;
      counted = omega arith;
      same_length = refl;
      kept = sym (append-nil (stored j attrs));
    }
read_attrs-Entered (suc n) i j buf attrs h k = elim (Bool-cases (get_or buf (2 + 12 * i) 0 == 0)) [
  | inl e ↦ skip-Entered n i j buf attrs h k e (
      read_attrs-Entered n (i + 1) j buf _ (omega arith)
        (omega (arith, length-set attrs j (record (get_attr attrs j) { id = 0 }))))
  | inr e ↦ keep-Entered n i j buf attrs h k e (
      read_attrs-Entered n (i + 1) (suc j) buf _ (omega arith)
        (omega (arith, length-set attrs j (entry buf (2 + 12 * i) (get_attr attrs j).threshold))))
]

-- On a page of 512 bytes whose checksum is right, and an array of max_attrs attributes, the parser
-- stores the attributes of those of the page's entries that have an id, in the order of the page,
-- and returns their number; it looks at the first max_attrs entries, 30 at most.
pub ata_parse_ata_smart_read_data_lem :
    (buf : List ℕ) (attrs : List SmartAttr) (max_attrs : ℕ)
    → length buf ≡ 512
    → max_attrs ≤ length attrs
    → ata_checksum_verify buf ≡ some true
    → (j : ℕ) × (attrs' : List SmartAttr) × (ata_parse_ata_smart_read_data buf attrs max_attrs
        ≡ some (some (j, attrs')))
      × (j ≡ length (entries (min 30 max_attrs) 0 buf))
      × (length attrs' ≡ length attrs)
      × (stored j attrs' ≡ entries (min 30 max_attrs) 0 buf)
unfolding ata_parse_ata_smart_read_data
ata_parse_ata_smart_read_data_lem buf attrs max_attrs e h c =
    let r = read_attrs-Entered (min 30 max_attrs) 0 0 buf attrs (omega arith) (omega arith) in
    (r.count, r.array, rw (c, r.runs) refl, r.counted ∙ omega arith, r.same_length, r.kept)

-- The raw value of six bytes is the number that they are in little-endian order exactly if the
-- fourth is below 128.
pub raw_value_lem :
    (b5 b6 b7 b8 b9 b10 : ℕ)
    → b5 < 2 ^ 8
    → b6 < 2 ^ 8
    → b7 < 2 ^ 8
    → b8 < 2 ^ 8
    → b9 < 2 ^ 8
    → b10 < 2 ^ 8
    → (raw_value b5 b6 b7 b8 b9 b10
        ≡ b5 + b6 * 2 ^ 8 + b7 * 2 ^ 16 + b8 * 2 ^ 24 + b9 * 2 ^ 32 + b10 * 2 ^ 40)
      ↔ (b8 < 128)
unfolding raw_value
raw_value_lem b5 b6 b7 b8 b9 b10 h5 h6 h7 h8 h9 h10 = (ground arith, ground arith)
