-- ===== src/Tests/Names.antt =====
-- Log, mode and diagnostic pages, and the names of a disk, at concrete bytes.
use diskscan.Base.{
  ℕ, ◌-◌, ◌≡◌, refl, ◌==◌, Bool, true, some, none, List, [], ◌∷◌, ◌++◌, replicate, take, drop,
  arith, Gives, codes,
}
use diskscan.Wire.{get_uint16}
use diskscan.Pages.Log.{
  log_sense_data_len, log_sense_is_valid, log_sense_subpage_format, log_sense_subpage_code,
  supported_pages, log_sense_page_informational_exceptions,
}
use diskscan.Pages.Supported.{supported_pages-eq}
use diskscan.Pages.LogWalk.{Reported, log_sense_page_informational_exceptions-Reported}
use diskscan.Pages.Mode.{mode_pages}
use diskscan.Pages.ModeWalk.{page, ended, mode_pages-overrun}
use diskscan.Inquiry.{strtrim, Inquiry, parse_inquiry}
use diskscan.Inquiry.Text.{Text, stop, char, first_word}
use diskscan.Inquiry.Trim.{strtrim-Text}
use diskscan.Inquiry.Fields.{Named, parse_inquiry-Named}

-- Eight supported pages.
abbrev page_list : List ℕ
page_list = 0 ∷ 0 ∷ 0 ∷ 8 ∷ 0 ∷ 2 ∷ 3 ∷ 5 ∷ 6 ∷ 0x0D ∷ 0x0E ∷ 0x2F ∷ []

supported_pages-eq_example :
    supported_pages page_list 12 ≡ some (take (12 - 4 - 4) (drop 4 page_list))
unfolding log_sense_is_valid log_sense_data_len log_sense_subpage_format log_sense_subpage_code
    get_uint16
supported_pages-eq_example =
    supported_pages-eq page_list 12 refl (omega arith) (omega arith) (omega arith) refl

-- A page of eleven bytes in an array of fourteen.
abbrev exceptions_page : List ℕ
exceptions_page = 0x2F ∷ 0 ∷ 0 ∷ 7 ∷ 0 ∷ 0 ∷ 3 ∷ 3 ∷ 0x5D ∷ 0x10 ∷ 40 ∷ 0 ∷ 0 ∷ 0 ∷ []

log_sense_page_informational_exceptions-Reported_example :
    Gives (Reported exceptions_page 11) (log_sense_page_informational_exceptions exceptions_page 11)
log_sense_page_informational_exceptions-Reported_example =
    log_sense_page_informational_exceptions-Reported exceptions_page 11 (omega arith)

-- A header of four bytes and one page.
abbrev mode_data : List ℕ
mode_data = 7 ∷ 0 ∷ 0 ∷ 0 ∷ 1 ∷ 2 ∷ 0 ∷ 0 ∷ []

mode_pages-overrun_example : mode_pages 100 mode_data 8 4 (8 - 4) ≡ none
mode_pages-overrun_example =
    mode_pages-overrun 100 mode_data 4 (omega arith) (omega arith) (omega arith)
      (page (omega arith) (ground arith) (omega arith) ended)

abbrev is_blank : ℕ → Bool
is_blank c = c == 32

abbrev padded : List ℕ
padded = 32 ∷ 65 ∷ 66 ∷ 32 ∷ 67 ∷ 0 ∷ []

strtrim-Text_example :
    Gives
      (λ r. Text r 0 (first_word is_blank (32 ∷ 65 ∷ 66 ∷ 32 ∷ 67 ∷ [])))
      (strtrim is_blank padded)
strtrim-Text_example = strtrim-Text is_blank padded (32 ∷ 65 ∷ 66 ∷ 32 ∷ 67 ∷ []) (
    char refl (ground arith) (
      char refl (ground arith) (
        char refl (ground arith)
          (char refl (ground arith) (char refl (ground arith) (stop refl))))))

abbrev answer : List ℕ
answer =
    0 ∷ 0 ∷ 5 ∷ 2 ∷ 32 ∷ 0 ∷ 0 ∷ 0 ∷ codes "ATA     "
    ++ codes "WDC WD10EZEX-00W"
    ++ codes "1A01"
    ++ replicate 8 0

abbrev empty_names : Inquiry
empty_names = record {
  device_type = 0;
  vendor = replicate 64 0;
  model = replicate 64 0;
  revision = replicate 64 0;
  serial = replicate 64 0;
}

parse_inquiry-Named_example :
    Gives (λ (ok, r). (ok ≡ true) × Named answer r) (parse_inquiry answer 36 empty_names)
parse_inquiry-Named_example =
    parse_inquiry-Named answer 36 empty_names (omega arith) (omega arith) (record {
      vendor = omega arith;
      model = omega arith;
      revision = omega arith;
      serial = omega arith;
    })
