-- ===== src/Tests/Files.antt =====
-- The logs and the command line at concrete values.
use diskscan.Base.{
  ℕ, ◌-◌, ◌/◌, ◌<◌, ◌≡◌, ◌↔◌, refl, ◌==◌, Bool, true, false, some, List, [], ◌∷◌, ◌++◌, take, map,
  length, arith, codes,
}
use diskscan.Sense.Info.{zero_info}
use diskscan.Device.Types.{data_full, data_none, error_none, error_uncorrected}
use diskscan.Scan.Types.{LogEvent, Latency, scan_mode_random}
use diskscan.Scan.Part
use diskscan.Report.Hex.{buf_to_hex}
use diskscan.Report.HexLaws.{Bytes, unhex, unhex-buf_to_hex}
use diskscan.Report.Json.{DiskInfo, data_log_event, add_indent}
use diskscan.Report.Writer
use diskscan.Report.Writer.{TextLog}
use diskscan.Report.Listing.{Shows, shown, joined, feed, raw_head, logs-Shows, raw_file-eq}
use diskscan.Cli.Options.{
  Number, suffix_factor, str_to_scan_size, str_to_scan_mode, Opt, opt_fix, opt_scan, opt_size,
  Options, mode_or_seq, parse_opt, parse_opts, check_args, parse_args, default_options,
}
use diskscan.Cli.Graph.{heights, height_interval, mark}
use diskscan.Cli.Column.{Stacked, column-marks}
use diskscan.Cli.Accepted.{Accepted, parse_args-Accepted}

-- A number is written as one character.
abbrev one_digit : ℕ → ℕ → List ℕ
one_digit width n = n ∷ []

abbrev slow : LogEvent
slow = record {
  lba = 8;
  len = 2;
  io_res = record { result = data_full; error = error_none; info = zero_info; sense = [] };
  t_nsec = 2_000_000_000;
}

abbrev broken : LogEvent
broken = record slow {
  io_res = record {
    result = data_none;
    error = error_uncorrected;
    info = zero_info;
    sense = 0x70 ∷ [];
  };
}

abbrev listed : TextLog
listed = record { text = [] ++ data_log_event one_digit 2 slow; is_first = false }

abbrev listed_too : TextLog
listed_too = record { text = [] ++ data_log_event one_digit 3 slow; is_first = false }

logs-Shows_example :
    Shows one_digit 2 []
      (Part.data_log_raw (some (slow ∷ [])) 8 2 broken.io_res 2_000_000_000)
      (Writer.data_log_raw one_digit (some listed) broken)
    × Shows one_digit 3 []
        (Part.data_log (some (slow ∷ [])) 8 2 broken.io_res 2_000_000_000)
        (Writer.data_log one_digit (some listed_too) broken)
logs-Shows_example = logs-Shows one_digit broken (shown refl refl) (shown refl refl)

abbrev some_disk : DiskInfo
some_disk = record {
  vendor = codes "WDC";
  model = codes "WD10EZEX";
  fw_rev = codes "1A01";
  serial = codes "0001";
  num_bytes = 4096;
  sector_size = 512;
  is_ata = false;
  ata_buf = [];
  ata_buf_len = 0;
}

raw_file-eq_example :
    Writer.data_log_raw_end one_digit
      (feed one_digit (Writer.data_log_raw_start one_digit true some_disk) (slow ∷ broken ∷ []))
    ≡ some (
        raw_head one_digit some_disk
        ++ joined (map (data_log_event one_digit 2) (slow ∷ broken ∷ []))
        ++ (codes "\n" ++ add_indent 1 ++ codes "]\n" ++ codes "}\n"))
raw_file-eq_example = raw_file-eq one_digit some_disk (slow ∷ broken ∷ [])

unhex-buf_to_hex_example :
    (unhex (buf_to_hex (0xAB ∷ 0x07 ∷ 0xFF ∷ []) 6) ≡ take ((6 - 1) / 2) (0xAB ∷ 0x07 ∷ 0xFF ∷ []))
    × (length (buf_to_hex (0xAB ∷ 0x07 ∷ 0xFF ∷ []) 6) < 6)
unhex-buf_to_hex_example =
    unhex-buf_to_hex (0xAB ∷ 0x07 ∷ 0xFF ∷ []) 6
      (Bytes.more (omega arith) (Bytes.more (omega arith) (Bytes.more (omega arith) Bytes.none)))
      (omega arith)

-- `strtol` finds 128 and the text "k"; texts are compared by their lengths.
abbrev number : List ℕ → Number
number str = record { val = 128; failed = false; rest = codes "k" }

abbrev same_length : List ℕ → List ℕ → Bool
same_length s t = length s == length t

abbrev given : List Opt
given = opt_fix ∷ opt_size (codes "128k") ∷ opt_scan (codes "random") ∷ []

abbrev chosen : Options
chosen = record default_options {
  disk_path = codes "/dev/sda";
  fix = true;
  mode = scan_mode_random;
  scan_size = 131072;
}

chosen_runs :
    parse_args number same_length given (codes "/dev/sda" ∷ []) default_options ≡ some chosen
unfolding parse_args check_args parse_opts parse_opt mode_or_seq str_to_scan_mode str_to_scan_size
    suffix_factor
chosen_runs = refl

parse_args-Accepted_example : Accepted number same_length given (codes "/dev/sda" ∷ []) chosen
parse_args-Accepted_example =
    parse_args-Accepted number same_length given (codes "/dev/sda" ∷ []) chosen_runs

abbrev column : Latency
column = record {
  start_sector = 0;
  end_sector = 100;
  latency_min_msec = 2;
  latency_max_msec = 300;
  latency_median_msec = 5;
}

column-marks_example :
    let h = heights (height_interval (column ∷ [])) column in
    Stacked h
    × ((mark h 2 ≡ 94) ↔ (2 ≡ h.max_height))
    × ((mark h 2 ≡ 42) ↔ (2 ≡ h.med_height))
    × ((mark h 2 ≡ 95) ↔ (2 ≡ h.min_height))
column-marks_example = column-marks (column ∷ []) column 2 (omega arith) (omega arith) (omega arith)
