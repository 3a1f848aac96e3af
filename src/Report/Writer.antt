-- ===== src/Report/Writer.antt =====
-- The two logs of lib/data.c as files. A log is `none` where its file is not open; the outer `none`
-- of `data_log_raw_end` is its use of a file that is not.
use diskscan.Base.{
  ℕ, Bool, true, false, ◌||◌, not, Option, some, none, List, [], ◌++◌, ◌*◌, ltb, if◌then◌else◌,
  codes,
}
use diskscan.Scan.Types.{LogEvent, Latency}
use diskscan.Scan.Part.{has_error}
use diskscan.Report.Json.{
  add_indent, quoted, SystemIdentifier, system_id_output, DiskInfo, disk_output, data_log_event,
  latency_output,
}

pub record TextLog : Type 0 where
  pub text : List ℕ
  pub is_first : Bool

module _ (dec : ℕ → ℕ → List ℕ) where
  -- The separator of an entry and the entry, in both logs.
  unfoldable pub append_event : ℕ → TextLog → LogEvent → TextLog
  append_event indent log e = record {
    text =
        log.text ++ ((if not log.is_first then codes ",\n" else []) ++ data_log_event dec indent e);
    is_first = false;
  }

  -- `opened` says whether `fopen` gave a file.
  unfoldable pub data_log_raw_start : Bool → DiskInfo → Option TextLog
  data_log_raw_start opened disk =
      if not opened
      then none
      else some (record {
        text =
            codes "{\n"
            ++ add_indent 1
            ++ codes "\"Disk\": "
            ++ disk_output dec disk 2
            ++ codes ",\n"
            ++ add_indent 1
            ++ codes "\"Raw\": [\n";
        is_first = true;
      })

  unfoldable pub data_log_raw_end : Option TextLog → Option (List ℕ)
  data_log_raw_end none = none
  data_log_raw_end (some log) =
      some (log.text ++ (codes "\n" ++ add_indent 1 ++ codes "]\n" ++ codes "}\n"))

  unfoldable pub data_log_raw : Option TextLog → LogEvent → Option TextLog
  data_log_raw none e = none
  data_log_raw (some log) e = some (append_event 2 log e)

  unfoldable pub time_output : List ℕ → List ℕ → List ℕ
  time_output name now = quoted name now

  unfoldable pub data_log_start :
      Bool → DiskInfo → Option SystemIdentifier → List ℕ → Option TextLog
  data_log_start opened disk system_id now =
      if not opened
      then none
      else some (record {
        text =
            codes "{\n"
            ++ add_indent 1
            ++ codes "\"Disk\": "
            ++ disk_output dec disk 2
            ++ codes ",\n"
            ++ add_indent 1
            ++ codes "\"Machine\": "
            ++ system_id_output system_id
            ++ codes ",\n"
            ++ add_indent 1
            ++ codes "\"Scan\": {\n"
            ++ add_indent 2
            ++ time_output (codes "StartTime") now
            ++ codes ",\n"
            ++ add_indent 2
            ++ codes "\"Events\": [\n";
        is_first = true;
      })

  unfoldable pub histogram_output : List ℕ → ℕ → List ℕ
  histogram_output encoded_histogram indent =
      add_indent indent ++ quoted (codes "Histogram") encoded_histogram ++ codes ",\n"

  unfoldable pub data_log_end :
      Option TextLog → List ℕ → List ℕ → List Latency → List ℕ → Option (List ℕ)
  data_log_end none now histogram latency conclusion = none
  data_log_end (some log) now histogram latency conclusion = some (
      log.text
      ++ (codes "\n"
          ++ add_indent 2
          ++ codes "],\n"
          ++ add_indent 2
          ++ time_output (codes "EndTime") now
          ++ codes ",\n"
          ++ histogram_output histogram 2
          ++ latency_output dec latency 2
          ++ add_indent 2
          ++ quoted (codes "Conclusion") conclusion
          ++ codes "\n"
          ++ add_indent 1
          ++ codes "}\n"
          ++ codes "}\n"))

  unfoldable pub data_log : Option TextLog → LogEvent → Option TextLog
  data_log none e = none
  data_log (some log) e =
      if has_error e.io_res || ltb (1000 * 1000 * 1000) e.t_nsec
      then some (append_event 3 log e)
      else some log
