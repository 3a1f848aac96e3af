-- ===== src/Tests/Requests.antt =====
-- A scan of lib/diskscan.c through the device layer of arch/arch-linux.c, on a drive of eight sectors.
use diskscan.Base.{ℕ, ◌+◌, false, some, none, List, [], ◌∷◌, replicate, Ensures, ltb, if◌then◌else◌}
use diskscan.Device.Types.{DiskDev, SgHeader, SgReply}
use diskscan.Scan.Types.{Disk, Latency, Histogram, scan_mode_seq, scan_problem}
use diskscan.Monitor.{AtaState}
use diskscan.Drive.{Surroundings}
use diskscan.Drive.Requests.{AllAsked, requests, traced_scan, scan_requests}

-- A drive that reads zeros; the state counts the requests.
abbrev zeros : ℕ → SgHeader → SgReply × ℕ
zeros k h = (
  record {
    failed = false;
    dxfer = h.dxfer;
    sbp = replicate 128 0;
    resid = 0;
    sb_len_wr = 0;
    status = 0;
  },
  k + 1,
)

abbrev quick : Surroundings (ℕ × List SgHeader)
quick = record { errno = λ t. 0; elapsed = λ t u. 7_000_000; signal = λ t u. false }

abbrev largest : Histogram ℕ
largest = record {
  record_value = λ h v. if ltb h v then v else h;
  max_value = λ h. h;
  value_at_percentile = λ h p. h;
}

abbrev bucket : Latency
bucket = record {
  start_sector = 0;
  end_sector = 0;
  latency_min_msec = 0;
  latency_max_msec = 0;
  latency_median_msec = 0;
}

abbrev opened : Disk ℕ
opened = record {
  is_ata = false;
  num_bytes = 4096;
  sector_size = 512;
  run = false;
  fix = false;
  num_errors = 0;
  histogram = 0;
  latency_graph_len = 2;
  latency_graph = bucket ∷ bucket ∷ [];
  conclusion = scan_problem;
  data_raw = some [];
  data_log = none;
}

abbrev calm : AtaState
calm = record {
  is_smart_tripped = false;
  smart = [];
  smart_num = 0;
  last_temp = 0;
  last_reallocs = 0;
  last_pending_reallocs = 0;
  last_crc_errors = 0;
}

abbrev sectors : DiskDev
sectors = record { sector_size = 512 }

scan_requests_example :
    Ensures
      (λ r. AllAsked sectors false (requests r.2))
      (traced_scan zeros quick sectors largest false
        (λ t. none)
        0
        (λ i. 0)
        (some (replicate 1024 0))
        opened
        0
        calm
        scan_mode_seq
        1024)
scan_requests_example =
    scan_requests zeros quick sectors largest false (λ t. none) 0 (λ i. 0) (some (replicate 1024 0))
      opened 0 calm scan_mode_seq 1024
