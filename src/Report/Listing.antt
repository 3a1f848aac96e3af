-- ===== src/Report/Listing.antt =====
-- The logs of lib/data.c as lists: the entries of a file are the events that the scan has logged, in
-- their order, with a separator between any two.
use diskscan.Base.{
  ℕ, Bool, true, false, ◌||◌, Option, some, none, List, [], ◌∷◌, ◌++◌, map, ◌*◌, ltb, codes, ◌≡◌,
  refl, ap, sym, ◌∙◌, Bool-cases, inl, inr,
}
use mathlib.Core.List.{append_assoc, append-nil}
use diskscan.Scan.Types.{LogEvent}
use diskscan.Scan.Part
use diskscan.Scan.Part.{has_error, log_event}
use diskscan.Report.Json.{data_log_event, add_indent, disk_output, DiskInfo}
use diskscan.Report.Writer
use diskscan.Report.Writer.{TextLog, append_event}

abbrev pub separator : List ℕ
separator = codes ",\n"

abbrev pub joined : List (List ℕ) → List ℕ
joined [] = []
joined (x ∷ []) = x
joined (x ∷ y ∷ xs) = x ++ (separator ++ joined (y ∷ xs))

-- The scan's log has the newest event first.
abbrev pub oldest_first : List LogEvent → List LogEvent
oldest_first [] = []
oldest_first (e ∷ es) = oldest_first es ++ e ∷ []

abbrev pub is_empty : List LogEvent → Bool
is_empty [] = true
is_empty (e ∷ es) = false

joined-snoc :
    (x : List ℕ) (xs : List (List ℕ)) (y : List ℕ)
    → joined ((x ∷ xs) ++ y ∷ []) ≡ joined (x ∷ xs) ++ (separator ++ y)
joined-snoc x [] y = refl
joined-snoc x (z ∷ zs) y =
    ap (λ t. x ++ (separator ++ t)) (joined-snoc z zs y)
    ∙ sym (append_assoc x (separator ++ joined (z ∷ zs)) (separator ++ y))

map-snoc :
    (f : LogEvent → List ℕ) (es : List LogEvent) (e : LogEvent)
    → map f (es ++ e ∷ []) ≡ map f es ++ f e ∷ []
map-snoc f [] e = refl
map-snoc f (d ∷ es) e = ap (λ t. f d ∷ t) (map-snoc f es e)

snoc_lem :
    (f : LogEvent → List ℕ) (es : List LogEvent) (d e : LogEvent)
    → joined (map f ((es ++ d ∷ []) ++ e ∷ []))
      ≡ joined (map f (es ++ d ∷ [])) ++ (separator ++ f e)
snoc_lem f [] d e = refl
snoc_lem f (c ∷ es) d e =
    rw (map-snoc f (es ++ d ∷ []) e) (joined-snoc (f c) (map f (es ++ d ∷ [])) (f e))

module _ (dec : ℕ → ℕ → List ℕ) (indent : ℕ) (head : List ℕ) where
  -- The file behind its head holds the logged events, and its flag says whether there are any.
  pub data Shows : Option (List LogEvent) → Option TextLog → Type 0 where
    shut : Shows none none
    shown :
        {es : List LogEvent} {log : TextLog}
        → log.text ≡ head ++ joined (map (data_log_event dec indent) (oldest_first es))
        → log.is_first ≡ is_empty es
        → Shows (some es) (some log)

  append_event-Shows :
      (es : List LogEvent) {log : TextLog} (e : LogEvent)
      → log.text ≡ head ++ joined (map (data_log_event dec indent) (oldest_first es))
      → log.is_first ≡ is_empty es
      → Shows (some (e ∷ es)) (some (append_event dec indent log e))
  unfolding append_event
  append_event-Shows [] e text first = shown (rw (text, first, append-nil head) refl) refl
  append_event-Shows (d ∷ es) e text first =
      shown
        (rw (text, first, snoc_lem (data_log_event dec indent) (oldest_first es) d e)
          (append_assoc head _ _))
        refl

raw_lem :
    (dec : ℕ → ℕ → List ℕ) {head : List ℕ} {raw : Option (List LogEvent)} {file : Option TextLog}
    (e : LogEvent)
    → Shows dec 2 head raw file
    → Shows dec 2 head
        (Part.data_log_raw raw e.lba e.len e.io_res e.t_nsec)
        (Writer.data_log_raw dec file e)
unfolding Part.data_log_raw Writer.data_log_raw
raw_lem dec e shut = shut
raw_lem dec {head} e (shown {es = es} text first) = append_event-Shows dec 2 head es e text first

log_lem :
    (dec : ℕ → ℕ → List ℕ) {head : List ℕ} {log : Option (List LogEvent)} {file : Option TextLog}
    (e : LogEvent)
    → Shows dec 3 head log file
    → Shows dec 3 head
        (Part.data_log log e.lba e.len e.io_res e.t_nsec)
        (Writer.data_log dec file e)
unfolding Part.data_log Writer.data_log
log_lem dec e shut = elim (Bool-cases (has_error e.io_res || ltb (1000 * 1000 * 1000) e.t_nsec)) [
  | inl kept ↦ rw kept shut
  | inr dropped ↦ rw dropped shut
]
log_lem dec {head} e (shown {es = es} text first) =
    elim (Bool-cases (has_error e.io_res || ltb (1000 * 1000 * 1000) e.t_nsec)) [
      | inl kept ↦ rw kept (append_event-Shows dec 3 head es e text first)
      | inr dropped ↦ rw dropped (shown text first)
    ]

-- The two logs of a scan and the two files go on showing the same: what is added to a file is the
-- event that is added to the log, behind those before it, and a file that is not open stays so.
pub logs-Shows :
    (dec : ℕ → ℕ → List ℕ) {raw_head log_head : List ℕ} {raw log : Option (List LogEvent)}
    {raw_file log_file : Option TextLog} (e : LogEvent)
    → Shows dec 2 raw_head raw raw_file
    → Shows dec 3 log_head log log_file
    → Shows dec 2 raw_head
        (Part.data_log_raw raw e.lba e.len e.io_res e.t_nsec)
        (Writer.data_log_raw dec raw_file e)
      × Shows dec 3 log_head
          (Part.data_log log e.lba e.len e.io_res e.t_nsec)
          (Writer.data_log dec log_file e)
logs-Shows dec e r l = (raw_lem dec e r, log_lem dec e l)

-- The raw file after a list of events.
abbrev pub feed : (ℕ → ℕ → List ℕ) → Option TextLog → List LogEvent → Option TextLog
feed dec log [] = log
feed dec log (e ∷ es) = feed dec (Writer.data_log_raw dec log e) es

-- The events behind those logged already, which have the newest first.
abbrev logged_after : List LogEvent → List LogEvent → List LogEvent
logged_after [] es = es
logged_after (e ∷ events) es = logged_after events (e ∷ es)

oldest_first-logged_after :
    (events es : List LogEvent) → oldest_first (logged_after events es) ≡ oldest_first es ++ events
oldest_first-logged_after [] es = sym (append-nil (oldest_first es))
oldest_first-logged_after (e ∷ events) es =
    oldest_first-logged_after events (e ∷ es) ∙ append_assoc (oldest_first es) (e ∷ []) events

feed-Shows :
    (dec : ℕ → ℕ → List ℕ) (head : List ℕ) (events es : List LogEvent) {log : Option TextLog}
    → Shows dec 2 head (some es) log
    → Shows dec 2 head (some (logged_after events es)) (feed dec log events)
unfolding Writer.data_log_raw
feed-Shows dec head [] es shows = shows
feed-Shows dec head (e ∷ events) es (shown text first) =
    feed-Shows dec head events (e ∷ es) (append_event-Shows dec 2 head es e text first)

closed_file :
    (dec : ℕ → ℕ → List ℕ) (head : List ℕ) (es : List LogEvent) {log : Option TextLog}
    → Shows dec 2 head (some es) log
    → Writer.data_log_raw_end dec log
      ≡ some (
          head
          ++ joined (map (data_log_event dec 2) (oldest_first es))
          ++ (codes "\n" ++ add_indent 1 ++ codes "]\n" ++ codes "}\n"))
unfolding Writer.data_log_raw_end
closed_file dec head es (shown text first) = rw text refl

-- The head of the raw file.
abbrev pub raw_head : (ℕ → ℕ → List ℕ) → DiskInfo → List ℕ
raw_head dec disk =
    codes "{\n"
    ++ add_indent 1
    ++ codes "\"Disk\": "
    ++ disk_output dec disk 2
    ++ codes ",\n"
    ++ add_indent 1
    ++ codes "\"Raw\": [\n"

-- A raw file that could be opened is its head, the texts of all events in their order with a comma
-- between any two and none at the ends, and the brackets that close it.
pub raw_file-eq :
    (dec : ℕ → ℕ → List ℕ) (disk : DiskInfo) (events : List LogEvent)
    → Writer.data_log_raw_end dec (feed dec (Writer.data_log_raw_start dec true disk) events)
      ≡ some (
          raw_head dec disk
          ++ joined (map (data_log_event dec 2) events)
          ++ (codes "\n" ++ add_indent 1 ++ codes "]\n" ++ codes "}\n"))
unfolding Writer.data_log_raw_start
raw_file-eq dec disk events =
    let head = raw_head dec disk in
    let started = shown {es = []} (sym (append-nil head)) refl in
    rw
      (
        closed_file dec head (logged_after events []) (feed-Shows dec head events [] started),
        oldest_first-logged_after events [],
      )
      refl
