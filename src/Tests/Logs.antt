-- ===== src/Tests/Logs.antt =====
-- The theorems on the log store, at concrete inputs.
use r1s.Base.{
  ℕ, ◌≡◌, ◌≤◌, ◌+◌, ◌||◌, refl, true, false, none, some, List, [], ◌∷◌, ◌++◌, Bytes, ascii, length,
  take, ltb, ok, get, All, Assoc,
}
use r1s.Logstore.Store
use r1s.Logstore.Store.{LogFile, Directory, Store, LogChunk, capture_stream, new_store}
use r1s.Logstore.StoreLaws.{source_bytes, capture_stream-take, Covers, read-Covers}
use r1s.Logstore.Budget
use r1s.Logstore.Budget.{IsWithin, budget, run-IsWithin}

abbrev half_full : LogFile
half_full = record { contents = 1 ∷ 2 ∷ []; truncated = false }

abbrev reads : List Bytes
reads = (3 ∷ []) ∷ (4 ∷ 5 ∷ 6 ∷ []) ∷ []

capture_stream-take_example :
    ((capture_stream 2 half_full reads).contents ≡ 1 ∷ 2 ∷ take 2 (source_bytes reads))
    × ((capture_stream 2 half_full reads).truncated
        ≡ (false || ltb 2 (length (source_bytes reads))))
    × (length (capture_stream 2 half_full reads).contents ≤ 2 + 2)
capture_stream-take_example = capture_stream-take 2 half_full reads

-- Directories named by the IDs themselves.
abbrev pub named : Bytes → Bytes
named id = id

abbrev logs_of_e1 : Directory
logs_of_e1 = record {
  metadata = record { execution = ascii "e1"; limit = 10 };
  stdout = some half_full;
  stderr = none;
}

abbrev pub one_log : Store
one_log = record {
  stream_bytes = 10;
  total_bytes = 40;
  directories = (ascii "e1", logs_of_e1) ∷ [];
}

abbrev last_byte : LogChunk
last_byte = record { contents = 2 ∷ []; next_offset = 2; eof = true; truncated = false }

reads_last : Store.read named one_log (ascii "e1") (ascii "stdout") 1 9 ≡ ok last_byte
unfolding Store.read r1s.Base.beq get
reads_last = refl

read-Covers_example :
    (d : Directory) × ((f : LogFile) × ((get (ascii "e1") one_log.directories ≡ some d)
        × (d.metadata.execution ≡ ascii "e1")
        × (Store.stream_file d (ascii "stdout") ≡ some f)
        × (false ≡ f.truncated)
        × Covers f 1 9 last_byte))
read-Covers_example =
    read-Covers named one_log (ascii "e1") (ascii "stdout") 1 9 last_byte reads_last

-- A restart with a smaller budget: 50 bytes stand reserved, of a total of 40.
abbrev left_over : Assoc Store.Directory
left_over =
    (
      ascii "e9",
      record {
        metadata = record { execution = ascii "e9"; limit = 25 };
        stdout = none;
        stderr = none;
      },
    )
    ∷ []

abbrev reopened : Store
reopened = record { stream_bytes = 10; total_bytes = 40; directories = left_over }

reopens : new_store (ascii "/logs") 10 40 left_over ≡ ok reopened
unfolding new_store
reopens = refl

stands : Store.reserved left_over ≡ some 50
unfolding Store.reserved
stands = refl

abbrev three_runs : List Budget.Call
three_runs =
    Budget.removes (ascii "e9")
    ∷ Budget.reserves (ascii "e1")
    ∷ Budget.reserves (ascii "e2")
    ∷ Budget.reserves (ascii "e3")
    ∷ Budget.removes (ascii "e1")
    ∷ []

run-IsWithin_example : IsWithin (budget 40 50) (Budget.run named three_runs reopened)
run-IsWithin_example =
    run-IsWithin named (ascii "/logs") 10 40 50 left_over reopened three_runs stands reopens
      (tt, (refl, (refl, (refl, (tt, tt)))))
