-- ===== src/Logstore/Store.antt =====
-- internal/logstore/store.go: the files of the logs. A directory is what stands in it, under its name;
-- the hash of an execution's ID, which names its directory, is a parameter. The file system is taken
-- to succeed, with reads that give the whole range.
use r1s.Base.{
  ℕ, ◌+◌, ◌-◌, ◌*◌, ◌||◌, not, Bool, true, false, Option, none, some, List, [], ◌∷◌, ◌++◌, Bytes,
  Assoc, ascii, get, put, delete, length, take, drop, min, beq, ltb, ◌==◌, is_empty, if◌then◌else◌,
  Checked, ok, err, ◌>>=◌, ◌>>◌, stop_if, present,
}

pub data LogError : Type 0 where
  invalid_budget identity_conflict invalid_reservation budget_exhausted : LogError
  log_offset logs_missing invalid_metadata limit_mismatch : LogError

pub record Metadata : Type 0 where
  pub execution : Bytes
  pub limit : ℕ

-- One stream's file, and whether its `.truncated` mark is there.
pub record LogFile : Type 0 where
  pub contents : Bytes
  pub truncated : Bool

pub record Directory : Type 0 where
  pub metadata : Metadata
  pub stdout : Option LogFile
  pub stderr : Option LogFile

pub record Store : Type 0 where
  pub stream_bytes : ℕ
  pub total_bytes : ℕ
  pub directories : Assoc Directory

abbrev pub max_stream_bytes : ℕ
max_stream_bytes = 1073741824

-- New, over the directories that stand under its root already.
unfoldable pub new_store : Bytes → ℕ → ℕ → Assoc Directory → Checked LogError Store
new_store root stream_bytes total_bytes found =
    if is_empty root
      || ltb stream_bytes 1
      || ltb max_stream_bytes stream_bytes
      || ltb total_bytes (2 * stream_bytes)
    then err invalid_budget
    else ok (record { stream_bytes = stream_bytes; total_bytes = total_bytes; directories = found })

abbrev pub valid_metadata : Metadata → Bool
valid_metadata m = not (is_empty m.execution || ltb m.limit 1 || ltb max_stream_bytes m.limit)

-- readMetadata of a directory that is there.
unfoldable pub read_metadata : Directory → Checked LogError Metadata
read_metadata d = if valid_metadata d.metadata then ok d.metadata else err invalid_metadata

-- What the reservations of all directories come to; none if one of them is not valid.
unfoldable pub reserved : Assoc Directory → Option ℕ
reserved [] = some 0
reserved ((name, d) ∷ rest) =
    let others : Option ℕ = reserved rest in
    if valid_metadata d.metadata
    then elim others [ none ↦ none | some n ↦ some (2 * d.metadata.limit + n) ]
    else none

abbrev pub fresh_directory : Bytes → ℕ → Directory
fresh_directory id limit = record {
  metadata = record { execution = id; limit = limit };
  stdout = none;
  stderr = none;
}

abbrev pub stream_file : Directory → Bytes → Option LogFile
stream_file d stream = if beq stream (ascii "stdout") then d.stdout else d.stderr

pub record LogChunk : Type 0 where
  pub contents : Bytes
  pub next_offset : ℕ
  pub eof : Bool
  pub truncated : Bool

abbrev pub chunk_of : LogFile → ℕ → ℕ → LogChunk
chunk_of f offset limit =
    let contents : Bytes = take (min limit (length f.contents - offset)) (drop offset f.contents) in
    record {
      contents = contents;
      next_offset = offset + length contents;
      eof = offset + length contents == length f.contents;
      truncated = f.truncated;
    }

module _ (directory : Bytes → Bytes) where
  -- Reserve: the store, and the limit of the execution's streams.
  unfoldable pub reserve : Store → Bytes → Checked LogError (Store × ℕ)
  unfolding read_metadata reserved
  reserve s id = elim (get (directory id) s.directories) [
    | some d ↦ elim (read_metadata d) [
      | err e ↦ err e
      | ok m ↦ if beq m.execution id then ok (s, m.limit) else err identity_conflict
    ]
    | none ↦ elim (reserved s.directories) [
      | none ↦ err invalid_reservation
      | some n ↦
          if ltb (s.total_bytes - 2 * s.stream_bytes) n
          then err budget_exhausted
          else ok (
            record s {
              directories = put (directory id) (fresh_directory id s.stream_bytes) s.directories;
            },
            s.stream_bytes,
          )
    ]
  ]

  -- Read, with a context that is not done.
  unfoldable pub read : Store → Bytes → Bytes → ℕ → ℕ → Checked LogError LogChunk
  unfolding read_metadata
  read s id stream offset limit = do
    stop_if
        (not (beq stream (ascii "stdout") || beq stream (ascii "stderr"))
          || limit == 0
          || ltb 1048576 limit)
        log_offset
    d ← present (get (directory id) s.directories) logs_missing
    m ← read_metadata d
    stop_if (not (beq m.execution id)) logs_missing
    f ← present (stream_file d stream) logs_missing
    stop_if (ltb (length f.contents) offset) log_offset
    ok (chunk_of f offset limit)

  unfoldable pub remove : Store → Bytes → Store
  remove s id = record s { directories = delete (directory id) s.directories }

-- One pass of Capture's loop for a stream: `n` bytes read, of which at most `remaining` are kept.
unfoldable pub capture_chunk : ℕ → LogFile → Bytes → LogFile
capture_chunk remaining f bytes_read =
    let keep : ℕ = min (length bytes_read) remaining in
    record {
      contents = f.contents ++ take keep bytes_read;
      truncated = if ltb keep (length bytes_read) then true else f.truncated;
    }

-- The loop, over what the reads of the source give, up to the end of the file.
unfoldable pub capture_stream : ℕ → LogFile → List Bytes → LogFile
unfolding capture_chunk
capture_stream remaining f [] = f
capture_stream remaining f (b ∷ bs) =
    capture_stream (remaining - min (length b) remaining) (capture_chunk remaining f b) bs

abbrev pub opened : Option LogFile → LogFile
opened none = record { contents = []; truncated = false }
opened (some f) = f

-- Capture: each stream goes on where its file ends.
unfoldable pub capture : ℕ → Directory → List Bytes → List Bytes → Checked LogError Directory
unfolding read_metadata capture_stream
capture limit d out errors = elim (read_metadata d) [
  | err e ↦ err e
  | ok m ↦
      if not (m.limit == limit)
      then err limit_mismatch
      else let o : LogFile = opened d.stdout in
        let e : LogFile = opened d.stderr in
        ok (record d {
          stdout = some (capture_stream (limit - length o.contents) o out);
          stderr = some (capture_stream (limit - length e.contents) e errors);
        })
]
