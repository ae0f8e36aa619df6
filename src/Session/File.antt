-- ===== src/Session/File.antt =====
-- stsync-proxy/src/session/file.rs: streams kept in files. A file is the list of its bytes; a name is
-- that of the resource, `ID.ts`.
pub mod RoundTrip
use streamsync.Base.{
  ℕ, zero, suc, Bool, true, false, Option, none, some, List, [], ◌∷◌, length, take, drop, ltb, ◌==◌,
  if◌then◌else◌,
}
use streamsync.Conn.Shared.{SessionManager, Opened, opened, invalid_resource_id, server_error}
use streamsync.Sink.{InnerSink, Done, done}
use streamsync.Sink.Queue.{ready}

-- The files by their resources, what `File::create` says of a new one, and the ids that the generator
-- gives next.
pub record Files : Type 0 where
  pub files : List (ℕ × List ℕ)
  pub can_create : Bool
  pub next_ids : ℕ → ℕ
  pub generated : ℕ

unfoldable pub find_file : ℕ → List (ℕ × List ℕ) → Option (List ℕ)
find_file id [] = none
find_file id ((k, bytes) ∷ files) =
    let later = find_file id files in if k == id then some bytes else later

-- `publish`. The file is new, and empty.
abbrev pub publish_file : Option ℕ → Option ℕ → Files → Opened (List ℕ) × Files
publish_file (some resource_id) session_id d = (invalid_resource_id, d)
publish_file none session_id d =
    let id = d.next_ids d.generated in
    let d' = record d { generated = suc d.generated } in
    if d.can_create
    then (opened [], record d' { files = (id, []) ∷ d.files })
    else (server_error, d')

abbrev opened_file : Option (List ℕ) → Opened Unit
opened_file none = invalid_resource_id
opened_file (some bytes) = opened tt

-- `request`, which does not look at the session.
abbrev pub request_file : Option ℕ → Option ℕ → Files → Opened Unit × Files
request_file none session_id d = (invalid_resource_id, d)
request_file (some resource_id) session_id d = (opened_file (find_file resource_id d.files), d)

pub file_session_manager : SessionManager Files (List ℕ)
file_session_manager = record { publish = publish_file; request = request_file }

-- `FileSink`, whose state is what its file holds; `write_all` is the standard library's.
unfoldable pub file_sink : {E : Type 0} → (List ℕ → List ℕ → Done E × List ℕ) → InnerSink (List ℕ) E
file_sink write_all = record {
  poll_ready = λ file. (ready done, file);
  start_send = write_all;
  poll_flush = λ file. (ready done, file);
  poll_close = λ file. (ready done, file);
}

-- `FileStream`, with what is still to be read.
pub record FileStream : Type 0 where
  pub unread : List ℕ
  pub is_done : Bool

-- Seven packets of a transport stream.
abbrev pub chunk : ℕ
chunk = 1_316

-- `poll_next`, of a file that is read without errors. The buffer of a `read_exact` that finds the end
-- of the file has contents that are not specified.
unfoldable pub poll_next : (List ℕ → List ℕ) → FileStream → Option (List ℕ) × FileStream
poll_next unspecified s =
    if s.is_done
    then (none, s)
    else if ltb (length s.unread) chunk
    then (some (unspecified s.unread), record { unread = []; is_done = true })
    else (some (take chunk s.unread), record s { unread = drop chunk s.unread })
