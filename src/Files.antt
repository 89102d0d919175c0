-- ===== src/Files.antt =====
-- example: files sent over iip in chunks, each a request and its response (file_server, file_client,
-- upload_server, upload_client): downloads here, uploads in Uploads.
-- A file is the list of its bytes. What a Read of a file gives is a parameter, and so are the JSON of
-- requests and responses and the hash that names an uploaded file. A position is a number.
pub mod Uploads
pub mod Download
pub mod Upload
mod Tests
use iip.Prelude.{
  ℕ, zero, suc, ◌+◌, ◌-◌, ◌*◌, ◌%◌, ◌^◌, ◌||◌, ◌≤◌, ◌<◌, ◌≡◌, Bool, true, false, not, List, [], ◌∷◌,
  ◌++◌, Option, none, some, ltb, leb, ◌==◌, if◌then◌else◌, length, take, drop,
}
use iip.Prelude.Texts.{find, store}
use iip.Packet.Bytes.{put_uint32, uint32}
use iip.Handlers.{Answer, answers, fails}

-- What a Read of at most some number of bytes gives, of what lies behind the position; none is an
-- error, as at the end of the file.
abbrev pub FileRead : Type 0
FileRead = ℕ → List ℕ → Option (List ℕ)

-- The documented behaviour: an error at the end, and one byte or more before it.
pub record IsRead (read : FileRead) : Type 0 where
  pub at_end : (most : ℕ) → read most [] ≡ none
  pub before_end :
      (most b : ℕ) (rest : List ℕ)
      → 1 ≤ most
      → (n : ℕ) × (read most (b ∷ rest) ≡ some (take (suc n) (b ∷ rest))) × (suc n ≤ most)

-- A FileDownloadRequest, less its task's id.
pub record DownloadRequest : Type 0 where
  pub file_path : List ℕ
  pub start_pos : ℕ

-- The answer of the file server: a mark of four bytes, 1 at the end of the file, and a chunk.
abbrev pub chunk_answer : Option (List ℕ) → List ℕ
chunk_answer none = put_uint32 1
chunk_answer (some bytes) = put_uint32 0 ++ bytes

abbrev pub read_answer : FileRead → ℕ → Option (List ℕ) → Answer
unfolding put_uint32
read_answer read pos none = fails
read_answer read pos (some file) = answers (chunk_answer (read (1024 * 10 - 4) (drop pos file)))

abbrev pub open_answer : FileRead → (List ℕ → Option (List ℕ)) → Option DownloadRequest → Answer
unfolding put_uint32
open_answer read files none = fails
open_answer read files (some req) = read_answer read req.start_pos (files req.file_path)

-- (*FileServer).Handle of file_server; `files` opens a file, `decode` is json.Unmarshal.
unfoldable pub serve_download :
    FileRead
    → (List ℕ → Option (List ℕ))
    → (List ℕ → Option DownloadRequest)
    → List ℕ
    → Bool
    → Answer
unfolding put_uint32
serve_download read files decode request_data completed =
    if completed then open_answer read files (decode request_data) else answers []

-- A FileDownloadTaskClientSide, with what its local file holds.
pub record DownloadTask : Type 0 where
  pub server_file : List ℕ
  pub local_file : List ℕ
  pub downloaded_bytes : ℕ
  pub completed : Bool
  pub err : Bool

-- NewFileDownloadRequest: none is an error.
unfoldable pub new_download_request : DownloadTask → Option DownloadRequest
new_download_request task =
    if task.completed
    then none
    else some (record { file_path = task.server_file; start_pos = task.downloaded_bytes })

-- unmarshalFileDownloadResponseChunk up to its next request; the local file is opened to append.
unfoldable pub take_chunk : DownloadTask → List ℕ → DownloadTask
unfolding uint32
take_chunk task net_response =
    if ltb (length net_response) 4 then record task { err = true } else record task {
      local_file = task.local_file ++ drop 4 net_response;
      completed = uint32 (take 4 net_response) == 1;
      downloaded_bytes = task.downloaded_bytes + (length net_response - 4);
    }

-- What the client makes of an answer that its handler gets, which sends the next request unless the
-- task has ended; a failed request has no answer here.
abbrev pub take_answer : DownloadTask → Answer → DownloadTask
unfolding take_chunk
take_answer task fails = record task { err = true }
take_answer task (answers net_response) = take_chunk task net_response

-- RunTask, for some rounds of a request, its answer, and what the handler makes of it.
unfoldable pub run_download : ℕ → (DownloadRequest → Answer) → DownloadTask → DownloadTask
unfolding new_download_request take_answer
run_download zero serve task = task
run_download (suc rounds) serve task = elim (new_download_request task) [
  | none ↦ task
  | some req ↦
      let next = take_answer task (serve req) in
      let later = run_download rounds serve next in if next.err then next else later
]
