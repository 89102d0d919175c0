-- ===== src/Files/Uploads.antt =====
-- example/upload_client and example/upload_server: the requests, the server and the task of an upload.
use iip.Prelude.{
  ℕ, zero, suc, ◌+◌, ◌*◌, ◌%◌, ◌^◌, ◌||◌, Bool, true, false, not, List, [], ◌++◌, Option, none,
  some, ltb, leb, ◌==◌, if◌then◌else◌, length, take, drop,
}
use iip.Prelude.Texts.{find, store}
use iip.Packet.Bytes.{put_uint32, uint32}
use iip.Handlers.{Answer, answers, fails}
use iip.Files.{FileRead}

-- The part of a FileUploadRequest that is sent as JSON, less its task's id.
pub record UploadMeta : Type 0 where
  pub file_path : List ℕ
  pub start_pos : ℕ
  pub completed : Bool

pub record UploadRequest : Type 0 where
  pub meta : UploadMeta
  pub chunked_data : List ℕ

-- A FileUploadTaskClientSide, with what its local file holds.
pub record UploadTask : Type 0 where
  pub server_file : List ℕ
  pub local_file : List ℕ
  pub uploaded_bytes : ℕ
  pub completed : Bool

abbrev pub request_with : UploadTask → Bool → List ℕ → UploadRequest × UploadTask
request_with task completed bytes = (
  record {
    meta = record {
      file_path = task.server_file;
      start_pos = task.uploaded_bytes;
      completed = completed;
    };
    chunked_data = bytes;
  },
  record task { completed = completed },
)

abbrev pub request_of : UploadTask → Option (List ℕ) → UploadRequest × UploadTask
request_of task none = request_with task true []
request_of task (some bytes) = request_with task false bytes

-- NewFileUploadRequest: none is an error. The local file can be opened and read.
unfoldable pub new_upload_request : FileRead → UploadTask → Option (UploadRequest × UploadTask)
new_upload_request read task =
    if task.completed
    then none
    else some (request_of task (read (1024 * 1024 * 10) (drop task.uploaded_bytes task.local_file)))

-- (*FileUploadRequest).Data; `encode` is json.Marshal.
unfoldable pub upload_data : (UploadMeta → List ℕ) → UploadRequest → List ℕ
unfolding put_uint32
upload_data encode req =
    put_uint32 (length (encode req.meta)) ++ (encode req.meta ++ req.chunked_data)

-- What is in the file when it has been opened: nothing for a request from the start, which truncates.
unfoldable pub old_content : List ℕ → ℕ → List (List ℕ × List ℕ) → List ℕ
unfolding find
old_content name start_pos stored =
    if start_pos == 0 then [] else elim (find name stored) [ none ↦ [] | some content ↦ content ]

-- From the request's meta data on; the file is opened to append.
unfoldable pub write_upload :
    (List ℕ → List ℕ)
    → (ℕ → List ℕ)
    → List (List ℕ × List ℕ)
    → List ℕ
    → Option UploadMeta
    → Answer × List (List ℕ × List ℕ)
unfolding store old_content
write_upload name_of respond stored chunk none = (fails, stored)
write_upload name_of respond stored chunk (some meta) = (
  answers (respond (length chunk)),
  store (name_of meta.file_path)
      (old_content (name_of meta.file_path) meta.start_pos stored ++ chunk) stored,
)

-- Its tests; `stop` is where the meta data end. A slice out of range is a panic, after which the
-- server's handler has no answer. `decode` is json.Unmarshal, `respond` the JSON of the bytes done.
unfoldable pub check_upload :
    (List ℕ → List ℕ)
    → (List ℕ → Option UploadMeta)
    → (ℕ → List ℕ)
    → List (List ℕ × List ℕ)
    → List ℕ
    → Bool
    → ℕ
    → Answer × List (List ℕ × List ℕ)
unfolding write_upload
check_upload name_of decode respond stored request_data completed stop =
    if leb (length request_data) 4
    then (fails, stored)
    else if not completed
    then (answers [], stored)
    else if ltb stop 4 || ltb (length request_data) stop
    then (answers [], stored)
    else write_upload name_of respond stored (drop stop request_data)
        (decode (drop 4 (take stop request_data)))

-- (*FileServer).Handle of upload_server.
unfoldable pub serve_upload :
    (List ℕ → List ℕ)
    → (List ℕ → Option UploadMeta)
    → (ℕ → List ℕ)
    → List (List ℕ × List ℕ)
    → List ℕ
    → Bool
    → Answer × List (List ℕ × List ℕ)
unfolding uint32 check_upload
serve_upload name_of decode respond stored request_data completed =
    check_upload name_of decode respond stored request_data completed
      ((4 + uint32 (take 4 request_data)) % 2 ^ 32)

-- handleFileUploadResponse up to its next request; none is its panic.
abbrev pub add_done : UploadTask → Option ℕ → Option UploadTask
add_done task none = none
add_done task (some done) = some (record task { uploaded_bytes = task.uploaded_bytes + done })

abbrev pub take_response : (List ℕ → Option ℕ) → UploadTask → Answer → Option UploadTask
take_response decode_done task fails = none
take_response decode_done task (answers net_response) = add_done task (decode_done net_response)

-- What a server makes of a request's data: its answer, and the files that it has then.
abbrev pub Upload : Type 0
Upload = List (List ℕ × List ℕ) → UploadRequest → Answer × List (List ℕ × List ℕ)

abbrev pub sent_round :
    Upload
    → (List ℕ → Option ℕ)
    → List (List ℕ × List ℕ)
    → UploadRequest × UploadTask
    → Option UploadTask × List (List ℕ × List ℕ)
sent_round serve decode_done stored (req, task) =
    (take_response decode_done task (serve stored req).0, (serve stored req).1)

-- A round of RunTask: a request, the server's answer, and what the client makes of it; none is a task
-- that has ended.
unfoldable pub upload_round :
    FileRead
    → Upload
    → (List ℕ → Option ℕ)
    → UploadTask
    → List (List ℕ × List ℕ)
    → Option (Option UploadTask × List (List ℕ × List ℕ))
unfolding new_upload_request
upload_round read serve decode_done task stored = elim (new_upload_request read task) [
  | none ↦ none
  | some sent ↦ some (sent_round serve decode_done stored sent)
]

unfoldable pub run_upload :
    ℕ
    → FileRead
    → Upload
    → (List ℕ → Option ℕ)
    → UploadTask
    → List (List ℕ × List ℕ)
    → Option UploadTask × List (List ℕ × List ℕ)
unfolding upload_round
run_upload zero read serve decode_done task stored = (some task, stored)
run_upload (suc rounds) read serve decode_done task stored =
    elim (upload_round read serve decode_done task stored) [
      | none ↦ (some task, stored)
      | some r ↦ elim r.0 [
        | none ↦ (none, r.1)
        | some next ↦ run_upload rounds read serve decode_done next r.1
      ]
    ]
