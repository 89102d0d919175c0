-- ===== src/Files/Download.antt =====
-- example/file_client and example/file_server: a file that is downloaded chunk by chunk.
use iip.Prelude.{
  ℕ, zero, suc, ◌+◌, ◌-◌, ◌*◌, ◌^◌, ◌<◌, ◌≤◌, ◌≡◌, refl, sym, ap, ◌∙◌, Bool, true, false, List, [],
  ◌∷◌, ◌++◌, append-nil, append_assoc, Option, none, some, ltb, ◌==◌, if◌then◌else◌, if_false,
  arith, length, length-append, length-drop, take, drop, take-append-drop,
}
use iip.Packet.Bytes.{put_uint32, uint32}
use iip.Handlers.{Answer, answers}
use iip.Files.{
  FileRead, IsRead, DownloadRequest, DownloadTask, chunk_answer, read_answer, open_answer,
  serve_download, new_download_request, take_chunk, take_answer, run_download,
}

abbrev task_at : List ℕ → List ℕ → ℕ → Bool → DownloadTask
task_at path local n completed = record {
  server_file = path;
  local_file = local;
  downloaded_bytes = n;
  completed = completed;
  err = false;
}

-- A task before its first request.
abbrev pub new_task : List ℕ → DownloadTask
new_task path = task_at path [] 0 false

drop-front : (local rest : List ℕ) → drop (length local) (local ++ rest) ≡ rest
drop-front [] rest = refl
drop-front (x ∷ local) rest = drop-front local rest

take_chunk-marked :
    (path local : List ℕ) (n a b c d : ℕ) (bytes : List ℕ)
    → take_chunk (task_at path local n false) (a ∷ b ∷ c ∷ d ∷ bytes)
      ≡ task_at path (local ++ bytes) (n + length bytes) (uint32 (a ∷ b ∷ c ∷ d ∷ []) == 1)
unfolding take_chunk uint32
take_chunk-marked path local n a b c d bytes =
    let long : ltb (suc (suc (suc (suc (length bytes))))) 4 ≡ false = ground arith in
    let size : suc (suc (suc (suc (length bytes)))) - 4 ≡ length bytes = omega arith in
    if_false (ltb (suc (suc (suc (suc (length bytes))))) 4) _ _ long
    ∙ ap
        (λ (k : ℕ).
          task_at path (local ++ bytes) (n + k) ((a * 2 ^ 24 + b * 2 ^ 16 + c * 2 ^ 8 + d) == 1))
        size

module _ (read : FileRead) (path file : List ℕ) (files : List ℕ → Option (List ℕ))
    (decode : List ℕ → Option DownloadRequest) (encode : DownloadRequest → List ℕ) where
  -- The server's answer to a request that the client sends.
  abbrev pub serve : DownloadRequest → Answer
  serve req = serve_download read files decode (encode req) true

  module _ (documented : IsRead read) (opens : files path ≡ some file)
      (round_trip : (n : ℕ)
        → n ≤ length file
        → decode (encode (record { file_path = path; start_pos = n }))
          ≡ some (record { file_path = path; start_pos = n })) where
    served :
        (local rest : List ℕ)
        → file ≡ local ++ rest
        → serve (record { file_path = path; start_pos = length local })
          ≡ answers (chunk_answer (read (1024 * 10 - 4) rest))
    unfolding serve_download open_answer read_answer
    served local rest e =
        let req : DownloadRequest = record { file_path = path; start_pos = length local } in
        let inside : length local ≤ length file =
          omega (arith, ap length e, length-append local rest) in
        ap (open_answer read files) (round_trip (length local) inside)
        ∙ ap (read_answer read (length local)) opens
        ∙ ap (λ t. answers (chunk_answer (read (1024 * 10 - 4) t)))
            (ap (drop (length local)) e ∙ drop-front local rest)

    -- The rest of the run, once an answer has been taken.
    abbrev go_on : ℕ → DownloadTask → DownloadTask
    go_on rounds next =
        let later = run_download rounds serve next in if next.err then next else later

    run-completed :
        (rounds n : ℕ) (local : List ℕ)
        → run_download rounds serve (task_at path local n true) ≡ task_at path local n true
    unfolding run_download new_download_request
    run-completed zero n local = refl
    run-completed (suc rounds) n local = refl

    -- The task after a round.
    round-taken :
        (n : ℕ) (local rest : List ℕ) (o : Option (List ℕ))
        → file ≡ local ++ rest
        → n ≡ length local
        → read (1024 * 10 - 4) rest ≡ o
        → take_answer
            (task_at path local n false)
            (serve (record { file_path = path; start_pos = n }))
          ≡ take_chunk (task_at path local n false) (chunk_answer o)
    unfolding take_answer
    round-taken n local rest o e at got =
        ap
          (λ (k : ℕ).
            take_answer (task_at path local n false)
              (serve (record { file_path = path; start_pos = k })))
          at
        ∙ ap (take_answer (task_at path local n false)) (served local rest e)
        ∙ ap (λ r. take_chunk (task_at path local n false) (chunk_answer r)) got

    download-from :
        (rounds n : ℕ) (local rest : List ℕ)
        → file ≡ local ++ rest
        → n ≡ length local
        → length rest < rounds
        → run_download rounds serve (task_at path local n false)
          ≡ task_at path file (length file) true
    unfolding run_download new_download_request put_uint32 uint32
    download-from zero n local rest e at enough = absurd (omega (arith, enough))
    download-from (suc rounds) n local [] e at enough =
        let all : file ≡ local = e ∙ append-nil local in
        let size : n + 0 ≡ length file = omega (arith, at, ap length all) in
        let next =
          round-taken n local [] none e at (documented.at_end (1024 * 10 - 4))
          ∙ take_chunk-marked path local n 0 0 0 1 [] in
        ap (go_on rounds) next
        ∙ run-completed rounds (n + 0) (local ++ [])
        ∙ ap (λ t. task_at path t (n + 0) true) (sym e)
        ∙ ap (λ (k : ℕ). task_at path file k true) size
    download-from (suc rounds) n local (b ∷ rest) e at enough =
        let (k, got, few) = documented.before_end (1024 * 10 - 4) b rest (omega arith) in
        let chunk = take (suc k) (b ∷ rest) in
        let left = drop (suc k) (b ∷ rest) in
        let next =
          round-taken n local (b ∷ rest) (some chunk) e at got
          ∙ take_chunk-marked path local n 0 0 0 0 chunk in
        let whole_is =
          e
          ∙ ap (λ t. local ++ t) (sym (take-append-drop (suc k) (b ∷ rest)))
          ∙ sym (append_assoc local chunk left) in
        ap (go_on rounds) next
        ∙ download-from rounds (n + length chunk) (local ++ chunk) left whole_is
            (omega (arith, at, length-append local chunk))
            (omega (arith, enough, length-drop k rest))

    -- A download from the start of a file that the server can open, with one round more than the file
    -- has bytes, where JSON gives back the requests for this path and a position inside the file: the
    -- local file ends up as the server's file, and the task as completed, however many bytes each Read
    -- gives before the end.
    pub download_completes :
        (rounds : ℕ)
        → length file < rounds
        → run_download rounds serve (new_task path) ≡ record (new_task path) {
          local_file = file;
          downloaded_bytes = length file;
          completed = true;
        }
    download_completes rounds enough = download-from rounds 0 [] file refl refl enough
