-- ===== src/Files/Upload.antt =====
-- example/upload_client and example/upload_server: a file that is uploaded chunk by chunk.
use iip.Prelude.{
  ℕ, zero, suc, ◌+◌, ◌*◌, ◌%◌, ◌^◌, ◌||◌, ◌≤◌, ◌<◌, ◌≡◌, refl, sym, ap, ◌∙◌, Bool, true, false,
  List, [], ◌∷◌, ◌++◌, append-nil, append_assoc, Option, none, some, ltb, leb, ◌==◌, if_false,
  arith, length, length-append, length-drop, take, drop, take-append-drop,
}
use mathlib.Core.Path.{subst}
use iip.Prelude.Texts.{find, store, find-store}
use iip.Packet.Bytes.{put_uint32, uint32, uint32-put_uint32}
use iip.Handlers.{Answer}
use iip.Files.{FileRead, IsRead}
use iip.Files.Uploads.{
  UploadMeta, UploadRequest, UploadTask, request_of, request_with, add_done, sent_round,
  upload_round, new_upload_request, upload_data, old_content, write_upload, check_upload,
  serve_upload, take_response, run_upload,
}

abbrev task_at : List ℕ → List ℕ → ℕ → Bool → UploadTask
task_at path local n completed = record {
  server_file = path;
  local_file = local;
  uploaded_bytes = n;
  completed = completed;
}

-- A task before its first request.
abbrev pub upload_task : List ℕ → List ℕ → UploadTask
upload_task path local = task_at path local 0 false

take-front : (front rest : List ℕ) (n : ℕ) → n ≡ length front → take n (front ++ rest) ≡ front
take-front [] rest zero h = refl
take-front [] rest (suc n) h = absurd (omega (arith, h))
take-front (x ∷ front) rest zero h = absurd (omega (arith, h))
take-front (x ∷ front) rest (suc n) h = ap (λ t. x ∷ t) (take-front front rest n (omega (arith, h)))

drop-front : (front rest : List ℕ) (n : ℕ) → n ≡ length front → drop n (front ++ rest) ≡ rest
drop-front [] rest zero h = refl
drop-front [] rest (suc n) h = absurd (omega (arith, h))
drop-front (x ∷ front) rest zero h = absurd (omega (arith, h))
drop-front (x ∷ front) rest (suc n) h = drop-front front rest n (omega (arith, h))

module _ (read : FileRead) (name_of : List ℕ → List ℕ) (encode : UploadMeta → List ℕ)
    (decode : List ℕ → Option UploadMeta) (respond : ℕ → List ℕ) (decode_done : List ℕ → Option ℕ)
    (path local : List ℕ) where
  -- The server's answer to the data of a request.
  abbrev pub serve : List (List ℕ × List ℕ) → UploadRequest → Answer × List (List ℕ × List ℕ)
  serve stored req = serve_upload name_of decode respond stored (upload_data encode req) true

  -- The meta data of a request for this file from a position.
  abbrev pub meta_at : ℕ → Bool → UploadMeta
  meta_at n completed = record { file_path = path; start_pos = n; completed = completed }

  -- What the code relies on of the JSON of such meta data, and of the number of bytes done.
  pub record IsJson : Type 0 where
    pub meta_back :
        (n : ℕ) (completed : Bool)
        → n ≤ length local
        → decode (encode (meta_at n completed)) ≡ some (meta_at n completed)
    pub meta_size :
        (n : ℕ) (completed : Bool)
        → n ≤ length local
        → (1 ≤ length (encode (meta_at n completed)))
          × (length (encode (meta_at n completed)) + 4 < 2 ^ 32)
    pub done_back : (n : ℕ) → n ≤ length local → decode_done (respond n) ≡ some n

  module _ (documented : IsRead read) (is_json : IsJson) where
    -- The request's data, taken apart.
    served :
        (stored : List (List ℕ × List ℕ)) (n : ℕ) (completed : Bool) (chunk : List ℕ)
        → n ≤ length local
        → serve stored (record { meta = meta_at n completed; chunked_data = chunk })
          ≡ write_upload name_of respond stored chunk (some (meta_at n completed))
    unfolding serve_upload upload_data put_uint32 uint32 check_upload
    served stored n completed chunk inside_file =
        let meta = meta_at n completed in
        let json = encode meta in
        let size = length json in
        let body = json ++ chunk in
        let head = put_uint32 size in
        let (least, most) = is_json.meta_size n completed inside_file in
        let size_is : uint32 head ≡ size = uint32-put_uint32 size (omega (arith, most)) in
        let size_wraps : (4 + size) % 2 ^ 32 ≡ suc (suc (suc (suc size))) = omega (arith, most) in
        let long : leb (suc (suc (suc (suc (length body))))) 4 ≡ false =
          ground (arith, length-append json chunk, least) in
        let inside : (ltb (suc (suc (suc (suc size)))) 4
              || ltb (suc (suc (suc (suc (length body))))) (suc (suc (suc (suc size)))))
            ≡ false =
          ground (arith, length-append json chunk) in
        ap
          (λ (k : ℕ).
            check_upload name_of decode respond stored (head ++ body) true ((4 + k) % 2 ^ 32))
          size_is
        ∙ ap (check_upload name_of decode respond stored (head ++ body) true) size_wraps
        ∙ if_false (leb (suc (suc (suc (suc (length body))))) 4) _ _ long
        ∙ if_false
            (ltb (suc (suc (suc (suc size)))) 4
              || ltb (suc (suc (suc (suc (length body))))) (suc (suc (suc (suc size)))))
            _ _ inside
        ∙ ap (λ t. write_upload name_of respond stored t (decode (take size body)))
            (drop-front json chunk size refl)
        ∙ ap (λ t. write_upload name_of respond stored chunk (decode t))
            (take-front json chunk size refl)
        ∙ ap (write_upload name_of respond stored chunk) (is_json.meta_back n completed inside_file)

    -- A round from what the file holds so far, with what a Read gives.
    round-sent :
        (n : ℕ) (front rest bytes : List ℕ) (stored : List (List ℕ × List ℕ)) (o : Option (List ℕ))
        (completed : Bool)
        → local ≡ front ++ rest
        → n ≡ length front
        → old_content (name_of path) n stored ≡ front
        → read (1024 * 1024 * 10) rest ≡ o
        → length bytes ≤ length local
        → request_of (task_at path local n false) o
          ≡ request_with (task_at path local n false) completed bytes
        → upload_round read serve decode_done (task_at path local n false) stored
          ≡ some (
            some (task_at path local (n + length bytes) completed),
            store (name_of path) (front ++ bytes) stored,
          )
    unfolding upload_round new_upload_request write_upload
    round-sent n front rest bytes stored o completed e at old got fits sent =
        let task = task_at path local n false in
        let size = length-append front rest in
        let all = ap length e in
        let task' = task_at path local n completed in
        ap
          (λ t.
            some
              (sent_round serve decode_done stored (request_of task (read (1024 * 1024 * 10) t))))
          (ap (drop n) e ∙ drop-front front rest n at)
        ∙ ap (λ t. some (sent_round serve decode_done stored (request_of task t))) got
        ∙ ap (λ t. some (sent_round serve decode_done stored t)) sent
        ∙ ap
            (λ (r : Answer × List (List ℕ × List ℕ)).
              some (take_response decode_done task' r.0, r.1))
            (served stored n completed bytes (omega (arith, at, size, all)))
        ∙ ap
            (λ d. some (
              add_done task' d,
              store (name_of path) (old_content (name_of path) n stored ++ bytes) stored,
            ))
            (is_json.done_back (length bytes) fits)
        ∙ ap
            (λ t. some (
              some (task_at path local (n + length bytes) completed),
              store (name_of path) (t ++ bytes) stored,
            ))
            old

    -- The rest of the run, once a round is over.
    abbrev Found : Option UploadTask × List (List ℕ × List ℕ) → Type 0
    Found r =
        (r.0 ≡ some (task_at path local (length local) true))
        × (find (name_of path) r.1 ≡ some local)

    abbrev go_on :
        ℕ
        → UploadTask
        → List (List ℕ × List ℕ)
        → Option (Option UploadTask × List (List ℕ × List ℕ))
        → Option UploadTask × List (List ℕ × List ℕ)
    go_on rounds task stored over = elim over [
      | none ↦ (some task, stored)
      | some r ↦ elim r.0 [
        | none ↦ (none, r.1)
        | some next ↦ run_upload rounds read serve decode_done next r.1
      ]
    ]

    run-completed :
        (rounds n : ℕ) (stored : List (List ℕ × List ℕ))
        → run_upload rounds read serve decode_done (task_at path local n true) stored
          ≡ (some (task_at path local n true), stored)
    unfolding run_upload upload_round new_upload_request
    run-completed zero n stored = refl
    run-completed (suc rounds) n stored = refl

    -- What is in the file after a chunk, for a request that does not start at 0.
    kept_content :
        (name content : List ℕ) (n : ℕ) (stored : List (List ℕ × List ℕ))
        → 1 ≤ n
        → old_content name n (store name content stored) ≡ content
    unfolding old_content
    kept_content name content n stored h =
        let later : (n == 0) ≡ false = ground arith in
        if_false (n == 0) _ _ later
        ∙ ap (λ o. elim o [ none ↦ [] | some text ↦ text ]) (find-store name content stored)

    upload-from :
        (rounds n : ℕ) (front rest : List ℕ) (stored : List (List ℕ × List ℕ))
        → local ≡ front ++ rest
        → n ≡ length front
        → old_content (name_of path) n stored ≡ front
        → length rest < rounds
        → Found (run_upload rounds read serve decode_done (task_at path local n false) stored)
    unfolding run_upload
    upload-from zero n front rest stored e at old enough = absurd (omega (arith, enough))
    upload-from (suc rounds) n front [] stored e at old enough =
        let over =
          round-sent n front [] [] stored none true e at old (documented.at_end (1024 * 1024 * 10))
            (omega arith) refl in
        let all : local ≡ front ++ [] = e in
        let size : n + 0 ≡ length local = omega (arith, at, ap length (e ∙ append-nil front)) in
        let ended =
          ap (go_on rounds (task_at path local n false) stored) over
          ∙ run-completed rounds (n + 0) (store (name_of path) (front ++ []) stored) in
        subst (Found) (sym ended) (
          ap (λ (k : ℕ). some (task_at path local k true)) size,
          find-store (name_of path) (front ++ []) stored ∙ ap some (sym e),
        )
    upload-from (suc rounds) n front (b ∷ rest) stored e at old enough =
        let (k, got, few) = documented.before_end (1024 * 1024 * 10) b rest (omega arith) in
        let chunk = take (suc k) (b ∷ rest) in
        let left = drop (suc k) (b ∷ rest) in
        let over =
          round-sent n front (b ∷ rest) chunk stored (some chunk) false e at old got
            (omega (
              arith,
              ap length e,
              length-append front (b ∷ rest),
              length-append chunk left,
              ap length (take-append-drop (suc k) (b ∷ rest)),
            ))
            refl in
        let whole_is =
          e
          ∙ ap (λ t. front ++ t) (sym (take-append-drop (suc k) (b ∷ rest)))
          ∙ sym (append_assoc front chunk left) in
        subst (Found) (sym (ap (go_on rounds (task_at path local n false) stored) over)) (
          upload-from rounds (n + length chunk) (front ++ chunk) left
            (store (name_of path) (front ++ chunk) stored) whole_is
            (omega (arith, at, length-append front chunk))
            (kept_content (name_of path) (front ++ chunk) (n + length chunk) stored (omega arith))
            (omega (arith, enough, length-drop k rest)))

    -- An upload from the start, with one round more than the file has bytes: the task ends as
    -- completed, with all bytes counted, and the file on the server holds what the local file holds,
    -- whatever it held before and however many bytes each Read gives.
    pub upload_completes :
        (rounds : ℕ) (stored : List (List ℕ × List ℕ))
        → length local < rounds
        → let r = run_upload rounds read serve decode_done (upload_task path local) stored in
          (r.0
            ≡ some (record (upload_task path local) {
              uploaded_bytes = length local;
              completed = true;
            }))
          × (find (name_of path) r.1 ≡ some local)
    unfolding old_content
    upload_completes rounds stored enough =
        upload-from rounds 0 [] local stored refl refl refl enough
