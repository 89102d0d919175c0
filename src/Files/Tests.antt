-- ===== src/Files/Tests.antt =====
-- Reads that give one byte, small files, and the theorems applied to them.
use iip.Prelude.{ℕ, ◌≡◌, refl, Bool, true, false, List, [], ◌∷◌, Option, none, some, ◌==◌, arith}
use iip.Prelude.Texts.{find}
use iip.Files.{FileRead, IsRead, DownloadRequest, run_download}
use iip.Files.Uploads.{UploadMeta, run_upload}
use iip.Files.Download.{new_task, serve, download_completes}
use iip.Files.Upload
use iip.Files.Upload.{upload_task, upload_completes}

abbrev one_byte : FileRead
one_byte most [] = none
one_byte most (b ∷ rest) = some (b ∷ [])

one_byte-IsRead : IsRead one_byte
one_byte-IsRead = record { at_end = λ most. refl; before_end = λ most b rest h. (0, refl, h) }

-- Requests as lists of numbers, in place of JSON: the position, and the path behind it.
abbrev encode_request : DownloadRequest → List ℕ
encode_request req = req.start_pos ∷ req.file_path

abbrev decode_request : List ℕ → Option DownloadRequest
decode_request [] = none
decode_request (n ∷ path) = some (record { file_path = path; start_pos = n })

abbrev one_file : List ℕ → Option (List ℕ)
one_file path = some (7 ∷ 8 ∷ 9 ∷ [])

download_completes_example :
    run_download 4
      (serve one_byte (1 ∷ []) (7 ∷ 8 ∷ 9 ∷ []) one_file decode_request encode_request)
      (new_task (1 ∷ []))
    ≡ record (new_task (1 ∷ [])) {
      local_file = 7 ∷ 8 ∷ 9 ∷ [];
      downloaded_bytes = 3;
      completed = true;
    }
download_completes_example =
    download_completes one_byte (1 ∷ []) (7 ∷ 8 ∷ 9 ∷ []) one_file decode_request encode_request
      one_byte-IsRead refl (λ n inside. refl) 4 (omega arith)

-- Meta data as two numbers, for the path 1.
abbrev flag : Bool → ℕ
flag true = 1
flag false = 0

abbrev encode_meta : UploadMeta → List ℕ
encode_meta meta = meta.start_pos ∷ flag meta.completed ∷ []

abbrev decode_meta : List ℕ → Option UploadMeta
decode_meta (n ∷ (done ∷ rest)) =
    some (record { file_path = 1 ∷ []; start_pos = n; completed = done == 1 })
decode_meta _ = none

abbrev decode_number : List ℕ → Option ℕ
decode_number [] = none
decode_number (n ∷ rest) = some n

meta_back :
    (n : ℕ) (completed : Bool)
    → decode_meta
        (encode_meta (record { file_path = 1 ∷ []; start_pos = n; completed = completed }))
      ≡ some (record { file_path = 1 ∷ []; start_pos = n; completed = completed })
meta_back n true = refl
meta_back n false = refl

-- A file under that name is there already.
upload_completes_example :
    let r =
      run_upload 4 one_byte
        (Upload.serve one_byte
          (λ path. path)
          encode_meta
          decode_meta
          (λ n. n ∷ [])
          decode_number
          (1 ∷ [])
          (7 ∷ 8 ∷ 9 ∷ []))
        decode_number
        (upload_task (1 ∷ []) (7 ∷ 8 ∷ 9 ∷ []))
        ((1 ∷ [], 5 ∷ []) ∷ []) in
    (r.0
      ≡ some
          (record (upload_task (1 ∷ []) (7 ∷ 8 ∷ 9 ∷ [])) { uploaded_bytes = 3; completed = true }))
    × (find (1 ∷ []) r.1 ≡ some (7 ∷ 8 ∷ 9 ∷ []))
upload_completes_example =
    upload_completes one_byte (λ path. path) encode_meta decode_meta (λ n. n ∷ []) decode_number
      (1 ∷ []) (7 ∷ 8 ∷ 9 ∷ []) one_byte-IsRead
      (record {
        meta_back = λ n completed h. meta_back n completed;
        meta_size = λ n completed h. (omega arith, omega arith);
        done_back = λ n h. refl;
      })
      4 ((1 ∷ [], 5 ∷ []) ∷ []) (omega arith)
