-- ===== src/Files.antt =====
-- src/modules/app/file, src/modules/app/reports, src/modules/common/utils/helpers/FileReader.helper.ts
-- and the content types of src/modules/common/constants/ContentType.constants.ts.
pub mod Laws
mod Tests
use Prim.Native.Char.{code}
use node_ddd_boilerplate_typ.Aws.{contains}
use node_ddd_boilerplate_typ.Base.{
  Bool, List, Option, String, [], concat, eqb, false, if◌then◌else◌, includes, is_empty_text, none,
  some, ℕ, ◌||◌, ◌∷◌,
}
use node_ddd_boilerplate_typ.Effects.{
  Call, Result, ok, pure, raise, raise_if, reads, rethrow, throw, ◌>>=◌, ◌>>◌,
}
use node_ddd_boilerplate_typ.Exceptions.{
  Error, contract, exception, internal, not_found, with_message,
}
use node_ddd_boilerplate_typ.Platform.{Platform}
use node_ddd_boilerplate_typ.Users.Service.{or_text}

-- The contents with an encoding of text, and those of a binary.
abbrev pub text_contents : List String
text_contents = "text/plain" ∷ "text/csv" ∷ "text/xml" ∷ "application/json" ∷ []

abbrev pub binaries_contents : List String
binaries_contents =
    "application/pdf" ∷ "application/zip" ∷ "image/gif" ∷ "image/jpeg" ∷ "image/png"
    ∷ "image/svg+xml" ∷ "audio/mpeg" ∷ "audio/x-wav" ∷ "video/mpeg" ∷ "video/mp4" ∷ "video/webm"
    ∷ []

-- `binariesExtensions`
abbrev pub binaries_extensions : List String
binaries_extensions =
    "gif" ∷ "jpeg" ∷ "jpg" ∷ "png" ∷ "svg" ∷ "mp3" ∷ "mp4" ∷ "wav" ∷ "mov" ∷ "wmv" ∷ []

-- `binariesExtensions.some((extension) => fileName.includes(extension))`
abbrev pub any_part : List String → String → Bool
any_part [] file_name = false
any_part (e ∷ es) file_name = contains e file_name || any_part es file_name

-- `defineEncoding`, with an empty text for a content type that is not given.
unfoldable pub define_encoding : String → String → String
define_encoding file_name content_type =
    if includes text_contents content_type
    then "utf8"
    else if includes binaries_contents content_type
    then "binary"
    else if any_part binaries_extensions file_name
    then "binary"
    else "utf8"

-- The content types that an upload and a download accept.
abbrev pub upload_types : List String
upload_types =
    "text/plain" ∷ "text/csv" ∷ "text/xml" ∷ "application/pdf" ∷ "application/json"
    ∷ "application/zip" ∷ "image/gif" ∷ "image/jpeg" ∷ "image/png" ∷ "image/svg+xml" ∷ "audio/mpeg"
    ∷ "audio/x-wav" ∷ "video/mpeg" ∷ "video/mp4" ∷ "video/webm" ∷ "multipart/form-data" ∷ []

abbrev pub download_types : List String
download_types = "application/octet-stream" ∷ "text/plain" ∷ []

abbrev pub accepted_or : List String → String → String → String
accepted_or types other given = if includes types given then given else other

-- The content of a file as the storage has it: bytes, a text, a stream of chunks that may break, or
-- something else.
pub data Content (Bytes : Type 0) : Type 0 where
  of_bytes : Bytes → Content Bytes
  of_text : String → Content Bytes
  of_stream : Result (List Bytes) → Content Bytes
  unsupported : Content Bytes

-- `Buffer` of the run time.
pub record Buffers (Bytes : Type 0) : Type 0 where
  pub from_text : String → String → Bytes
  pub concat_bytes : List Bytes → Bytes
  pub size : Bytes → ℕ

-- The parts that the services use: the file system, and the two methods of the storage's client on
-- the bucket of the uploads.
pub record FileServices (Bytes S : Type 0) : Type 0 where
  pub buffers : Buffers Bytes
  pub read_text : String → String → S → Result String
  pub store : String → Bytes → Call S String
  pub fetch : String → Call S (Content Bytes)
  -- `text.trim()`
  pub trim : String → String
  -- `changeBufferEncoding(text, 'utf8', 'ascii')`
  pub to_ascii : String → String
  pub is_test_env : Bool
  -- The error of reading a property of a missing value.
  pub type_error : Error

-- `RequestFileInterface`
pub record RequestFile : Type 0 where
  pub mimetype : Option String
  pub path : String
  pub originalname : String

pub record Uploaded : Type 0 where
  pub file_path : String
  pub upload_tag : String

pub record UploadAnswer : Type 0 where
  pub uploaded : Uploaded
  pub file_content_type : String

pub record DownloadAnswer (Bytes : Type 0) : Type 0 where
  pub content_type : String
  pub file_name : String
  pub content : Bytes

-- The first part of `text.split('.')`, and the last one.
abbrev pub first_part : String → String
first_part String.[] = String.[]
first_part (String.◌∷◌ c s) =
    let rest = first_part s in if eqb (code c) b'.' then String.[] else String.◌∷◌ c rest

abbrev pub has_dot : String → Bool
has_dot String.[] = false
has_dot (String.◌∷◌ c s) = eqb (code c) b'.' || has_dot s

abbrev pub last_part : String → String
last_part String.[] = String.[]
last_part (String.◌∷◌ c s) =
    let rest = last_part s in
    if has_dot s then rest else if eqb (code c) b'.' then s else String.◌∷◌ c s

abbrev pub text_or_empty : Result String → String
text_or_empty (ok t) = t
text_or_empty (throw e) = ""

module _ ⦃p : Platform⦄ {Bytes S : Type 0} (services : FileServices Bytes S) where
  -- The error of the file service: only the message is kept.
  abbrev pub file_error : Error → Error
  file_error e = exception internal (with_message e.message) false

  -- `parseToBuffer`
  abbrev pub parse_to_buffer : Content Bytes → String → Result Bytes
  parse_to_buffer (of_bytes b) encoding = ok b
  parse_to_buffer (of_text t) encoding = ok (services.buffers.from_text t encoding)
  parse_to_buffer (of_stream (ok chunks)) encoding = ok (services.buffers.concat_bytes chunks)
  parse_to_buffer (of_stream (throw e)) encoding = throw e
  parse_to_buffer unsupported encoding =
      throw (exception internal (with_message "Unsupported content type") false)

  -- `readFile`, whose missing content is the empty text for its caller.
  abbrev pub read_file : String → String → S → String
  read_file path encoding s = text_or_empty (services.read_text path encoding s)

  -- `if (isValidFile) uploadTag = await uploadFile(...)`
  abbrev pub store_if_given : String → Bytes → Call S Uploaded
  store_if_given file_path b s =
      if eqb (services.buffers.size b) 0
      then (ok (record { file_path = file_path; upload_tag = "" }), s)
      else (do
        tag ← services.store file_path b
        pure (record { file_path = file_path; upload_tag = tag }))
          s

  -- `UploadService.uploadFile`
  unfoldable pub store_upload : String → RequestFile → Call S Uploaded
  store_upload file_name file s =
      let encoding = define_encoding file_name (or_text file.mimetype "") in
      store_if_given (concat "upload/reports/" file_name)
        (services.buffers.from_text (read_file file.path encoding s) encoding) s

  -- `if (!content) throw notFound`
  abbrev pub found_content : Content Bytes → Result (Content Bytes)
  found_content (of_text t) =
      if is_empty_text t
      then throw (exception not_found (with_message "File not founded!") false)
      else ok (of_text t)
  found_content content = ok content

  -- `UploadService.getFile`
  unfoldable pub get_file : String → Call S Bytes
  get_file file_path = do
    raise_if (is_empty_text file_path) (exception contract (with_message "Invalid filePath") false)
    fetched ← services.fetch file_path
    content ← reads (λ s. found_content fetched)
    reads (λ s. parse_to_buffer content (define_encoding file_path ""))

  -- The content of `downloadFile`; in the test environment it is a fixed one.
  abbrev pub content_of : String → Call S Bytes
  content_of file_path s =
      if services.is_test_env
      then (ok (services.buffers.from_text "TEST CONTENT" "ascii"), s)
      else get_file file_path s

  -- `FileService.downloadFile`
  unfoldable pub download_file :
      Option String → Option String → String → Call S (DownloadAnswer Bytes)
  download_file file_name_header file_path_header accept_header =
      rethrow
        (do
          content ← content_of (or_text file_path_header "")
          pure (record {
            content_type = accepted_or download_types "application/octet-stream" accept_header;
            file_name = or_text file_name_header "file";
            content = content;
          }))
        file_error

  -- The name under which a file is uploaded.
  abbrev pub full_file_name : String → RequestFile → String
  full_file_name file_name_header file =
      concat
        (services.to_ascii (
          first_part (
            services.trim
              (if is_empty_text file_name_header then file.originalname else file_name_header))))
        (concat "." (services.to_ascii (last_part (services.trim file.originalname))))

  -- The upload of `uploadFile`; in the test environment nothing is stored.
  abbrev pub upload_as : String → RequestFile → Call S Uploaded
  upload_as name file s =
      if services.is_test_env
      then (ok (record { file_path = concat "upload/reports/" name; upload_tag = "" }), s)
      else store_upload name file s

  -- The upload under the name of the header: `length` of a missing header throws.
  abbrev pub upload_named : Option String → RequestFile → Call S Uploaded
  upload_named none file = raise services.type_error
  upload_named (some header) file = upload_as (full_file_name header file) file

  -- `FileService.uploadFile`
  unfoldable pub upload_file : RequestFile → Option String → String → Call S UploadAnswer
  upload_file file file_name_header accept_header =
      rethrow
        (do
          uploaded ← upload_named file_name_header file
          pure (record {
            uploaded = uploaded;
            file_content_type =
                accepted_or upload_types "text/plain" (or_text file.mimetype accept_header);
          }))
        file_error

  -- `FileController.downloadFile`: the content and the two headers of the answer.
  abbrev pub download_route :
      Option String → Option String → String → Call S (Bytes × String × String)
  download_route file_name_header file_path_header accept_header = do
    answer ← download_file file_name_header file_path_header accept_header
    pure (
      answer.content,
      answer.content_type,
      concat "attachment; filename=\"" (concat answer.file_name "\""),
    )
