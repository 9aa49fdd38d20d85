-- ===== src/Aws/S3.antt =====
-- src/modules/core/infra/integration/aws/S3.client.ts
-- The content of a file is a value that the client only passes on.
use node_ddd_boilerplate_typ.Aws.{AwsClient, caught_error, sent_list, sent_part, sent_status}
use node_ddd_boilerplate_typ.Base.{Bool, List, String, [], false, if◌then◌else◌, ℕ, ◌&&◌, ◌∷◌}
use node_ddd_boilerplate_typ.Effects.{Call, ok, pure, rethrow, throw, ◌>>=◌}
use node_ddd_boilerplate_typ.Exceptions.{exception, internal, with_message}
use node_ddd_boilerplate_typ.Platform.{Platform}
use node_ddd_boilerplate_typ.Value.{
  Fields, Value, end, field, get, is_null_or_undefined, str, truthy,
}

-- `uploadParams`
abbrev pub upload_params : String → String → Value → Value → Fields
upload_params bucket_name file_name content expiration_date =
    field "Bucket" (str bucket_name)
      (field "Key" (str file_name) (field "Body" content (field "Expires" expiration_date end)))

-- `getObjectParams`
abbrev pub get_object_params : String → String → Fields
get_object_params bucket_name object_key =
    field "Bucket" (str bucket_name) (field "Key" (str object_key) end)

-- The names of the buckets that have one.
abbrev pub bucket_names : List Value → List Value
bucket_names [] = []
bucket_names (b ∷ bs) =
    let rest = bucket_names bs in if truthy (get b "Name") then get b "Name" ∷ rest else rest

-- What `downloadFile` returns.
pub record Download : Type 0 where
  pub content : Value
  pub content_length : Value

module _ ⦃p : Platform⦄ {S : Type 0} (client : AwsClient S) where
  -- `listBuckets`
  unfoldable pub list_buckets : Call S (List Value)
  list_buckets = do
    buckets ← sent_list client "ListBuckets" end "Buckets"
    pure (bucket_names buckets)

  -- `createBucket`
  unfoldable pub create_bucket : String → Call S Value
  create_bucket bucket_name =
      sent_part client "CreateBucket" (field "Bucket" (str bucket_name) end) (λ r. get r "Location")
        "Bucket not created"

  -- `deleteBucket`
  unfoldable pub delete_bucket : String → Call S Bool
  delete_bucket bucket_name =
      sent_status client "DeleteBucket" (field "Bucket" (str bucket_name) end)

  -- `putBucketNotification`
  unfoldable pub put_bucket_notification : String → Value → Call S Bool
  put_bucket_notification bucket_name configuration =
      sent_status client "PutBucketNotificationConfiguration"
        (field "Bucket" (str bucket_name) (field "NotificationConfiguration" configuration end))

  -- `uploadFile`
  unfoldable pub upload_file : String → String → Value → Value → Call S Value
  upload_file bucket_name file_name content expiration_date =
      sent_part client "PutObject" (upload_params bucket_name file_name content expiration_date)
        (λ r. get r "ETag") "File not uploaded"

  -- `downloadFile` behind the answer.
  abbrev pub downloaded : Value → Call S Download
  downloaded result s =
      if truthy (get result "Body") && truthy (get result "ContentLength")
      then (
        ok (record { content = get result "Body"; content_length = get result "ContentLength" }),
        s,
      )
      else (throw (exception internal (with_message "Empty body") false), s)

  -- `downloadFile`
  unfoldable pub download_file : String → String → Call S Download
  download_file bucket_name object_key =
      rethrow
        (do
          result ← client.send "GetObject" (get_object_params bucket_name object_key)
          downloaded result)
        caught_error

  -- `getFileSignedUrl`, where the second argument is `getSignedUrl` of the library.
  unfoldable pub get_file_signed_url :
      ℕ → (String → Fields → ℕ → Call S String) → String → String → Call S String
  get_file_signed_url files_expiration get_signed_url bucket_name object_key =
      rethrow
        (get_signed_url "GetObject" (get_object_params bucket_name object_key) files_expiration)
        caught_error

  -- `deleteFile` behind the answer.
  abbrev pub deleted_marker : Value → Call S Value
  deleted_marker marker s =
      if is_null_or_undefined marker
      then (throw (exception internal (with_message "File not deleted") false), s)
      else (ok marker, s)

  -- `deleteFile`
  unfoldable pub delete_file : String → String → Call S Value
  delete_file bucket_name object_key =
      rethrow
        (do
          result ← client.send "DeleteObject" (get_object_params bucket_name object_key)
          deleted_marker (get result "DeleteMarker"))
        caught_error
