-- ===== src/Files/Tests.antt =====
-- The theorems on files with bytes that are texts and a storage of one file.
use node_ddd_boilerplate_typ.Files
use node_ddd_boilerplate_typ.Base.{
  List, String, [], false, if◌then◌else◌, is_empty_text, none, refl, some, ◌∷◌, ◌≡◌,
}
use node_ddd_boilerplate_typ.Effects.{Result, ok, throw}
use node_ddd_boilerplate_typ.Events.Example.{reading}
use node_ddd_boilerplate_typ.Exceptions.{Error, plain, with_message}
use node_ddd_boilerplate_typ.Files.{
  Content, FileServices, RequestFile, download_file, full_file_name, of_bytes, upload_file,
}
use node_ddd_boilerplate_typ.Files.Laws.{FailsInternal, file_errors}
use node_ddd_boilerplate_typ.Value.{null}

abbrev missing : Error
missing = record { info = with_message "missing"; origin = plain }

abbrev fetched : List String → Result (Content String) × List String
fetched [] = (throw missing, [])
fetched (b ∷ bs) = (ok (of_bytes b), b ∷ bs)

abbrev one_file : FileServices String (List String)
one_file = record {
  buffers = record {
    from_text = λ t encoding. t;
    concat_bytes = λ bs. "";
    size = λ b. if is_empty_text b then 0 else 1;
  };
  read_text = λ path encoding s. ok "content";
  store = λ path b s. (ok "tag", b ∷ s);
  fetch = λ path s. fetched s;
  trim = λ t. t;
  to_ascii = λ t. t;
  is_test_env = false;
  type_error = missing;
}

abbrev upload : RequestFile
upload = record { mimetype = some "text/csv"; path = "temp/1"; originalname = "a.b.csv" }

file_errors_example :
    FailsInternal ⦃p = reading null⦄ one_file
      (Files.download_file ⦃p = reading null⦄ one_file none none "text/plain" []).0
    × FailsInternal ⦃p = reading null⦄ one_file
        (Files.upload_file ⦃p = reading null⦄ one_file upload none "text/plain" []).0
file_errors_example = file_errors ⦃p = reading null⦄ one_file none none none "text/plain" upload []

-- The name of an upload is the first part of the header's, with the last part of the file's own.
full_file_name_test :
    full_file_name ⦃p = reading null⦄ one_file "report.old.txt" upload ≡ "report.csv"
full_file_name_test = refl
