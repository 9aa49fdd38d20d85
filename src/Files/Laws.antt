-- ===== src/Files/Laws.antt =====
-- What goes wrong on the way of a file, and the type that it is given.
use node_ddd_boilerplate_typ.Base.{
  Bool-cases, List, Option, String, false, includes, inl, inr, none, refl, some, true, ◌≡◌,
}
use node_ddd_boilerplate_typ.Effects.{Result, ok, rethrow, settle, throw}
use node_ddd_boilerplate_typ.Exceptions.{contract, exception, status_of, with_message}
use node_ddd_boilerplate_typ.Files.{
  FileServices, RequestFile, accepted_or, download_file, file_error, get_file, upload_file,
}
use node_ddd_boilerplate_typ.Platform.{Platform}

module _ ⦃p : Platform⦄ {Bytes S : Type 0} (services : FileServices Bytes S) where
  -- An error is the internal one, with status 500.
  abbrev pub FailsInternal : {A : Type 0} → Result A → Type 0
  FailsInternal (ok a) = Unit
  FailsInternal (throw e) = status_of e ≡ some 500

  settle-FailsInternal :
      {A : Type 0} (r : Result A) (s : S) → FailsInternal (settle (file_error services) r s).0
  unfolding exception
  settle-FailsInternal (ok a) s = tt
  settle-FailsInternal (throw e) s = refl

  -- Whatever goes wrong in a download or an upload, the error that is thrown is the internal one,
  -- with status 500: also where the path is empty or the file is not found.
  pub file_errors :
      (name path header : Option String) (accept : String) (file : RequestFile) (s : S)
      → FailsInternal (download_file services name path accept s).0
        × FailsInternal (upload_file services file header accept s).0
  unfolding download_file upload_file rethrow
  file_errors name path accept header file s = (settle-FailsInternal _ _, settle-FailsInternal _ _)

  -- A path that is not given makes a download fail with status 500, whatever its name and type.
  pub download_file-no_path :
      (name : Option String) (accept : String) (s : S)
      → services.is_test_env ≡ false
      → download_file services name none accept s ≡ (
        throw (file_error services (exception contract (with_message "Invalid filePath") false)),
        s,
      )
  unfolding download_file get_file rethrow
  download_file-no_path name accept s real = rw real refl

  -- The type that an upload answers is one of the accepted ones, whatever the file and the header
  -- say.
  pub accepted_or-accepts :
      (types : List String) (other given : String)
      → includes types other ≡ true
      → includes types (accepted_or types other given) ≡ true
  accepted_or-accepts types other given accepted = elim (Bool-cases (includes types given)) [
    | inl h ↦ rw h h
    | inr h ↦ rw h accepted
  ]
