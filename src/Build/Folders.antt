-- ===== src/Build/Folders.antt =====
-- ton_client/build-lib.js, `deleteFolderRecursive`: the calls that it makes of node's fs. A path
-- is the list of its parts, below the folder that holds the one to be deleted.
pub mod Empties
use ton_sdk.Base.{Text, Bool, true, false, Option, none, some, List, [], ◌∷◌, ◌++◌}

-- The folder tree. What is no directory, a link included, is a file here.
mutual
  pub data Node : Type 0 where
    file : Node
    dir : Entries → Node

  pub data Entries : Type 0 where
    no_entries : Entries
    entry : Text → Node → Entries → Entries

pub data Kind : Type 0 where
  unlink rmdir : Kind

pub record Call : Type 0 where
  pub kind : Kind
  pub path : List Text

abbrev pub call : Kind → List Text → Call
call k p = record { kind = k; path = p }

-- The loop over `files`, and one round of it.
unfoldable mutual
  pub delete_files : List Text → Entries → List Call
  delete_files path no_entries = []
  delete_files path (entry name node es) =
      delete_file (path ++ name ∷ []) node ++ delete_files path es

  pub delete_file : List Text → Node → List Call
  delete_file path file = call unlink path ∷ []
  delete_file path (dir es) = delete_files path es ++ call rmdir path ∷ []

-- `none`: the path does not exist.
unfoldable pub delete_folder_recursive : List Text → Option Entries → List Call
unfolding delete_files
delete_folder_recursive path none = []
delete_folder_recursive path (some es) = delete_files path es ++ call rmdir path ∷ []
