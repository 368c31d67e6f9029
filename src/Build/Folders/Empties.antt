-- ===== src/Build/Folders/Empties.antt =====
-- The calls of `deleteFolderRecursive`, carried out: fs removes a file by `unlink`, a directory by
-- `rmdir` when it has no entries, and throws at anything else.
use ton_sdk.Base.{
  Text, Bool, true, false, Option, none, some, List, [], ◌∷◌, ◌++◌, if◌then◌else◌, same, same_refl,
  ◌≡◌, refl, sym, ◌∙◌, ap, map, All, All-append, map-append,
}
use ton_sdk.Build.Folders.{
  Node, Entries, file, dir, no_entries, entry, Kind, unlink, rmdir, Call, call, delete_files,
  delete_file, delete_folder_recursive,
}

abbrev may_remove : Kind → Node → Bool
may_remove unlink file = true
may_remove rmdir (dir no_entries) = true
may_remove _ _ = false

abbrev pub and_then {ℓ κ} : {A : Type ℓ} {B : Type κ} → (A → Option B) → Option A → Option B
and_then f none = none
and_then f (some a) = f a

unfoldable pub remove_entry : Kind → Text → Entries → Option Entries
remove_entry k n no_entries = none
remove_entry k n (entry x t es) =
    let rest = remove_entry k n es in
    if same x n
    then if may_remove k t then some es else none
    else and_then (λ r. some (entry x t r)) rest

abbrev in_dir : (Entries → Option Entries) → Node → Option Node
in_dir f file = none
in_dir f (dir es) = and_then (λ r. some (dir r)) (f es)

unfoldable pub in_entry : Text → (Entries → Option Entries) → Entries → Option Entries
in_entry n f no_entries = none
in_entry n f (entry x t es) =
    let rest = in_entry n f es in
    if same x n
    then and_then (λ r. some (entry x r es)) (in_dir f t)
    else and_then (λ r. some (entry x t r)) rest

-- One call, at a path below the entries.
unfoldable pub perform : Kind → List Text → Entries → Option Entries
unfolding remove_entry in_entry
perform k [] es = none
perform k (n ∷ []) es = remove_entry k n es
perform k (n ∷ m ∷ p) es = in_entry n (perform k (m ∷ p)) es

unfoldable pub replay : List Call → Entries → Option Entries
unfolding perform
replay [] es = some es
replay (c ∷ cs) es = and_then (replay cs) (perform c.kind c.path es)

abbrev under : Text → Call → Call
under n c = call c.kind (n ∷ c.path)

abbrev IsCons : List Text → Type 0
IsCons [] = ⊥
IsCons (n ∷ p) = Unit

abbrev IsProper : Call → Type 0
IsProper c = IsCons c.path

mutual
  unfolding delete_files

  delete_files-under :
      (n : Text) (p : List Text) (es : Entries)
      → delete_files (n ∷ p) es ≡ map (under n) (delete_files p es)
  delete_files-under n p no_entries = refl
  delete_files-under n p (entry x t es) =
      ap (λ l. l ++ delete_files (n ∷ p) es) (delete_file-under n (p ++ x ∷ []) t)
      ∙ ap (λ l. map (under n) (delete_file (p ++ x ∷ []) t) ++ l) (delete_files-under n p es)
      ∙ sym (map-append (under n) (delete_file (p ++ x ∷ []) t) (delete_files p es))

  delete_file-under :
      (n : Text) (p : List Text) (t : Node)
      → delete_file (n ∷ p) t ≡ map (under n) (delete_file p t)
  delete_file-under n p file = refl
  delete_file-under n p (dir es) =
      ap (λ l. l ++ call rmdir (n ∷ p) ∷ []) (delete_files-under n p es)
      ∙ sym (map-append (under n) (delete_files p es) (call rmdir p ∷ []))

mutual
  unfolding delete_files

  delete_files-IsProper :
      (x : Text) (p : List Text) (es : Entries) → All IsProper (delete_files (x ∷ p) es)
  delete_files-IsProper x p no_entries = tt
  delete_files-IsProper x p (entry n t es) =
      All-append IsProper (delete_file (x ∷ (p ++ n ∷ [])) t) (delete_files (x ∷ p) es)
        (delete_file-IsProper x (p ++ n ∷ []) t) (delete_files-IsProper x p es)

  delete_file-IsProper :
      (x : Text) (p : List Text) (t : Node) → All IsProper (delete_file (x ∷ p) t)
  delete_file-IsProper x p file = (tt, tt)
  delete_file-IsProper x p (dir es) =
      All-append IsProper (delete_files (x ∷ p) es) (call rmdir (x ∷ p) ∷ [])
        (delete_files-IsProper x p es) (tt, tt)

delete_files-top-IsProper : (es : Entries) → All IsProper (delete_files [] es)
unfolding delete_files
delete_files-top-IsProper no_entries = tt
delete_files-top-IsProper (entry n t es) =
    All-append IsProper (delete_file (n ∷ []) t) (delete_files [] es) (delete_file-IsProper n [] t)
      (delete_files-top-IsProper es)

module _ {ℓ} {A B C : Type ℓ} where
  and_then_comp :
      (f : A → Option C) (g : B → Option C) (h : A → Option B)
      → ((a : A) → f a ≡ and_then g (h a))
      → (o : Option A) → and_then f o ≡ and_then g (and_then h o)
  and_then_comp f g h e none = refl
  and_then_comp f g h e (some a) = e a

  and_then_swap :
      {D : Type ℓ} (f : B → Option D) (g : A → Option B) (h : C → Option D) (k : A → Option C)
      → ((a : A) → and_then f (g a) ≡ and_then h (k a))
      → (o : Option A) → and_then f (and_then g o) ≡ and_then h (and_then k o)
  and_then_swap f g h k e none = refl
  and_then_swap f g h k e (some a) = e a

replay-append :
    (cs ds : List Call) (es : Entries) → replay (cs ++ ds) es ≡ and_then (replay ds) (replay cs es)
unfolding replay
replay-append [] ds es = refl
replay-append (c ∷ cs) ds es =
    and_then_comp (replay (cs ++ ds)) (replay ds) (replay cs) (replay-append cs ds)
      (perform c.kind c.path es)

-- The folder `x` in place of the first entry.
abbrev folder : Text → Entries → Entries → Entries
folder x es r = entry x (dir r) es

perform-under :
    (x : Text) (k : Kind) (p : List Text) (fs es : Entries)
    → IsCons p
    → perform k (x ∷ p) (folder x es fs) ≡ and_then (λ r. some (folder x es r)) (perform k p fs)
unfolding perform in_entry
perform-under x k [] fs es h = absurd h
perform-under x k (n ∷ p) fs es h = rw (same_refl x) (go (perform k (n ∷ p) fs))
  where
    go :
        (o : Option Entries)
        → and_then (λ r. some (entry x r es)) (and_then (λ r. some (dir r)) o)
          ≡ and_then (λ r. some (folder x es r)) o
    go none = refl
    go (some r) = refl

replay-under :
    (x : Text) (cs : List Call) (fs es : Entries)
    → All IsProper cs
    → replay (map (under x) cs) (folder x es fs)
      ≡ and_then (λ r. some (folder x es r)) (replay cs fs)
unfolding replay
replay-under x [] fs es h = refl
replay-under x (c ∷ cs) fs es h =
    ap (and_then (replay (map (under x) cs))) (perform-under x c.kind c.path fs es h.0)
    ∙ and_then_swap (replay (map (under x) cs)) (λ r. some (folder x es r))
        (λ r. some (folder x es r)) (replay cs) (λ r. replay-under x cs r es h.1)
        (perform c.kind c.path fs)

replay-nil : (es : Entries) → replay [] es ≡ some es
unfolding replay
replay-nil es = refl

replay-unlink :
    (x : Text) (es : Entries) → replay (call unlink (x ∷ []) ∷ []) (entry x file es) ≡ some es
unfolding replay perform remove_entry
replay-unlink x es = rw (same_refl x)

replay-rmdir :
    (x : Text) (es : Entries) → replay (call rmdir (x ∷ []) ∷ []) (folder x es no_entries) ≡ some es
unfolding replay perform remove_entry
replay-rmdir x es = rw (same_refl x)

mutual
  unfolding delete_files

  replay-delete_files : (es : Entries) → replay (delete_files [] es) es ≡ some no_entries
  replay-delete_files no_entries = replay-nil no_entries
  replay-delete_files (entry x t es) =
      replay-append (delete_file (x ∷ []) t) (delete_files [] es) (entry x t es)
      ∙ ap (and_then (replay (delete_files [] es))) (replay-delete_file x t es)
      ∙ replay-delete_files es

  replay-delete_file :
      (x : Text) (t : Node) (es : Entries)
      → replay (delete_file (x ∷ []) t) (entry x t es) ≡ some es
  replay-delete_file x file es = replay-unlink x es
  replay-delete_file x (dir fs) es =
      replay-append (delete_files (x ∷ []) fs) (call rmdir (x ∷ []) ∷ []) (folder x es fs)
      ∙ ap (and_then (replay (call rmdir (x ∷ []) ∷ []))) (
          ap (λ cs. replay cs (folder x es fs)) (delete_files-under x [] fs)
          ∙ replay-under x (delete_files [] fs) fs es (delete_files-top-IsProper fs)
          ∙ ap (and_then (λ r. some (folder x es r))) (replay-delete_files fs))
      ∙ replay-rmdir x es

-- The calls that delete a folder can all be carried out in their order: none removes what is not
-- there, a file by `rmdir`, or a directory that still has entries. When they have been, the folder
-- and all that was in it is gone, and its neighbours are as they were.
pub replay-delete_folder_recursive :
    (x : Text) (fs es : Entries)
    → replay (delete_folder_recursive (x ∷ []) (some fs)) (folder x es fs) ≡ some es
unfolding delete_folder_recursive
replay-delete_folder_recursive x fs es = unfold delete_files in replay-delete_file x (dir fs) es
