-- ===== src/ClientV1/LocalItems/Folders.antt =====
-- src/qt/client/internal/local_client/FolderImpl.cpp, FileImpl.cpp and RootImpl.cpp: what is asked of
-- folders, of files and of roots.
use storage_framework.Base.{
  ℕ, Bool, true, false, not, ◌&&◌, ◌||◌, List, [], ◌∷◌, ◌++◌, if◌then◌else◌, leb, length,
}
use storage_framework.Base.Text.{Text, text, text_eq}
use storage_framework.Base.Int.{ℤ, pos, ltb_ℤ, ◌-ℤ◌}
use storage_framework.Base.Common.{ItemType, file, folder, root}
use storage_framework.Local.FileSystem.{FileSystem, FileStatus, is_directory, is_regular_file}
use storage_framework.ClientV1.Exceptions.{StorageException, invalid_argument, not_exists}
use storage_framework.ClientV1.World.{
  Object, ◌>>=◌, ◌>>◌, pure, look, act, throw_if, deref, native_identity, storage_exception,
  storage_exception_for, try_,
}
use storage_framework.ClientV1.LocalItems.{
  Env, Call, make_object, is_reserved_path, sanitize, throw_if_reserved, throw_if_exists, alive,
}

-- What `boost::filesystem::path` tells of a path: whether it is absolute, and its components.
pub record Paths : Type 0 where
  pub is_absolute : Text → Bool
  pub components : Text → List Text

abbrev pub prefix_of : List Text → List Text → Bool
prefix_of [] ys = true
prefix_of (x ∷ xs) [] = false
prefix_of (x ∷ xs) (y ∷ ys) = text_eq x y && prefix_of xs ys

-- An uploader is made with these arguments, `file` being the object of the file or null.
pub record UploaderArgs : Type 0 where
  pub for_file : Bool
  pub size : ℤ
  pub path : Text
  pub overwrite : Bool

-- The name that a file's own version gives the method, and the version of folders.
abbrev pub name_method : ItemType → Text
name_method file = text "File::name()"
name_method _ = text "Item::name()"

module _ (fs : FileSystem) (env : Env fs) where
  unfoldable pub made_entry : ItemType → Object → Text → List ℕ → Call fs env (List ℕ)
  made_entry type this e results = do i ← make_object fs env type e this; pure (results ++ i ∷ [])

  -- One round of the loop of `list`.
  unfoldable pub add_entry : Object → Text → List ℕ → Call fs env (List ℕ)
  add_entry this e results = do
    st ← look (λ s. fs.status s e)
    if is_reserved_path fs env e
        then pure results
        else if is_directory st
        then made_entry folder this e results
        else if is_regular_file st
        then made_entry file this e results
        else pure results

  unfoldable pub add_entries : Object → List Text → List ℕ → Call fs env (List ℕ)
  add_entries this [] results = pure results
  add_entries this (e ∷ es) results = do more ← add_entry this e results; add_entries this es more

  unfoldable pub list_task : ℕ → Call fs env (List ℕ)
  list_task i = do
    this ← alive fs env (text "Folder::list()") i
    try_ (storage_exception env.what (text "Folder::list()"))
        (do dir ← native_identity this; es ← look (λ s. fs.entries s dir); add_entries this es [])

  unfoldable pub list : ℕ → Call fs env (List ℕ)
  list i = do this ← alive fs env (text "Folder::list()") i; list_task i

  unfoldable pub no_such_item : Text → StorageException
  no_such_item name =
      not_exists (text "Folder::lookup(): no such item: \"" ++ (name ++ text "\"")) name

  -- What `lookup` finds at a path.
  unfoldable pub object_at : Object → Text → StorageException → FileStatus → Call fs env ℕ
  object_at this p missing st =
      if is_directory st
      then make_object fs env folder p this
      else if is_regular_file st
      then make_object fs env file p this
      else (throw_if true missing >> pure 0)

  unfoldable pub lookup_task : ℕ → Text → Call fs env (List ℕ)
  lookup_task i name = do
    this ← alive fs env (text "Folder::lookup()") i
    try_ (storage_exception env.what (text "Folder::lookup()")) (do
      dir ← native_identity this
      n ← sanitize fs env name (text "Folder::lookup()")
      throw_if (is_reserved_path fs env n) (no_such_item name)
      st ← look (λ s. fs.status s (fs.append dir n))
      o ← object_at this (fs.append dir n) (no_such_item name) st
      pure (o ∷ []))

  unfoldable pub lookup : ℕ → Text → Call fs env (List ℕ)
  lookup i name = do this ← alive fs env (text "Folder::lookup()") i; lookup_task i name

  -- The path of a new item, for which there must be nothing yet.
  unfoldable pub new_path : Text → Object → Text → Call fs env Text
  new_path method this name = do
    dir ← native_identity this
    n ← sanitize fs env name method
    throw_if_reserved fs env method n
    throw_if_exists fs env method (fs.append dir n) name (dir ++ (text "/" ++ name)) name
    pure (fs.append dir n)

  unfoldable pub create_folder : ℕ → Text → Call fs env ℕ
  create_folder i name = do
    this ← alive fs env (text "Folder::create_folder()") i
    try_ (storage_exception env.what (text "Folder::create_folder()")) (do
      p ← new_path (text "Folder::create_folder()") this name
      act (λ s. fs.create_directory s p)
      make_object fs env folder p this)

  unfoldable pub create_file : ℕ → Text → ℤ → Call fs env UploaderArgs
  create_file i name size = do
    this ← alive fs env (text "Folder::create_file()") i
    throw_if (ltb_ℤ size (pos 0))
        (invalid_argument (text "Folder::create_file(): size must be >= 0"))
    try_ (storage_exception env.what (text "Folder::create_file()")) (do
      p ← new_path (text "Folder::create_file()") this name
      pure (record { for_file = false; size = size; path = p; overwrite = false }))

  unfoldable pub name : ℕ → Call fs env Text
  name i = do
    first ← deref i
    this ← alive fs env (name_method first.type) i
    pure (elim this.type [ root ↦ [] | _ ↦ this.name ])

  unfoldable pub size : ℕ → Call fs env ℕ
  size i = do
    this ← alive fs env (text "File::size()") i
    try_ (storage_exception env.what (text "File::size()"))
        (look (λ s. fs.file_size s this.identity))

  unfoldable pub create_uploader : ℕ → Bool → ℤ → Call fs env UploaderArgs
  create_uploader i overwrite size = do
    this ← alive fs env (text "File::create_uploader()") i
    throw_if (ltb_ℤ size (pos 0))
        (invalid_argument (text "File::create_uploader(): size must be >= 0"))
    pure (record { for_file = true; size = size; path = this.identity; overwrite = overwrite })

  -- The name of the file that the downloader reads.
  unfoldable pub create_downloader : ℕ → Call fs env Text
  create_downloader i = do
    this ← alive fs env (text "File::create_downloader()") i
    native_identity this

  -- `RootImpl`.
  unfoldable pub free_space_bytes : ℕ → Call fs env ℕ
  free_space_bytes i = do
    this ← alive fs env (text "Root::free_space_bytes()") i
    try_ (storage_exception env.what (text "Root::free_space_bytes()"))
        (do si ← look (λ s. fs.space s this.identity); pure si.available)

  unfoldable pub used_space_bytes : ℕ → Call fs env ℤ
  used_space_bytes i = do
    this ← alive fs env (text "Root::used_space_bytes()") i
    try_ (storage_exception env.what (text "Root::used_space_bytes()"))
        (do si ← look (λ s. fs.space s this.identity); pure (pos si.capacity -ℤ pos si.available))

  module _ (paths : Paths) where
    outside : Text → StorageException
    outside id =
        invalid_argument
          (text "Root::get(): identity \"" ++ (id ++ text "\" points outside the root folder"))

    not_absolute : Text → StorageException
    not_absolute id =
        invalid_argument
          (text "Root::get(): identity \"" ++ (id ++ text "\" must be an absolute path"))

    missing : Text → StorageException
    missing id = not_exists (text "Root::get(): no such item: \"" ++ (id ++ text "\"")) id

    -- Too few components, or a component that is another.
    unfoldable pub is_outside : Text → Text → Bool
    is_outside root_path p =
        not (leb (length (paths.components root_path)) (length (paths.components p)))
        || not (prefix_of (paths.components root_path) (paths.components p))

    unfoldable pub get : ℕ → Text → Call fs env ℕ
    unfolding outside not_absolute missing
    get i id = do
      this ← alive fs env (text "Root::get()") i
      try_ (storage_exception_for env.what (text "Root::get()") id) (do
        throw_if (not (paths.is_absolute id)) (not_absolute id)
        p ← look (λ s. fs.canonical s id)
        throw_if (is_outside this.identity p) (outside id)
        throw_if (is_reserved_path fs env p) (missing id)
        st ← look (λ s. fs.status s p)
        if is_directory st && text_eq p this.identity
            then make_object fs env root p this
            else object_at this p (missing id) st)
