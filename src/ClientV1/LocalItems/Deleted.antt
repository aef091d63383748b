-- ===== src/ClientV1/LocalItems/Deleted.antt =====
-- Objects of the local client whose item was deleted: src/qt/client/internal/local_client/ItemImpl.cpp,
-- src/qt/client/internal/ItemBase.cpp.
use storage_framework.Base.{ℕ, true, ◌≡◌, refl, some, ◌++◌, arith}
use storage_framework.Base.Text.{Text, text}
use storage_framework.Local.FileSystem.{FileSystem}
use storage_framework.ClientV1.Exceptions.{StorageException, deleted}
use storage_framework.ClientV1.World.{
  Object, World, returns, throws, after, deref, object, throw_if_destroyed,
}
use storage_framework.ClientV1.LocalItems.{
  Env, copy, move, delete_item, parents, parent_ids, etag, last_modified_time, alive, both_alive,
}
use storage_framework.ClientV1.LocalItems.Folders.{
  Paths, list, lookup, create_folder, create_file, name, name_method, size, create_uploader,
  create_downloader, free_space_bytes, used_space_bytes, get,
}
use storage_framework.ClientV1.LocalItems.Requests.{
  Request, copy_of, move_of, lookup_of, create_folder_of, get_of, create_file_of,
  create_uploader_of, delete_of, parents_of, parent_ids_of, etag_of, time_of, name_of, list_of,
  size_of, downloader_of, free_space_of, used_space_of, method_of, serve, reply_with,
}

-- What a call on a deleted object ends with.
abbrev pub deleted_exception : Request → Object → StorageException
deleted_exception r o =
    deleted (method_of r o ++ (text ": \"" ++ (o.identity ++ text "\" was deleted previously")))
      o.identity

-- The folder that a call names is an object.
abbrev pub NamesObject : {S : Type 0} → Request → World S → Type 0
NamesObject (copy_of p n) w = (o : Object) × (object w.objects p ≡ some o)
NamesObject (move_of p n) w = (o : Object) × (object w.objects p ≡ some o)
NamesObject _ w = Unit

module _ (fs : FileSystem) (env : Env fs) (paths : Paths) where
  module _ (i : ℕ) (w : World fs.State) (o : Object) (there : object w.objects i ≡ some o)
      (gone : o.deleted ≡ true) where
    exception_of : Text → StorageException
    exception_of m =
        deleted (m ++ (text ": \"" ++ (o.identity ++ text "\" was deleted previously"))) o.identity

    deref-there : deref i w ≡ (returns o, w)
    unfolding deref
    deref-there = rw (there, deref) refl

    alive-deleted : (m : Text) → alive fs env m i w ≡ (throws (exception_of m), w)
    unfolding alive throw_if_destroyed after exception_of
    alive-deleted m = rw deref-there (rw gone refl)

    both_alive-deleted :
        (m : Text) (p : ℕ) (d : Object)
        → object w.objects p ≡ some d
        → both_alive fs env m i p w ≡ (throws (exception_of m), w)
    unfolding both_alive throw_if_destroyed after deref exception_of
    both_alive-deleted m p d h = ground arith

    -- A call on an object whose item was deleted or moved away throws DeletedException with the item's
    -- identity, and changes nothing: neither a file nor an object. The folder that a copy or a move
    -- names must be an object, deleted or not.
    pub serve-deleted :
        (r : Request)
        → NamesObject r w
        → serve fs env paths r i w ≡ (throws (deleted_exception r o), w)
    unfolding serve etag last_modified_time parents parent_ids delete_item list lookup create_folder
        create_file size create_uploader create_downloader free_space_bytes used_space_bytes get
        name copy move reply_with after exception_of
    serve-deleted (copy_of p x) (d, h) = rw (both_alive-deleted (text "Item::copy()") p d h) refl
    serve-deleted (move_of p x) (d, h) = rw (both_alive-deleted (text "Item::move()") p d h) refl
    serve-deleted (lookup_of x) n = rw (alive-deleted (text "Folder::lookup()")) refl
    serve-deleted (create_folder_of x) n = rw (alive-deleted (text "Folder::create_folder()")) refl
    serve-deleted (get_of x) n = rw (alive-deleted (text "Root::get()")) refl
    serve-deleted (create_file_of x z) n = rw (alive-deleted (text "Folder::create_file()")) refl
    serve-deleted (create_uploader_of b z) n =
        rw (alive-deleted (text "File::create_uploader()")) refl
    serve-deleted delete_of n = rw (alive-deleted (text "Item::delete_item()")) refl
    serve-deleted parents_of n = rw (alive-deleted (text "Item::parents()")) refl
    serve-deleted parent_ids_of n = rw (alive-deleted (text "Item::parent_ids()")) refl
    serve-deleted etag_of n = rw (alive-deleted (text "Item::etag()")) refl
    serve-deleted time_of n = rw (alive-deleted (text "Item::last_modified_time()")) refl
    serve-deleted name_of n = rw deref-there (rw (alive-deleted (name_method o.type)) refl)
    serve-deleted list_of n = rw (alive-deleted (text "Folder::list()")) refl
    serve-deleted size_of n = rw (alive-deleted (text "File::size()")) refl
    serve-deleted downloader_of n = rw (alive-deleted (text "File::create_downloader()")) refl
    serve-deleted free_space_of n = rw (alive-deleted (text "Root::free_space_bytes()")) refl
    serve-deleted used_space_of n = rw (alive-deleted (text "Root::used_space_bytes()")) refl
